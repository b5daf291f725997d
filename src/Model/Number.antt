-- ===== src/Model/Number.antt =====
-- spyne/model/primitive/number.py: the numeric types and their checks. A value is a decimal number;
-- floats (`Double`, `Float`) are not modelled.
pub mod Bounds
use spyne.Prelude.{
  ℕ, zero, suc, ◌+◌, ◌-◌, ◌*◌, ◌^◌, ◌%◌, ◌≡◌, ◌↔◌, Bool, true, false, ◌&&◌, ◌||◌, String, Option,
  none, some, List, leb, ltb, ◌==◌, Eq, arith, if◌then◌else◌,
}
use spyne.Prelude.Int.{ℤ, pos, negsuc, pos_part, neg_part, ltb_ℤ, leb_ℤ, eqb_ℤ}
use spyne.Model.Simple
use spyne.Model.Simple.{SimpleAttributes}

-- A `decimal.Decimal` or an `int`: coefficient / 10^scale.
pub record Number : Type 0 where
  pub coefficient : ℤ
  pub scale : ℕ

abbrev pub int : ℤ → Number
int z = record { coefficient = z; scale = 0 }

-- `a < b` and `a <= b`, by cross multiplication of the parts
unfoldable pub lt : Number → Number → Bool
lt a b =
    ltb (pos_part a.coefficient * 10 ^ b.scale + neg_part b.coefficient * 10 ^ a.scale)
      (pos_part b.coefficient * 10 ^ a.scale + neg_part a.coefficient * 10 ^ b.scale)

unfoldable pub le : Number → Number → Bool
le a b =
    leb (pos_part a.coefficient * 10 ^ b.scale + neg_part b.coefficient * 10 ^ a.scale)
      (pos_part b.coefficient * 10 ^ a.scale + neg_part a.coefficient * 10 ^ b.scale)

-- `a == b`
unfoldable pub eq : Number → Number → Bool
unfolding le
eq a b = le a b && le b a

-- `int(value) == value`
unfoldable pub is_integral : Number → Bool
is_integral a = (pos_part a.coefficient + neg_part a.coefficient) % 10 ^ a.scale == 0

-- A bound, `Decimal('-inf')` and `Decimal('inf')` among them.
pub data Bound : Type 0 where
  neg_inf inf : Bound
  finite : Number → Bound

unfoldable pub above : Bound → Number → Bool
unfolding lt
above neg_inf v = true
above inf v = false
above (finite b) v = lt b v

unfoldable pub at_least : Bound → Number → Bool
unfolding le
at_least neg_inf v = true
at_least inf v = false
at_least (finite b) v = le b v

unfoldable pub below : Bound → Number → Bool
unfolding lt
below neg_inf v = false
below inf v = true
below (finite b) v = lt v b

unfoldable pub at_most : Bound → Number → Bool
unfolding le
at_most neg_inf v = false
at_most inf v = true
at_most (finite b) v = le v b

-- `Decimal.Attributes`, less what only formats values. `none` for a length or a number of digits is
-- infinity.
pub record NumberAttributes : Type 0 where
  pub simple : SimpleAttributes Number
  pub gt : Bound
  pub ge : Bound
  pub lt : Bound
  pub le : Bound
  pub max_str_len : Option ℕ

-- the defaults of the class
abbrev pub default : NumberAttributes
default = record {
  simple = record { nullable = true; values = none };
  gt = neg_inf;
  ge = neg_inf;
  lt = inf;
  le = inf;
  max_str_len = some 1024;
}

abbrev within : Option ℕ → ℕ → Bool
within none n = true
within (some k) n = leb n k

abbrev within_or_none : Option ℕ → Option ℕ → Bool
within_or_none limit none = true
within_or_none limit (some n) = within limit n

-- `_min_b` and `_max_b` of `TBoundedInteger`: -(0x8 << (num_bits - 4)) and
-- (0x8 << (num_bits - 4)) - 1. The source makes types of 64, 32, 16 and 8 bits; a shift by a
-- negative number, which Python refuses, does not arise.
unfoldable pub min_b : ℕ → ℤ
min_b num_bits = negsuc (8 * 2 ^ (num_bits - 4) - 1)

unfoldable pub max_b : ℕ → ℤ
max_b num_bits = pos (8 * 2 ^ (num_bits - 4) - 1)

-- `_max_b` of `TBoundedUnsignedInteger`; its `_min_b` is 0
unfoldable pub unsigned_max_b : ℕ → ℕ
unsigned_max_b num_bits = 2 ^ num_bits - 1

-- `Decimal.validate_string`, on the length of the text
unfoldable pub validate_string : NumberAttributes → Option ℕ → Bool
validate_string attrs value =
    Simple.validate_string attrs.simple value && within_or_none attrs.max_str_len value

abbrev in_bounds : NumberAttributes → Number → Bool
in_bounds attrs v =
    above attrs.gt v && at_least attrs.ge v && below attrs.lt v && at_most attrs.le v

-- `value is None or p(value)`
abbrev none_or : (Number → Bool) → Option Number → Bool
none_or p none = true
none_or p (some v) = p v

-- `Decimal.validate_native`
unfoldable pub decimal_validate_native : NumberAttributes → Option Number → Bool
unfolding above at_least below at_most Simple.validate_native eq
decimal_validate_native attrs value =
    Simple.validate_native eq attrs.simple value && none_or (in_bounds attrs) value

-- `Integer.validate_native`
unfoldable pub integer_validate_native : NumberAttributes → Option Number → Bool
unfolding decimal_validate_native
integer_validate_native attrs value =
    decimal_validate_native attrs value && none_or is_integral value

-- `UnsignedInteger.validate_native`
unfoldable pub unsigned_validate_native : NumberAttributes → Option Number → Bool
unfolding integer_validate_native
unsigned_validate_native attrs value =
    integer_validate_native attrs value && none_or (le (int (pos 0))) value

-- `PositiveInteger.validate_native`, which does not go through its base class
unfoldable pub positive_validate_native : NumberAttributes → Option Number → Bool
unfolding integer_validate_native
positive_validate_native attrs value =
    integer_validate_native attrs value && none_or (lt (int (pos 0))) value

-- `_min_b <= value <= _max_b` and `_min_b <= value < _max_b`, as the two types write it
abbrev in_signed_range : ℕ → Number → Bool
in_signed_range num_bits v = le (int (min_b num_bits)) v && le v (int (max_b num_bits))

abbrev in_unsigned_range : ℕ → Number → Bool
in_unsigned_range num_bits v = le (int (pos 0)) v && lt v (int (pos (unsigned_max_b num_bits)))

-- `_BoundedInteger.validate_native` of `TBoundedInteger(num_bits, ...)`
unfoldable pub bounded_validate_native : ℕ → NumberAttributes → Option Number → Bool
unfolding integer_validate_native is_integral min_b max_b
bounded_validate_native num_bits attrs value =
    integer_validate_native attrs value && none_or (in_signed_range num_bits) value

-- `_BoundedUnsignedInteger.validate_native` of `TBoundedUnsignedInteger(num_bits, ...)`
unfoldable pub bounded_unsigned_validate_native : ℕ → NumberAttributes → Option Number → Bool
unfolding unsigned_validate_native is_integral unsigned_max_b
bounded_unsigned_validate_native num_bits attrs value =
    unsigned_validate_native attrs value && none_or (in_unsigned_range num_bits) value
