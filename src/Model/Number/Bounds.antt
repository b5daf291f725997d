-- ===== src/Model/Number/Bounds.antt =====
-- Which integers the bounded types of spyne/model/primitive/number.py accept.
use native.Mathlib.Nat.{pow-suc, one-le-pow}
use spyne.Prelude.{
  ℕ, suc, ◌+◌, ◌-◌, ◌*◌, ◌^◌, ◌≤◌, ◌<◌, ◌≡◌, ◌↔◌, ap, true, ◌&&◌, Option, none, some, arith,
}
use spyne.Prelude.Int.{ℤ, pos, negsuc, pos_part, neg_part}
use spyne.Model.Number.{
  Number, int, NumberAttributes, default, lt, le, integer_validate_native, unsigned_validate_native,
  positive_validate_native, bounded_validate_native, bounded_unsigned_validate_native, is_integral,
}

doubled : (k : ℕ) → 2 ^ suc (suc (suc k)) ≡ 8 * 2 ^ k
doubled k = omega (arith, pow-suc 2 (suc (suc k)), pow-suc 2 (suc k), pow-suc 2 k)

half_range : (m : ℕ) → 3 ≤ m → 8 * 2 ^ (m + 1 - 4) ≡ 2 ^ m
half_range m h =
    let e : m ≡ suc (suc (suc (m - 3))) = omega arith in
    let f : m + 1 - 4 ≡ m - 3 = omega arith in
    rw f (omega (arith, ap (λ (t : ℕ). 2 ^ t) e, doubled (m - 3)))

in_range_iff :
    (h : ℕ) (z : ℤ)
    → 1 ≤ h
    → ((integer_validate_native default (some (int z))
          && (le (int (negsuc (h - 1))) (int z) && le (int z) (int (pos (h - 1)))))
        ≡ true)
      ↔ ((neg_part z ≤ h) × (pos_part z < h))
unfolding integer_validate_native le is_integral
in_range_iff h (pos n) p = ground arith
in_range_iff h (negsuc n) p = ground arith

-- With no constraint of its own, the signed type of m + 1 bits (m at least 3) accepts exactly the
-- integers of its two's complement range, -2^m to 2^m - 1.
pub bounded_validate_native_iff :
    (m : ℕ) (z : ℤ)
    → 3 ≤ m
    → (bounded_validate_native (m + 1) default (some (int z)) ≡ true)
      ↔ ((neg_part z ≤ 2 ^ m) × (pos_part z < 2 ^ m))
unfolding bounded_validate_native
bounded_validate_native_iff m z h =
    rw (half_range m h) (in_range_iff (2 ^ m) z (one-le-pow m 2 (omega arith)))

-- The unsigned type of n bits accepts exactly the integers from 0 to 2^n - 2, if it has no
-- constraint of its own: its highest value is refused.
pub bounded_unsigned_validate_native_iff :
    (n : ℕ) (z : ℤ)
    → (bounded_unsigned_validate_native n default (some (int z)) ≡ true)
      ↔ ((neg_part z ≡ 0) × (pos_part z + 1 < 2 ^ n))
unfolding lt le bounded_unsigned_validate_native
bounded_unsigned_validate_native_iff n z = ground arith

-- What `PositiveInteger` accepts under some attributes, `UnsignedInteger` accepts under them too,
-- None and fractions included, although its check does not go through that of its base class.
pub positive_validate_native-unsigned :
    (attrs : NumberAttributes) (v : Option Number)
    → positive_validate_native attrs v ≡ true
    → unsigned_validate_native attrs v ≡ true
unfolding positive_validate_native unsigned_validate_native lt le
positive_validate_native-unsigned attrs none h = h
positive_validate_native-unsigned attrs (some v) h = ground arith
