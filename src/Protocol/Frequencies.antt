-- ===== src/Protocol/Frequencies.antt =====
-- spyne/protocol/dictdoc/_base.py: `_check_freq_dict`, which checks how often each member of a
-- class occurs in a document.
use mathlib.Core.Path.{subst}
use mathlib.Core.Option.{some-injective}
use spyne.Prelude.{
  ℕ, ◌≡◌, ◌<◌, ◌≤◌, refl, ap, sym, ◌∙◌, eq_of_beq, nat_eq, if_elim, ltb→lt, ltb→le, Bool, true,
  false, ltb, ◌==◌, String, string_eq, Option, none, some, List, [], ◌∷◌, ◌++◌, if◌then◌else◌, All,
}
use spyne.Prelude.Dict
use spyne.Prelude.Dict.{Dict}
use spyne.Prelude.Exec.{Result, ok, err}

-- `min_occurs` and `max_occurs`; None is `Decimal('inf')`.
pub record Occurs : Type 0 where
  pub min_occurs : ℕ
  pub max_occurs : Option ℕ

-- The type `v` of a member: `attrs` is what `get_cls_attrs(v)` returns, `own_max` is
-- `v.Attributes.max_occurs`, and `item` is what `get_cls_attrs` returns for the type of the items
-- if `v` is an Array.
pub record MemberType : Type 0 where
  pub attrs : Occurs
  pub own_max : Option ℕ
  pub item : Option Occurs

-- A ValidationError, with the member and the bound.
pub data FreqError : Type 0 where
  at_least at_most : String → ℕ → FreqError

abbrev is_one : Option ℕ → Bool
is_one none = false
is_one (some n) = n == 1

abbrev or_own : Occurs → Option Occurs → Occurs
or_own own none = own
or_own own (some o) = o

-- The bounds for a member: those of the items of an array that occurs once itself.
unfoldable pub bounds : MemberType → Occurs
bounds v = if is_one v.own_max then or_own v.attrs v.item else v.attrs

abbrev pub is_over : ℕ → Option ℕ → Bool
is_over val none = false
is_over val (some max_o) = ltb max_o val

abbrev or_zero : Option ℕ → ℕ
or_zero none = 0
or_zero (some n) = n

-- `d[k]` of the defaultdict
abbrev pub count_of : Dict String ℕ → String → ℕ
count_of d k = or_zero (Dict.get d k)

abbrev bound_or_zero : Option ℕ → ℕ
bound_or_zero none = 0
bound_or_zero (some n) = n

-- one round of the loop, before the next ones
abbrev check_member :
    String → ℕ → Occurs → Result FreqError (Unit {0}) → Result FreqError (Unit {0})
check_member k val o rest =
    if ltb val o.min_occurs
    then err (at_least k o.min_occurs)
    else if is_over val o.max_occurs
    then err (at_most k (bound_or_zero o.max_occurs))
    else rest

-- `_check_freq_dict`, on the items of `fti`
unfoldable pub check_freq_dict :
    List (String × MemberType) → Dict String ℕ → Result FreqError (Unit {0})
unfolding bounds
check_freq_dict [] d = ok tt
check_freq_dict ((k, v) ∷ fti) d = check_member k (count_of d k) (bounds v) (check_freq_dict fti d)

-- The bounds that are meant for the members of a type: those of its items if it is an Array that
-- occurs once itself, or else its own.
pub data HasBounds (v : MemberType) : Occurs → Type 0 where
  of_items : {o : Occurs} → v.item ≡ some o → v.own_max ≡ some 1 → HasBounds v o
  of_no_array : v.item ≡ none → HasBounds v v.attrs
  of_repeated : (v.own_max ≡ some 1 → ⊥) → HasBounds v v.attrs

-- By the counts `d`, the member with the name and the type in `x` occurs as often as it may.
pub record Fits (d : Dict String ℕ) (x : String × MemberType) : Type 0 where
  pub meant : Occurs
  pub are_meant : HasBounds x.1 meant
  pub enough : meant.min_occurs ≤ count_of d x.0
  pub not_over : (n : ℕ) → meant.max_occurs ≡ some n → count_of d x.0 ≤ n

-- The error for a member that occurs less often, or more often, than it may.
pub data Breaks (d : Dict String ℕ) (x : String × MemberType) : FreqError → Type 0 where
  too_few :
      {o : Occurs}
      → HasBounds x.1 o
      → count_of d x.0 < o.min_occurs
      → Breaks d x (at_least x.0 o.min_occurs)
  too_many :
      {o : Occurs} {n : ℕ}
      → HasBounds x.1 o
      → o.max_occurs ≡ some n
      → n < count_of d x.0
      → Breaks d x (at_most x.0 n)

-- What a result says of the members: all occur as often as they may, or the error is that of the
-- first that does not.
abbrev pub Reports :
    Dict String ℕ → List (String × MemberType) → Result FreqError (Unit {0}) → Type 0
Reports d fti (ok a) = All (Fits d) fti
Reports d fti (err e) =
    (before after : List (String × MemberType)) × (x : String × MemberType) × (fti
      ≡ before ++ x ∷ after)
    × All (Fits d) before
    × Breaks d x e

Reports-cons :
    (d : Dict String ℕ) (x : String × MemberType) (fti : List (String × MemberType))
    (r : Result FreqError (Unit {0}))
    → Fits d x
    → Reports d fti r
    → Reports d (x ∷ fti) r
Reports-cons d x fti (ok a) f h = (f, h)
Reports-cons d x fti (err e) f (before, after, y, split, fits, breaks) =
    (x ∷ before, after, y, ap (λ l. x ∷ l) split, (f, fits), breaks)

is_one-some : (o : Option ℕ) → is_one o ≡ true → o ≡ some 1
is_one-some none h = absurd (cc h)
is_one-some (some n) h = ap some (eq_of_beq n 1 h)

not_one : (o : Option ℕ) → is_one o ≡ false → o ≡ some 1 → ⊥
not_one none h e = absurd (cc e)
not_one (some n) h e = absurd (cc (sym h ∙ ap is_one e))

chosen-HasBounds :
    (v : MemberType) (i : Option Occurs)
    → v.item ≡ i
    → v.own_max ≡ some 1
    → HasBounds v (or_own v.attrs i)
chosen-HasBounds v none e one = of_no_array e
chosen-HasBounds v (some o) e one = of_items e one

bounds-HasBounds : (v : MemberType) → HasBounds v (bounds v)
unfolding bounds
bounds-HasBounds v =
    if_elim (HasBounds v) (is_one v.own_max) _ _
      (λ one. chosen-HasBounds v v.item refl (is_one-some v.own_max one))
      (λ other. of_repeated (not_one v.own_max other))

over-Breaks :
    (d : Dict String ℕ) (k : String) (v : MemberType) (o : Occurs) (m : Option ℕ)
    → HasBounds v o
    → o.max_occurs ≡ m
    → is_over (count_of d k) m ≡ true
    → Breaks d (k, v) (at_most k (bound_or_zero m))
over-Breaks d k v o none has e h = absurd (cc h)
over-Breaks d k v o (some n) has e h = too_many has e (ltb→lt n (count_of d k) h)

not_over-bound : (val : ℕ) (m : Option ℕ) (n : ℕ) → is_over val m ≡ false → m ≡ some n → val ≤ n
not_over-bound val none n h e = absurd (cc e)
not_over-bound val (some x) n h e = subst (λ y. val ≤ y) (some-injective x n e) (ltb→le x val h)

pub check_freq_dict-Reports :
    (fti : List (String × MemberType)) (d : Dict String ℕ) → Reports d fti (check_freq_dict fti d)
unfolding check_freq_dict
check_freq_dict-Reports [] d = tt
check_freq_dict-Reports ((k, v) ∷ fti) d =
    let val = count_of d k in
    let o = bounds v in
    let has = bounds-HasBounds v in
    if_elim (Reports d ((k, v) ∷ fti)) (ltb val o.min_occurs) _ _
      (λ few. ([], fti, (k, v), refl, tt, too_few has (ltb→lt val o.min_occurs few)))
      (λ enough.
        if_elim (Reports d ((k, v) ∷ fti)) (is_over val o.max_occurs) _ _
          (λ many. ([], fti, (k, v), refl, tt, over-Breaks d k v o o.max_occurs has refl many))
          (λ within.
            Reports-cons d (k, v) fti (check_freq_dict fti d)
              (record {
                meant = o;
                are_meant = has;
                enough = ltb→le val o.min_occurs enough;
                not_over = λ n. not_over-bound val o.max_occurs n within;
              })
              (check_freq_dict-Reports fti d)))
