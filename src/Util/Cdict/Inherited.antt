-- ===== src/Util/Cdict/Inherited.antt =====
-- The cache of spyne/util/cdict.py never changes what a lookup finds.
use spyne.Prelude.{
  ℕ, zero, suc, nat_eq, ◌≡◌, ◌<◌, refl, sym, ap, ◌∙◌, arith, Option, none, some, List, [], ◌∷◌, All,
  All-append, Option-cases, inl, inr, ==_iff,
}
use spyne.Prelude.Dict
use spyne.Prelude.Dict.{Dict, get-put}
use spyne.Prelude.Exec.{Result, ok, err}
use spyne.Util.Cdict.{
  class_key, instance_key, LookupError, key_error, reversed, Lookup, try_bases, getitem_class,
  getitem,
}

All-reversed : (P : ℕ → Type 0) (bs : List ℕ) → All P bs → All P (reversed bs)
All-reversed P [] h = tt
All-reversed P (b ∷ bs) (p, h) = All-append P (reversed bs) (b ∷ []) (All-reversed P bs h) (p, tt)

module _ {V : Type 0} where
  abbrev pub or_else : Option V → Option V → Option V
  or_else none o = o
  or_else (some v) o = some v

  abbrev pub first_of : (ℕ → Option V) → List ℕ → Option V
  first_of value [] = none
  first_of value (b ∷ bs) = or_else (value b) (first_of value bs)

  abbrev pub to_result : Option V → Result LookupError V
  to_result none = err key_error
  to_result (some v) = ok v

module _ {V : Type 0} (bases : ℕ → List ℕ) (entries : Dict ℕ V) (value : ℕ → Option V) where
  -- The value of a class is its own entry, or that of the last of its bases that has a value.
  pub record IsInherited : Type 0 where
    pub inherited :
        (c : ℕ) → value c ≡ or_else (Dict.get entries c) (first_of value (reversed (bases c)))
    pub older : (c : ℕ) → All (λ b. b < c) (bases c)

  -- What the dictionary holds: the entries, and values of other classes.
  pub record IsCache (d : Dict ℕ V) : Type 0 where
    pub cached : (c : ℕ) (v : V) → Dict.get d c ≡ some v → value c ≡ some v
    pub complete : (c : ℕ) → Dict.get d c ≡ none → Dict.get entries c ≡ none

  abbrev pub Answers : Option V → Result LookupError V × Dict ℕ V → Type 0
  Answers o r = (r.0 ≡ to_result o) × IsCache r.1

  put-IsCache :
      (d : Dict ℕ V) (c : ℕ) (v : V) → IsCache d → value c ≡ some v → IsCache (Dict.put d c v)
  put-IsCache d c v h e = record {
    cached = λ j w f. ground (arith, get-put d c j v, h.cached j w, ==_iff c j);
    complete = λ j f. ground (arith, get-put d c j v, h.complete j, ==_iff c j);
  }

  -- Lookups of all classes in a list are right.
  abbrev RightFor : (ℕ → Lookup V V) → List ℕ → Type 0
  RightFor look bs = All (λ b. (d : Dict ℕ V) → IsCache d → Answers (value b) (look b d)) bs

  try_bases-Answers :
      (look : ℕ → Lookup V V) (c : ℕ) (bs : List ℕ) (d : Dict ℕ V)
      → RightFor look bs
      → value c ≡ first_of value bs
      → IsCache d
      → Answers (value c) (try_bases look c bs d)
  unfolding try_bases
  try_bases-Answers look c [] d r e h = (ap (λ o. to_result o) (sym e), h)
  try_bases-Answers look c (b ∷ bs) d (right, r) e h = elim (Option-cases (value b)) [
    | inl absent ↦
        let missed : (look b d).0 ≡ err key_error = (right d h).0 ∙ ap (λ o. to_result o) absent in
        rw missed (
          try_bases-Answers look c bs (look b d).1 r
            (e ∙ ap (λ o. or_else o (first_of value bs)) absent) (right d h).1)
    | inr (v, found) ↦
        let hit : (look b d).0 ≡ ok v = (right d h).0 ∙ ap (λ o. to_result o) found in
        let it_is : value c ≡ some v = e ∙ ap (λ o. or_else o (first_of value bs)) found in
        rw hit (ap (λ o. to_result o) (sym it_is), put-IsCache (look b d).1 c v (right d h).1 it_is)
  ]

  value-absent :
      (c : ℕ)
      → IsInherited
      → Dict.get entries c ≡ none
      → value c ≡ first_of value (reversed (bases c))
  value-absent c i e = i.inherited c ∙ ap (λ o. or_else o (first_of value (reversed (bases c)))) e

  all_right :
      (look : ℕ → Lookup V V) (c : ℕ) (bs : List ℕ)
      → All (λ b. b < c) bs
      → ((b : ℕ) → b < c → (d : Dict ℕ V) → IsCache d → Answers (value b) (look b d))
      → RightFor look bs
  all_right look c [] a f = tt
  all_right look c (b ∷ bs) (p, a) f = (f b p, all_right look c bs a f)

  getitem_class-Answers :
      (fuel c : ℕ) (d : Dict ℕ V)
      → IsInherited
      → c < fuel
      → IsCache d
      → Answers (value c) (getitem_class bases fuel c d)
  unfolding getitem_class
  getitem_class-Answers zero c d i lt h = absurd (omega (arith, lt))
  getitem_class-Answers (suc fuel) c d i lt h = elim (Option-cases (Dict.get d c)) [
    | inl absent ↦ rw absent (
        try_bases-Answers (getitem_class bases fuel) c (reversed (bases c)) d
          (All-reversed
            (λ b. (d' : Dict ℕ V) → IsCache d' → Answers (value b) (getitem_class bases fuel b d'))
            (bases c)
            (all_right (getitem_class bases fuel) c (bases c) (i.older c)
              (λ b p d' h'. getitem_class-Answers fuel b d' i (omega (arith, p, lt)) h')))
          (value-absent c i (h.complete c absent)) h)
    | inr (v, found) ↦ rw found (ap (λ o. to_result o) (sym (h.cached c v found)), h)
  ]

  -- Any lookup of a class ends, with the value that the class has by its own entry or inherits, or
  -- with KeyError where it has none; and what is kept in the dictionary on the way changes no
  -- lookup of a class that comes later. The fuel `suc c` is enough for class `c`.
  pub getitem-Answers :
      (c : ℕ) (d : Dict ℕ V)
      → IsInherited
      → IsCache d
      → Answers (value c) (getitem bases (suc c) (class_key c) d)
  unfolding getitem
  getitem-Answers c d i h = getitem_class-Answers (suc c) c d i (omega arith) h

  try_bases_stores :
      (look : ℕ → Lookup V V) (c : ℕ) (bs : List ℕ) (d : Dict ℕ V)
      → RightFor look bs
      → IsCache d
      → ((try_bases look c bs d).0 ≡ to_result (first_of value bs))
        × ((v : V) → first_of value bs ≡ some v → Dict.get (try_bases look c bs d).1 c ≡ some v)
  unfolding try_bases
  try_bases_stores look c [] d r h = (refl, λ v e. cc)
  try_bases_stores look c (b ∷ bs) d (right, r) h = elim (Option-cases (value b)) [
    | inl absent ↦
        let missed : (look b d).0 ≡ err key_error = (right d h).0 ∙ ap (λ o. to_result o) absent in
        rw (missed, absent) (try_bases_stores look c bs (look b d).1 r (right d h).1)
    | inr (v, found) ↦
        let hit : (look b d).0 ≡ ok v = (right d h).0 ∙ ap (λ o. to_result o) found in
        rw (hit, found) (refl, λ w e. ground (arith, get-put (look b d).1 c c v, ==_iff c c))
  ]

  -- A lookup with an instance of class `c` ends with what the bases of `c` have, whatever entry `c`
  -- has itself, and this value replaces the entry of `c`.
  pub getitem_instance_lem :
      (c : ℕ) (d : Dict ℕ V)
      → IsInherited
      → IsCache d
      → ((getitem bases c (instance_key c) d).0 ≡ to_result (first_of value (reversed (bases c))))
        × ((v : V)
            → first_of value (reversed (bases c)) ≡ some v
            → Dict.get (getitem bases c (instance_key c) d).1 c ≡ some v)
  unfolding getitem
  getitem_instance_lem c d i h =
      try_bases_stores (getitem_class bases c) c (reversed (bases c)) d
        (All-reversed
          (λ b. (d' : Dict ℕ V) → IsCache d' → Answers (value b) (getitem_class bases c b d'))
          (bases c)
          (all_right (getitem_class bases c) c (bases c) (i.older c)
            (λ b p d' h'. getitem_class-Answers c b d' i p h')))
        h
