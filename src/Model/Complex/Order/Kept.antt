-- ===== src/Model/Complex/Order/Kept.antt =====
-- The order of fields that the metaclass of spyne/model/complex.py applies loses no member.
use mathlib.Core.Path.{subst}
use spyne.Prelude.{
  ℕ, suc, zero, nat_eq, string_eq, ◌≡◌, ◌+◌, refl, sym, ap, ◌∙◌, inl, inr, arith, String, Bool,
  true, false, ◌||◌, Option, is_none, List, [], ◌∷◌, All, contains, Distinct, length, ◌=?◌,
  if◌then◌else◌, Option-cases, Bool-cases, eq_of_beq, beq_refl,
}
use spyne.Prelude.Int.{ℤ, pos, negsuc}
use spyne.Prelude.Dict.{keys}
use spyne.Prelude.Exec.{ok}
use spyne.Util.Odict.{Odict, items, insert_at}
use spyne.Util.Odict.Order.{length-insert_at, contains-insert_at, Distinct-insert_at}
use spyne.Util.Odict.Laws.{IsValid, keys-items}
use spyne.Model.Complex.Order.{insert_int, without_order, place_ordered, apply_order}

length-insert_int :
    (l : List String) (i : ℤ) (k : String) → length (insert_int l i k) ≡ suc (length l)
unfolding insert_int
length-insert_int l (pos n) k = length-insert_at l n k
length-insert_int l (negsuc n) k = length-insert_at l _ k

contains-insert_int :
    (l : List String) (i : ℤ) (k j : String)
    → contains (insert_int l i k) j ≡ ((k =? j) || contains l j)
unfolding insert_int
contains-insert_int l (pos n) k j = contains-insert_at l n k j
contains-insert_int l (negsuc n) k j = contains-insert_at l _ k j

Distinct-insert_int :
    (l : List String) (i : ℤ) (k : String)
    → Distinct l
    → contains l k ≡ false
    → Distinct (insert_int l i k)
unfolding insert_int
Distinct-insert_int l (pos n) k h e = Distinct-insert_at l n k h e
Distinct-insert_int l (negsuc n) k h e = Distinct-insert_at l _ k h e

-- the names for which `q` holds
abbrev pub keep : (String → Bool) → List String → List String
keep q [] = []
keep q (k ∷ l) = let rest = keep q l in if q k then k ∷ rest else rest

keep-insert_at :
    (q : String → Bool) (l : List String) (n : ℕ) (k : String)
    → q k ≡ false
    → keep q (insert_at l n k) ≡ keep q l
unfolding insert_at
keep-insert_at q l zero k e = rw e refl
keep-insert_at q [] (suc n) k e = rw e refl
keep-insert_at q (x ∷ l) (suc n) k e = rw (keep-insert_at q l n k e) refl

keep-insert_int :
    (q : String → Bool) (l : List String) (i : ℤ) (k : String)
    → q k ≡ false
    → keep q (insert_int l i k) ≡ keep q l
unfolding insert_int
keep-insert_int q l (pos n) k e = keep-insert_at q l n k e
keep-insert_int q l (negsuc n) k e = keep-insert_at q l _ k e

module _ (order : ℕ → Option ℤ) where
  -- the names with an order
  with_order : List (String × ℕ) → List String
  with_order [] = []
  with_order ((k, v) ∷ l) = let rest = with_order l in if is_none (order v) then rest else k ∷ rest

  -- `q` tells the names without an order.
  abbrev pub Tells : (String → Bool) → List (String × ℕ) → Type 0
  Tells q = All (λ m. q m.0 ≡ is_none (order m.1))

  contains-keys_split :
      (l : List (String × ℕ)) (j : String)
      → contains (keys l) j ≡ contains (without_order order l) j || contains (with_order l) j
  unfolding without_order with_order
  contains-keys_split [] j = refl
  contains-keys_split ((k, v) ∷ l) j = ground (arith, contains-keys_split l j)

  length-keys_split :
      (l : List (String × ℕ))
      → length (keys l) ≡ length (without_order order l) + length (with_order l)
  unfolding without_order with_order
  length-keys_split [] = refl
  length-keys_split ((k, v) ∷ l) = ground (arith, length-keys_split l)

  keep-without_order :
      (q : String → Bool) (l : List (String × ℕ))
      → Tells q l
      → keep q (keys l) ≡ keep q (without_order order l)
  unfolding without_order
  keep-without_order q [] h = refl
  keep-without_order q ((k, v) ∷ l) h = ground (arith, h.0, keep-without_order q l h.1)

  -- What `place_ordered` makes of a list.
  record Places (q : String → Bool) (l : List (String × ℕ)) (acc r : List String) : Type 0 where
    size : length r ≡ length acc + length (with_order l)
    members : (j : String) → contains r j ≡ contains acc j || contains (with_order l) j
    distinct : Distinct r
    kept : keep q r ≡ keep q acc

  Distinct-without_order :
      (l : List (String × ℕ)) → Distinct (keys l) → Distinct (without_order order l)
  unfolding without_order
  Distinct-without_order [] h = tt
  Distinct-without_order ((k, v) ∷ l) h =
      ground (arith, h.0, contains-keys_split l k, Distinct-without_order l h.1)

  apart_after :
      (k : String) (v : ℕ) (l : List (String × ℕ)) (acc : List String) (i : ℤ)
      → contains (keys l) k ≡ false
      → ((j : String) → contains (with_order l) j ≡ true → contains acc j ≡ false)
      → (j : String) → contains (with_order l) j ≡ true
      → contains (insert_int acc i k) j ≡ false
  apart_after k v l acc i absent apart j f = elim (Bool-cases (k =? j)) [
    | inl same ↦
        let there : contains (keys l) j ≡ true = ground (arith, contains-keys_split l j, f) in
        absurd (cc (sym absent ∙ ap (contains (keys l)) (eq_of_beq k j same) ∙ there))
    | inr differ ↦ ground (arith, differ, apart j f, contains-insert_int acc i k j)
  ]

  place_ordered-Places :
      (q : String → Bool) (l : List (String × ℕ)) (acc : List String)
      → Tells q l
      → Distinct (keys l)
      → Distinct acc
      → ((j : String) → contains (with_order l) j ≡ true → contains acc j ≡ false)
      → Places q l acc (place_ordered order l acc)
  unfolding place_ordered with_order
  place_ordered-Places q [] acc tells u h apart = record {
    size = omega arith;
    members = λ j. ground arith;
    distinct = h;
    kept = refl;
  }
  place_ordered-Places q ((k, v) ∷ l) acc tells u h apart = elim (Option-cases (order v)) [
    | inl e ↦
        let rest =
          place_ordered-Places q l acc tells.1 u.1 h (λ j f. apart j (ground (arith, e, f))) in
        rw e (record {
          size = ground (arith, e, rest.size);
          members = λ j. ground (arith, e, rest.members j);
          distinct = rest.distinct;
          kept = rest.kept;
        })
    | inr (i, e) ↦
        let fresh : contains acc k ≡ false = apart k (ground (arith, e, beq_refl k)) in
        let later = apart_after k v l acc i u.0 (λ j f. apart j (ground (arith, e, f))) in
        let rest =
          place_ordered-Places q l (insert_int acc i k) tells.1 u.1
            (Distinct-insert_int acc i k h fresh) later in
        rw e (record {
          size = ground (arith, e, rest.size, length-insert_int acc i k);
          members = λ j. ground (arith, e, rest.members j, contains-insert_int acc i k j);
          distinct = rest.distinct;
          kept = rest.kept ∙ keep-insert_int q acc i k (ground (arith, tells.0, e));
        })
  ]

  without_order-apart :
      (l : List (String × ℕ))
      → Distinct (keys l)
      → (j : String) → contains (with_order l) j ≡ true
      → contains (without_order order l) j ≡ false
  unfolding without_order with_order
  without_order-apart [] u j e = refl
  without_order-apart ((k, v) ∷ l) u j e = elim (Bool-cases (k =? j)) [
    | inl same ↦
        let here : contains (keys l) j ≡ false =
          ap (contains (keys l)) (sym (eq_of_beq k j same)) ∙ u.0 in
        ground (arith, e, here, contains-keys_split l j)
    | inr differ ↦ ground (arith, differ, e, without_order-apart l u.1 j)
  ]

  -- For a table in step: the assertion of the metaclass holds, the order of fields that it applies
  -- keeps the table in step and the types of all members, and leaves the members without an order
  -- of their own, which `q` tells, in the order that they had.
  pub apply_order-IsValid :
      (q : String → Bool) (d : Odict String ℕ)
      → IsValid d
      → ((l : List (String × ℕ)) → items d d.list ≡ ok l → Tells q l)
      → (d' : Odict String ℕ) × (apply_order order d ≡ ok d')
        × IsValid d'
        × (d'.dict ≡ d.dict)
        × (keep q d'.list ≡ keep q d.list)
  unfolding apply_order
  apply_order-IsValid q d valid tells =
      let (l, listed, names) = keys-items d valid in
      let tell = tells l listed in
      let u : Distinct (keys l) = subst Distinct (sym names) valid.distinct in
      let placed =
        place_ordered-Places q l (without_order order l) tell u (Distinct-without_order l u)
          (without_order-apart l u) in
      let new = place_ordered order l (without_order order l) in
      let size : length new ≡ length d.list =
        placed.size ∙ sym (length-keys_split l) ∙ ap length names in
      let members : (j : String) → contains new j ≡ contains d.list j =
        λ j. placed.members j ∙ sym (contains-keys_split l j) ∙ ap (λ x. contains x j) names in
      (
        record d { list = new },
        rw (listed, size, beq_refl (length d.list)) refl,
        record {
          distinct = placed.distinct;
          unique = valid.unique;
          same_keys = λ j. members j ∙ valid.same_keys j;
          same_size = size ∙ valid.same_size;
        },
        refl,
        placed.kept ∙ sym (keep-without_order q l tell) ∙ ap (keep q) names,
      )
