-- ===== src/Protocol/Fields/Order.antt =====
-- What `sort_fields` of spyne/protocol/_base.py makes of the declared order.
use mathlib.Core.List.{Perm}
use mathlib.Core.List.Perm
use mathlib.Core.Path.{subst}
use spyne.Prelude.{
  ℕ, suc, nat_eq, ◌≡◌, refl, sym, ap, ◌∙◌, String, string_eq, Option, none, some, is_none, [], ◌∷◌,
  length, contains, beq_refl, All, if_elim, ◌≤◌, Distinct, true, false, ◌=?◌, arith,
}
use spyne.Prelude.Int.{ℤ, pos, leb_ℤ}
use spyne.Prelude.Dict
use spyne.Prelude.Dict.{Dict, keys, get-put, length-put, contains-keys}
use spyne.Protocol.Fields.{
  or_items, put_unordered, Items, ordered, unordered, indexes_of, index_in, place, sort,
  sort_fields,
}

module _ {A : Type 0} (order : A → Option ℤ) where
  place-Perm :
      (indexes : Dict String ℤ) (x : String × A) (l : Items A)
      → Perm (place order indexes x l) (x ∷ l)
  unfolding place
  place-Perm indexes x [] = Perm.refl (x ∷ [])
  place-Perm indexes x (y ∷ l) =
      if_elim (λ r. Perm r (x ∷ y ∷ l))
        (leb_ℤ (index_in order indexes x) (index_in order indexes y)) _ _
        (λ _. Perm.refl (x ∷ y ∷ l))
        (λ _. Perm.trans (Perm.cons y (place-Perm indexes x l)) (Perm.swap x y l))

  sort-Perm : (indexes : Dict String ℤ) (l : Items A) → Perm (sort order indexes l) l
  unfolding sort
  sort-Perm indexes [] = Perm.refl []
  sort-Perm indexes (x ∷ l) =
      Perm.trans (place-Perm indexes x (sort order indexes l)) (Perm.cons x (sort-Perm indexes l))

  -- No member of `l` has a lower index than `x`.
  abbrev pub Below : Dict String ℤ → String × A → Items A → Type 0
  Below indexes x l =
      All (λ y. leb_ℤ (index_in order indexes x) (index_in order indexes y) ≡ true) l

  abbrev pub IsSorted : Dict String ℤ → Items A → Type 0
  IsSorted indexes [] = Unit
  IsSorted indexes (x ∷ l) = Below indexes x l × IsSorted indexes l

  Below-trans :
      (indexes : Dict String ℤ) (x y : String × A) (l : Items A)
      → leb_ℤ (index_in order indexes x) (index_in order indexes y) ≡ true
      → Below indexes y l
      → Below indexes x l
  Below-trans indexes x y [] h b = tt
  Below-trans indexes x y (z ∷ l) h b = (ground (arith, b.0), Below-trans indexes x y l h b.1)

  place-Below :
      (indexes : Dict String ℤ) (x z : String × A) (l : Items A)
      → leb_ℤ (index_in order indexes z) (index_in order indexes x) ≡ true
      → Below indexes z l
      → Below indexes z (place order indexes x l)
  unfolding place
  place-Below indexes x z [] h b = (h, tt)
  place-Below indexes x z (y ∷ l) h b =
      if_elim (λ r. Below indexes z r) (leb_ℤ (index_in order indexes x) (index_in order indexes y))
        _ _ (λ _. (h, b)) (λ _. (b.0, place-Below indexes x z l h b.1))

  place-IsSorted :
      (indexes : Dict String ℤ) (x : String × A) (l : Items A)
      → IsSorted indexes l
      → IsSorted indexes (place order indexes x l)
  unfolding place
  place-IsSorted indexes x [] h = (tt, tt)
  place-IsSorted indexes x (y ∷ l) h =
      if_elim (λ r. IsSorted indexes r)
        (leb_ℤ (index_in order indexes x) (index_in order indexes y)) _ _
        (λ le. ((le, Below-trans indexes x y l le h.0), h))
        (λ gt. (place-Below indexes x y l (ground arith) h.0, place-IsSorted indexes x l h.1))

  sort-IsSorted : (indexes : Dict String ℤ) (l : Items A) → IsSorted indexes (sort order indexes l)
  unfolding sort
  sort-IsSorted indexes [] = tt
  sort-IsSorted indexes (x ∷ l) =
      place-IsSorted indexes x (sort order indexes l) (sort-IsSorted indexes l)

  place-first :
      (indexes : Dict String ℤ) (x : String × A) (l : Items A)
      → Below indexes x l
      → place order indexes x l ≡ x ∷ l
  unfolding place
  place-first indexes x [] b = refl
  place-first indexes x (y ∷ l) b = ground (arith, b.0)

  sort_of_IsSorted :
      (indexes : Dict String ℤ) (l : Items A) → IsSorted indexes l → sort order indexes l ≡ l
  unfolding sort
  sort_of_IsSorted indexes [] h = refl
  sort_of_IsSorted indexes (x ∷ l) h =
      ap (place order indexes x) (sort_of_IsSorted indexes l h.1) ∙ place-first indexes x l h.0

  -- No member declares an order.
  abbrev pub Unordered : Items A → Type 0
  Unordered l = All (λ x. order x.1 ≡ none) l

  ordered_of_Unordered :
      (len : ℕ) (l : Items A) (indexes : Dict String ℤ)
      → Unordered l
      → ordered order len l indexes ≡ indexes
  unfolding ordered
  ordered_of_Unordered len [] indexes u = refl
  ordered_of_Unordered len ((k, v) ∷ l) indexes u = rw u.0 (ordered_of_Unordered len l indexes u.1)

  get-put_unordered :
      (k j : String) (o : Option ℤ) (indexes : Dict String ℤ)
      → (j =? k) ≡ false
      → Dict.get (put_unordered order j o indexes) k ≡ Dict.get indexes k
  get-put_unordered k j none indexes h = ground (arith, get-put indexes j k (pos (length indexes)))
  get-put_unordered k j (some i) indexes h = refl

  pub get-unordered :
      (l : Items A) (indexes : Dict String ℤ) (k : String)
      → contains (keys l) k ≡ false
      → Dict.get (unordered order l indexes) k ≡ Dict.get indexes k
  unfolding unordered
  get-unordered [] indexes k h = refl
  get-unordered ((j, v) ∷ l) indexes k h =
      get-unordered l (put_unordered order j (order v) indexes) k (ground arith)
      ∙ get-put_unordered k j (order v) indexes (ground arith)

  -- The members' indexes are `n` at least.
  abbrev From : Dict String ℤ → ℕ → Items A → Type 0
  From indexes n l = All (λ x. (i : ℕ) × (n ≤ i) × (Dict.get indexes x.0 ≡ some (pos i))) l

  abbrev pub Fresh : Items A → Dict String ℤ → Type 0
  Fresh l indexes = (k : String) → contains (keys l) k ≡ true → is_none (Dict.get indexes k) ≡ true

  Below-of_From :
      (indexes : Dict String ℤ) (x : String × A) (l : Items A) (n : ℕ)
      → Dict.get indexes x.0 ≡ some (pos n)
      → From indexes (suc n) l
      → Below indexes x l
  Below-of_From indexes x [] n h f = tt
  Below-of_From indexes x (y ∷ l) n h f =
      (ground (arith, h, f.0.2, f.0.1), Below-of_From indexes x l n h f.1)

  From-weaken :
      (indexes : Dict String ℤ) (n : ℕ) (l : Items A) → From indexes (suc n) l → From indexes n l
  From-weaken indexes n [] f = tt
  From-weaken indexes n (x ∷ l) f =
      ((f.0.0, omega (arith, f.0.1), f.0.2), From-weaken indexes n l f.1)

  pub Fresh-put :
      (l : Items A) (indexes : Dict String ℤ) (k : String) (i : ℤ)
      → Fresh l indexes
      → contains (keys l) k ≡ false
      → Fresh l (Dict.put indexes k i)
  Fresh-put l indexes k i f h =
      λ j c. ground (arith, f j c, get-put indexes k j i, string_eq.beq_iff k j)

  pub own_value :
      (indexes : Dict String ℤ) (k : String) (i : ℤ) → Dict.get (Dict.put indexes k i) k ≡ some i
  own_value indexes k i = ground (arith, get-put indexes k k i, beq_refl k)

  unordered-rise :
      (l : Items A) (indexes : Dict String ℤ)
      → Unordered l
      → Distinct (keys l)
      → Fresh l indexes
      → From (unordered order l indexes) (length indexes) l × IsSorted (unordered order l indexes) l
  unfolding unordered
  unordered-rise [] indexes u d f = (tt, tt)
  unordered-rise ((k, v) ∷ l) indexes u d f =
      let next = Dict.put indexes k (pos (length indexes)) in
      let (from, sorted) =
        unordered-rise l next u.1 d.1
          (Fresh-put l indexes k (pos (length indexes)) (λ j c. f j (ground (arith, c))) d.0) in
      let absent = f k (ground (arith, beq_refl k)) in
      let size : length next ≡ suc (length indexes) =
        ground (arith, length-put indexes k (pos (length indexes)), absent) in
      let rest = subst (λ n. From (unordered order l next) n l) size from in
      let head = get-unordered l next k d.0 ∙ own_value indexes k (pos (length indexes)) in
      let step = ap (λ o. unordered order l (put_unordered order k o indexes)) u.0 in
      subst (λ m. From m (length indexes) ((k, v) ∷ l) × IsSorted m ((k, v) ∷ l)) (sym step)
        (
          ((length indexes, omega arith, head), From-weaken _ _ l rest),
          (Below-of_From _ (k, v) l (length indexes) head rest, sorted),
        )

  -- Where no member declares an order, the members stay in the order of the class.
  pub sort-indexes_of :
      (l : Items A) → Unordered l → Distinct (keys l) → sort order (indexes_of order l) l ≡ l
  unfolding indexes_of Dict.get
  sort-indexes_of l u d =
      rw (ordered_of_Unordered (length l) l [] u)
        (sort_of_IsSorted (unordered order l []) l (unordered-rise l [] u d (λ k c. refl)).1)

  pub first_call :
      (flat : ℕ → Items A) (cache : Dict ℕ (Items A)) (cls : ℕ) (items : Option (Items A))
      (l : Items A)
      → Dict.get cache cls ≡ none
      → or_items order items (flat cls) ≡ l
      → sort_fields order flat cache cls items ≡ (
        sort order (indexes_of order l) l,
        Dict.put cache cls (sort order (indexes_of order l) l),
      )
  unfolding sort_fields
  first_call flat cache cls items l h e = rw (h, e) refl

  pub sort_fields_lem :
      (flat flat' : ℕ → Items A) (cache : Dict ℕ (Items A)) (cls : ℕ)
      (items other : Option (Items A)) (l : Items A)
      → Dict.get cache cls ≡ none
      → or_items order items (flat cls) ≡ l
      → Perm (sort_fields order flat cache cls items).0 l
        × IsSorted (indexes_of order l) (sort_fields order flat cache cls items).0
        × ((sort_fields order flat' (sort_fields order flat cache cls items).1 cls other).0
            ≡ (sort_fields order flat cache cls items).0)
  unfolding sort_fields
  sort_fields_lem flat flat' cache cls items other l h e =
      let sorted = sort order (indexes_of order l) l in
      let again : (sort_fields order flat' (Dict.put cache cls sorted) cls other).0 ≡ sorted =
        ground (arith, get-put cache cls cls sorted, beq_refl cls) in
      subst
        (λ r.
          Perm r.0 l
          × IsSorted (indexes_of order l) r.0
          × ((sort_fields order flat' r.1 cls other).0 ≡ r.0))
        (sym (first_call flat cache cls items l h e)) (sort-Perm _ l, sort-IsSorted _ l, again)
