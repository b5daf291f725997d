-- ===== src/Protocol/Fields/Placed.antt =====
-- `sort_fields` of spyne/protocol/_base.py puts each member where its declared order, or its position
-- in the class, says.
use mathlib.Core.Path.{subst}
use mathlib.Core.List.{Perm, append_assoc}
use spyne.Prelude.{
  ℕ, suc, nat_eq, ◌+◌, ◌≡◌, refl, sym, ap, ◌∙◌, String, string_eq, Option, none, some, List, [],
  ◌∷◌, ◌++◌, length, contains, Distinct, false, arith, if_elim, All,
}
use spyne.Prelude.Int.{ℤ, pos, negsuc, pos_part, neg_part, leb_ℤ, ◌≤ℤ◌}
use spyne.Prelude.Dict
use spyne.Prelude.Dict.{Dict, keys}
use spyne.Protocol.Fields.{
  or_items, from_end, put_ordered, Items, ordered, indexes_of, index_in, or_zero, place, sort,
  sort_fields,
}
use spyne.Protocol.Fields.Order.{IsSorted, Below, sort_fields_lem, first_call}
use spyne.Protocol.Fields.Places.{
  count_unordered, count_ordered, get-put_ordered, get-ordered, get-ordered_at, length-ordered,
  get-unordered_at, get-unordered_ordered, apart, Absent, first_index,
}

-- What holds at each way to split a list holds of all its elements.
all_split :
    {A : Type 0} {P : A → Type 0} (l passed rest : List A)
    → l ≡ passed ++ rest
    → ((before after : List A) (x : A) → l ≡ before ++ x ∷ after → P x)
    → All P rest
all_split l passed [] e h = tt
all_split l passed (x ∷ rest) e h = (
  h passed rest x e,
  all_split l (passed ++ x ∷ []) rest (e ∙ sym (append_assoc passed (x ∷ []) rest)) h,
)

module _ {A : Type 0} (order : A → Option ℤ) where
  -- The place of a member `x` of the class with the members `l`: its order, counted from the end of
  -- the class if it is negative, or else its number among the members without an order, after all
  -- those with one.
  pub data HasPlace (l : Items A) (x : String × A) : ℤ → Type 0 where
    counted : {n : ℕ} → order x.1 ≡ some (pos n) → HasPlace l x (pos n)
    counted_back :
        {n : ℕ} {i : ℤ}
        → order x.1 ≡ some (negsuc n)
        → pos_part i + suc n ≡ length l + neg_part i
        → HasPlace l x i
    behind :
        (before after : Items A)
        → order x.1 ≡ none
        → l ≡ before ++ x ∷ after
        → HasPlace l x (pos (count_ordered order l + count_unordered order before))

  -- Of any two members in `r`, the first has no higher place.
  abbrev pub IsPlaced : Items A → Items A → Type 0
  IsPlaced l [] = Unit
  IsPlaced l (x ∷ r) =
      All (λ y. (i j : ℤ) × HasPlace l x i × HasPlace l y j × (i ≤ℤ j)) r × IsPlaced l r

  Absent-empty : (l : Items A) → Absent order l []
  unfolding Dict.get
  Absent-empty [] = tt
  Absent-empty (y ∷ l) = (λ e. refl, Absent-empty l)

  Absent-put_ordered :
      (len : ℕ) (l : Items A) (j : String) (o : Option ℤ) (indexes : Dict String ℤ)
      → Absent order l indexes
      → contains (keys l) j ≡ false
      → Absent order l (put_ordered order len j o indexes)
  Absent-put_ordered len [] j o indexes a h = tt
  Absent-put_ordered len (y ∷ l) j o indexes a h = (
    λ e. get-put_ordered order len j y.0 o indexes (apart order [] l y j h) ∙ a.0 e,
    Absent-put_ordered len l j o indexes a.1 (ground arith),
  )

  Absent-ordered :
      (len : ℕ) (l : Items A) (indexes : Dict String ℤ)
      → Distinct (keys l)
      → Absent order l indexes
      → Absent order l (ordered order len l indexes)
  unfolding ordered
  Absent-ordered len [] indexes d a = tt
  Absent-ordered len ((k, v) ∷ l) indexes d a = (
    λ e.
        get-ordered order len l (put_ordered order len k (order v) indexes) k d.0
        ∙ ap (λ o. Dict.get (put_ordered order len k o indexes) k) e
        ∙ a.0 e,
    Absent-ordered len l (put_ordered order len k (order v) indexes) d.1
        (Absent-put_ordered len l k (order v) indexes a.1 d.0),
  )

  from_end-HasPlace :
      (l : Items A) (x : String × A) (i : ℤ)
      → order x.1 ≡ some i
      → HasPlace l x (from_end (length l) i)
  from_end-HasPlace l x (pos n) e = counted e
  from_end-HasPlace l x (negsuc n) e = counted_back e (ground arith)

  index-HasPlace :
      (before after : Items A) (x : String × A) (o : Option ℤ)
      → Distinct (keys (before ++ x ∷ after))
      → order x.1 ≡ o
      → HasPlace (before ++ x ∷ after) x (index_in order (indexes_of order (before ++ x ∷ after)) x)
  unfolding indexes_of Dict.get
  index-HasPlace before after x none d e =
      let l = before ++ x ∷ after in
      let first = ordered order (length l) l [] in
      let found =
        get-unordered_at order before after x first d
          (Absent-ordered (length l) l [] d (Absent-empty l)) e in
      let size = length-ordered order (length l) l [] d (λ k c. refl) in
      subst (λ i. HasPlace l x i)
        (sym (
          ap or_zero found
          ∙ ap (λ n. pos (n + count_unordered order before)) (omega (arith, size))))
        (behind before after e refl)
  index-HasPlace before after x (some i) d e =
      let l = before ++ x ∷ after in
      let found =
        get-unordered_ordered order before after x (ordered order (length l) l []) d e
        ∙ get-ordered_at order (length l) before after x [] d refl
        ∙ ap (first_index order (length l)) e in
      subst (λ j. HasPlace l x j) (sym (ap or_zero found)) (from_end-HasPlace l x i e)

  all-HasPlace :
      (l : Items A)
      → Distinct (keys l)
      → All (λ x. HasPlace l x (index_in order (indexes_of order l) x)) l
  all-HasPlace l d = all_split l [] l refl (λ before after x e.
      subst (λ m. HasPlace m x (index_in order (indexes_of order m) x)) (sym e)
        (index-HasPlace before after x (order x.1) (subst (λ m. Distinct (keys m)) e d) refl))

  All-place :
      (P : String × A → Type 0) (indexes : Dict String ℤ) (x : String × A) (l : Items A)
      → P x
      → All P l
      → All P (place order indexes x l)
  unfolding place
  All-place P indexes x [] p h = (p, tt)
  All-place P indexes x (y ∷ l) p h =
      if_elim (All P) (leb_ℤ (index_in order indexes x) (index_in order indexes y)) _ _
        (λ _. (p, h)) (λ _. (h.0, All-place P indexes x l p h.1))

  All-sort :
      (P : String × A → Type 0) (indexes : Dict String ℤ) (l : Items A)
      → All P l
      → All P (sort order indexes l)
  unfolding sort
  All-sort P indexes [] h = tt
  All-sort P indexes (x ∷ l) h =
      All-place P indexes x (sort order indexes l) h.0 (All-sort P indexes l h.1)

  Below-places :
      (l : Items A) (indexes : Dict String ℤ) (x : String × A) (r : Items A)
      → HasPlace l x (index_in order indexes x)
      → All (λ y. HasPlace l y (index_in order indexes y)) r
      → Below order indexes x r
      → All (λ y. (i j : ℤ) × HasPlace l x i × HasPlace l y j × (i ≤ℤ j)) r
  Below-places l indexes x [] p h b = tt
  Below-places l indexes x (y ∷ r) p h b = (
    (index_in order indexes x, index_in order indexes y, p, h.0, ground (arith, b.0)),
    Below-places l indexes x r p h.1 b.1,
  )

  IsSorted-IsPlaced :
      (l : Items A) (indexes : Dict String ℤ) (r : Items A)
      → All (λ y. HasPlace l y (index_in order indexes y)) r
      → IsSorted order indexes r
      → IsPlaced l r
  IsSorted-IsPlaced l indexes [] h s = tt
  IsSorted-IsPlaced l indexes (x ∷ r) h s =
      (Below-places l indexes x r h.0 h.1 s.0, IsSorted-IsPlaced l indexes r h.1 s.1)

  -- Where the names of the members differ, the first call for a class returns its members, each
  -- once, by their places: those with an order at that order, counted from the end if it is
  -- negative, and the others behind as many members as declare one, in the order of the class. Every
  -- later call returns what the first did, whatever members it is given.
  pub sort_fields-IsPlaced :
      (flat flat' : ℕ → Items A) (cache : Dict ℕ (Items A)) (cls : ℕ)
      (items other : Option (Items A)) (l : Items A)
      → Distinct (keys l)
      → Dict.get cache cls ≡ none
      → or_items order items (flat cls) ≡ l
      → Perm (sort_fields order flat cache cls items).0 l
        × IsPlaced l (sort_fields order flat cache cls items).0
        × ((sort_fields order flat' (sort_fields order flat cache cls items).1 cls other).0
            ≡ (sort_fields order flat cache cls items).0)
  sort_fields-IsPlaced flat flat' cache cls items other l d h e =
      let (perm, sorted, again) = sort_fields_lem order flat flat' cache cls items other l h e in
      (perm, IsSorted-IsPlaced l (indexes_of order l) _ (sorted_places) sorted, again)
    where
      sorted_places :
          All
            (λ y. HasPlace l y (index_in order (indexes_of order l) y))
            (sort_fields order flat cache cls items).0
      sorted_places =
          subst (λ r. All (λ y. HasPlace l y (index_in order (indexes_of order l) y)) r.0)
            (sym (first_call order flat cache cls items l h e))
            (All-sort _ (indexes_of order l) l (all-HasPlace l d))
