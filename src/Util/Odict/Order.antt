-- ===== src/Util/Odict/Order.antt =====
-- Lists of distinct keys under `index`, `del` and `insert`.
use spyne.Prelude.{
  ℕ, suc, zero, ◌≡◌, refl, ap, ◌∙◌, Bool, true, false, not, ◌||◌, some, is_none, List, [], ◌∷◌,
  ◌++◌, length, contains, Distinct, Eq, ◌=?◌, if◌then◌else◌, arith,
}
use spyne.Util.Odict.{delete_at, insert_at, index_of}

module _ {K : Type 0} ⦃e : Eq K⦄ where
  pub index_of-contains : (l : List K) (k : K) → contains l k ≡ not (is_none (index_of l k))
  unfolding index_of
  index_of-contains [] k = refl
  index_of-contains (x ∷ l) k = ground (arith, index_of-contains l k)

  pub length-insert_at : (l : List K) (i : ℕ) (k : K) → length (insert_at l i k) ≡ suc (length l)
  unfolding insert_at
  length-insert_at l zero k = refl
  length-insert_at [] (suc i) k = refl
  length-insert_at (x ∷ l) (suc i) k = ap suc (length-insert_at l i k)

  pub contains-insert_at :
      (l : List K) (i : ℕ) (k j : K) → contains (insert_at l i k) j ≡ ((k =? j) || contains l j)
  unfolding insert_at
  contains-insert_at l zero k j = refl
  contains-insert_at [] (suc i) k j = refl
  contains-insert_at (x ∷ l) (suc i) k j = ground (arith, contains-insert_at l i k j)

  pub Distinct-insert_at :
      (l : List K) (i : ℕ) (k : K) → Distinct l → contains l k ≡ false → Distinct (insert_at l i k)
  unfolding insert_at
  Distinct-insert_at l zero k d h = (h, d)
  Distinct-insert_at [] (suc i) k d h = (refl, tt)
  Distinct-insert_at (x ∷ l) (suc i) k d h = (
    ground (arith, d.0, contains-insert_at l i k x, e.beq_iff k x, e.beq_iff x k),
    Distinct-insert_at l i k d.1 (ground arith),
  )

  pub append-insert_at : (l : List K) (k : K) → l ++ k ∷ [] ≡ insert_at l (length l) k
  unfolding insert_at
  append-insert_at [] k = refl
  append-insert_at (x ∷ l) k = ap (λ r. x ∷ r) (append-insert_at l k)

  -- What `del l[l.index(k)]` leaves.
  abbrev delete_first : List K → K → List K
  delete_first [] k = []
  delete_first (x ∷ l) k = let rest = delete_first l k in if x =? k then l else x ∷ rest

  delete_at-index_of :
      (l : List K) (k : K) (i : ℕ) → index_of l k ≡ some i → delete_at l i ≡ delete_first l k
  unfolding index_of delete_at
  delete_at-index_of [] k i h = cc
  delete_at-index_of (x ∷ l) k zero h = ground arith
  delete_at-index_of (x ∷ l) k (suc i) h = ground (arith, delete_at-index_of l k i)

  contains-delete_first :
      (l : List K) (k j : K)
      → Distinct l
      → contains (delete_first l k) j ≡ (if k =? j then false else contains l j)
  contains-delete_first [] k j d = ground arith
  contains-delete_first (x ∷ l) k j d =
      ground
        (arith, d.0, contains-delete_first l k j d.1, e.beq_iff k j, e.beq_iff x j, e.beq_iff x k)

  Distinct-if : (b : Bool) (l r : List K) → Distinct l → Distinct r → Distinct (if b then l else r)
  Distinct-if true l r dl dr = dl
  Distinct-if false l r dl dr = dr

  Distinct-delete_first : (l : List K) (k : K) → Distinct l → Distinct (delete_first l k)
  Distinct-delete_first [] k d = d
  Distinct-delete_first (x ∷ l) k d =
      Distinct-if (x =? k) l _ d.1
        (ground (arith, d.0, contains-delete_first l k x d.1), Distinct-delete_first l k d.1)

  pub length-delete_at :
      (l : List K) (k : K) (i : ℕ) → index_of l k ≡ some i → suc (length (delete_at l i)) ≡ length l
  unfolding index_of delete_at
  length-delete_at [] k i h = cc
  length-delete_at (x ∷ l) k zero h = refl
  length-delete_at (x ∷ l) k (suc i) h = ground (arith, length-delete_at l k i)

  pub contains-delete_at :
      (l : List K) (k j : K) (i : ℕ)
      → Distinct l
      → index_of l k ≡ some i
      → contains (delete_at l i) j ≡ (if k =? j then false else contains l j)
  contains-delete_at l k j i d h =
      ap (λ r. contains r j) (delete_at-index_of l k i h) ∙ contains-delete_first l k j d

  pub Distinct-delete_at :
      (l : List K) (k : K) (i : ℕ) → Distinct l → index_of l k ≡ some i → Distinct (delete_at l i)
  Distinct-delete_at l k i d h = rw (delete_at-index_of l k i h) (Distinct-delete_first l k d)
