-- ===== src/Protocol/Sparse/Ranks.antt =====
-- Lists that are sorted by index: what the slots of spyne/protocol/dictdoc/simple.py stand for.
use spyne.Prelude.{
  ℕ, zero, suc, nat_eq, ◌≡◌, ◌<◌, refl, arith, tests, ltb, leb, ◌==◌, Option, none, some, List, [],
  ◌∷◌, if_elim, if◌then◌else◌, All, Option-cases, inl, inr, ==_iff,
}
use spyne.Util.Odict.{insert_at}

abbrev pub step : Option ℕ → Option ℕ
step none = none
step (some n) = some (suc n)

module _ {A : Type 0} where
  -- The indexes rise.
  abbrev pub IsSorted : List (ℕ × A) → Type 0
  IsSorted [] = Unit
  IsSorted ((i, x) ∷ es) = All (λ e. i < e.0) es × IsSorted es

  -- The place of an index.
  unfoldable pub rank : List (ℕ × A) → ℕ → Option ℕ
  rank [] n = none
  rank ((i, x) ∷ es) n = if i == n then some 0 else step (rank es n)

  -- How many indexes are below `n`, in a list that is sorted.
  unfoldable pub below : List (ℕ × A) → ℕ → ℕ
  below [] n = 0
  below ((i, x) ∷ es) n = if ltb i n then suc (below es n) else 0

  unfoldable pub insert_sorted : List (ℕ × A) → ℕ → A → List (ℕ × A)
  insert_sorted [] n y = (n, y) ∷ []
  insert_sorted ((i, x) ∷ es) n y =
      let rest = insert_sorted es n y in if ltb i n then (i, x) ∷ rest else (n, y) ∷ (i, x) ∷ es

  abbrev pub values : List (ℕ × A) → List A
  values [] = []
  values ((i, x) ∷ es) = x ∷ values es

  pub values-insert_sorted :
      (es : List (ℕ × A)) (n : ℕ) (y : A)
      → values (insert_sorted es n y) ≡ insert_at (values es) (below es n) y
  unfolding insert_sorted below insert_at
  values-insert_sorted [] n y = refl
  values-insert_sorted ((i, x) ∷ es) n y = ground (arith, values-insert_sorted es n y)

  All-insert_sorted :
      (es : List (ℕ × A)) (k n : ℕ) (y : A)
      → k < n
      → All (λ e. k < e.0) es
      → All (λ e. k < e.0) (insert_sorted es n y)
  unfolding insert_sorted
  All-insert_sorted [] k n y h a = (h, tt)
  All-insert_sorted ((i, x) ∷ es) k n y h a =
      if_elim (All (λ e. k < e.0)) (ltb i n) _ _ (λ _. (a.0, All-insert_sorted es k n y h a.1))
        (λ _. (h, a))

  above : (es : List (ℕ × A)) (i n : ℕ) → n < i → All (λ e. i < e.0) es → All (λ e. n < e.0) es
  above [] i n h a = tt
  above ((j, x) ∷ es) i n h a = (omega (arith, a.0), above es i n h a.1)

  pub insert_sorted-IsSorted :
      (es : List (ℕ × A)) (n : ℕ) (y : A)
      → IsSorted es
      → rank es n ≡ none
      → IsSorted (insert_sorted es n y)
  unfolding insert_sorted rank
  insert_sorted-IsSorted [] n y s h = (tt, tt)
  insert_sorted-IsSorted ((i, x) ∷ es) n y s h =
      if_elim IsSorted (ltb i n) _ _
        (λ lt. (
          All-insert_sorted es i n y (omega (tests, lt)) s.0,
          insert_sorted-IsSorted es n y s.1 (ground arith),
        ))
        (λ ge. let n<i : n < i = ground (arith, ==_iff i n) in ((n<i, above es i n n<i s.0), s))

  rank_above : (es : List (ℕ × A)) (n : ℕ) → All (λ e. n < e.0) es → rank es n ≡ none
  unfolding rank
  rank_above [] n a = refl
  rank_above ((i, x) ∷ es) n a = ground (arith, a.0, rank_above es n a.1)

  rank_before : (es : List (ℕ × A)) (i j : ℕ) → All (λ e. i < e.0) es → j < i → rank es j ≡ none
  rank_before es i j a h = rank_above es j (above es i j h a)

  rank_after : (es : List (ℕ × A)) (j i v : ℕ) → All (λ e. j < e.0) es → rank es i ≡ some v → j < i
  unfolding rank
  rank_after [] j i v a h = cc
  rank_after ((k, x) ∷ es) j i v a h = elim (Option-cases (rank es i)) [
    | inl absent ↦ ground (arith, a.0, absent, ==_iff k i)
    | inr (w, found) ↦ rank_after es j i w a.1 found
  ]

  -- Where the indexes are once one more is inserted.
  pub rank-insert_sorted :
      (es : List (ℕ × A)) (n j : ℕ) (y : A)
      → IsSorted es
      → rank es n ≡ none
      → rank (insert_sorted es n y) j
        ≡ (if n == j then some (below es n) else if leb n j then step (rank es j) else rank es j)
  unfolding insert_sorted rank below
  rank-insert_sorted [] n j y s h = ground arith
  rank-insert_sorted ((i, x) ∷ es) n j y s h =
      ground (arith, s.0, h, rank-insert_sorted es n j y s.1, rank_before es i j s.0, ==_iff i n)

  pub rank-lt-below :
      (es : List (ℕ × A)) (n i v : ℕ) → IsSorted es → rank es i ≡ some v → i < n → v < below es n
  unfolding rank below
  rank-lt-below [] n i v s h lt = cc
  rank-lt-below ((j, x) ∷ es) n i v s h lt = elim (Option-cases (rank es i)) [
    | inl absent ↦ ground (arith, ==_iff j i)
    | inr (w, found) ↦
        ground (arith, found, rank-lt-below es n i w s.1 found lt, rank_after es j i w s.0 found)
  ]

  -- The last index below `n`.
  pub last_below :
      (es : List (ℕ × A)) (n k : ℕ)
      → IsSorted es
      → below es n ≡ suc k
      → (i : ℕ) × (i < n) × (rank es i ≡ some k)
  unfolding rank below
  last_below [] n k s h = absurd (omega arith)
  last_below ((j, x) ∷ es) n zero s h = (j, ground arith, ground (arith, ==_iff j j))
  last_below ((j, x) ∷ es) n (suc k) s h =
      let (i, lt, found) = last_below es n k s.1 (ground arith) in
      (i, lt, ground (arith, found, rank_after es j i k s.0 found, ==_iff j i))
