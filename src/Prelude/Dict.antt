-- ===== src/Prelude/Dict.antt =====
-- Python's `dict` as an association list in the order of insertion: a key stands in it once if it
-- is only built by `put`.
use mathlib.Core.Path.{◌≡◌, refl}
use mathlib.Core.Bool.{Bool, true, false, not}
use Prim.Native.Nat.{suc}
use spyne.Prelude.Lists.{length, contains, Distinct}
use mathlib.Core.Option.{Option, none, some}
use mathlib.Core.List.{List, [], ◌∷◌}
use native.Mathlib.Omega.{arith}
use spyne.Prelude.Tests.{Eq, ◌=?◌, if◌then◌else◌, is_none, eq_of_beq}

abbrev pub Dict : Type 0 → Type 0 → Type 0
Dict K V = List (K × V)

module _ {K V : Type 0} ⦃e : Eq K⦄ where
  unfoldable pub get : Dict K V → K → Option V
  get [] k = none
  get ((j, v) ∷ d) k = if j =? k then some v else get d k

  unfoldable pub put : Dict K V → K → V → Dict K V
  put [] k v = (k, v) ∷ []
  put ((j, w) ∷ d) k v = if j =? k then (j, v) ∷ d else (j, w) ∷ put d k v

  unfoldable pub remove : Dict K V → K → Dict K V
  remove [] k = []
  remove ((j, w) ∷ d) k = if j =? k then remove d k else (j, w) ∷ remove d k

  pub get-put :
      (d : Dict K V) (k j : K) (v : V) → get (put d k v) j ≡ (if k =? j then some v else get d j)
  unfolding get put
  get-put [] k j v = ground arith
  get-put ((i, w) ∷ d) k j v =
      ground (arith, e.beq_iff k j, e.beq_iff i k, e.beq_iff i j, get-put d k j v)

  pub get-remove :
      (d : Dict K V) (k j : K) → get (remove d k) j ≡ (if k =? j then none else get d j)
  unfolding get remove
  get-remove [] k j = ground arith
  get-remove ((i, w) ∷ d) k j =
      ground (arith, e.beq_iff k j, e.beq_iff i k, e.beq_iff i j, get-remove d k j)

pub ruleset dict_laws = (get-put, get-remove)

module _ {K V : Type 0} ⦃e : Eq K⦄ where
  -- the keys, in the order of insertion
  abbrev pub keys : Dict K V → List K
  keys [] = []
  keys ((k, v) ∷ d) = k ∷ keys d

  pub contains-keys : (d : Dict K V) (k : K) → contains (keys d) k ≡ not (is_none (get d k))
  unfolding get
  contains-keys [] k = refl
  contains-keys ((j, w) ∷ d) k = ground (arith, contains-keys d k)

  pub length-put :
      (d : Dict K V) (k : K) (v : V)
      → length (put d k v) ≡ (if not (is_none (get d k)) then length d else suc (length d))
  unfolding get put
  length-put [] k v = refl
  length-put ((j, w) ∷ d) k v = ground (arith, length-put d k v)

  remove-absent : (d : Dict K V) (k : K) → contains (keys d) k ≡ false → remove d k ≡ d
  unfolding remove
  remove-absent [] k h = refl
  remove-absent ((j, w) ∷ d) k h = ground (arith, remove-absent d k)

  pub length-remove :
      (d : Dict K V) (k : K)
      → Distinct (keys d)
      → contains (keys d) k ≡ true
      → suc (length (remove d k)) ≡ length d
  unfolding remove
  length-remove [] k u h = cc
  length-remove ((j, w) ∷ d) k u h =
      ground (arith, u.0, length-remove d k u.1, remove-absent d k, eq_of_beq j k)

  Distinct-if :
      (b : Bool) (x y : Dict K V)
      → (b ≡ true → Distinct (keys x))
      → (b ≡ false → Distinct (keys y))
      → Distinct (keys (if b then x else y))
  Distinct-if true x y hx hy = hx refl
  Distinct-if false x y hx hy = hy refl

  absent-put :
      (d : Dict K V) (k j : K) (v : V)
      → (j =? k) ≡ false
      → contains (keys d) j ≡ false
      → contains (keys (put d k v)) j ≡ false
  absent-put d k j v ne h = ground (
    arith,
    contains-keys (put d k v) j,
    contains-keys d j,
    get-put d k j v,
    e.beq_iff k j,
    e.beq_iff j k,
  )

  absent-remove :
      (d : Dict K V) (k j : K)
      → contains (keys d) j ≡ false
      → contains (keys (remove d k)) j ≡ false
  absent-remove d k j h =
      ground (arith, contains-keys (remove d k) j, contains-keys d j, get-remove d k j)

  pub Distinct-put :
      (d : Dict K V) (k : K) (v : V) → Distinct (keys d) → Distinct (keys (put d k v))
  unfolding put
  Distinct-put [] k v u = (refl, tt)
  Distinct-put ((j, w) ∷ d) k v u =
      Distinct-if (j =? k) ((j, v) ∷ d) _ (λ _. u)
        (λ ne. (absent-put d k j v ne u.0, Distinct-put d k v u.1))

  pub Distinct-remove : (d : Dict K V) (k : K) → Distinct (keys d) → Distinct (keys (remove d k))
  unfolding remove
  Distinct-remove [] k u = u
  Distinct-remove ((j, w) ∷ d) k u =
      Distinct-if (j =? k) _ _ (λ _. Distinct-remove d k u.1)
        (λ _. (absent-remove d k j u.0, Distinct-remove d k u.1))
