-- ===== src/Prelude/Exec.antt =====
-- Methods that mutate an object and may raise. What was written before a raise stays written, so
-- the state comes back beside the exception too.

use mathlib.Core.Path.{◌≡◌, refl, ap}
use mathlib.Core.Bool.{Bool, true, false}

pub data Result {ℓ κ} (E : Type ℓ) (A : Type κ) : Type (ℓ ⊔ κ) where
  ok : A → Result E A
  err : E → Result E A

abbrev pub is_ok {ℓ κ} : {E : Type ℓ} {A : Type κ} → Result E A → Bool
is_ok (ok _) = true
is_ok (err _) = false

module _ {E A B : Type 0} where
  abbrev pub with_ok : Result E A → (A → Result E B) → Result E B
  with_ok (err e) f = err e
  with_ok (ok a) f = f a

module _ {E F A : Type 0} where
  abbrev pub map_err : (E → F) → Result E A → Result F A
  map_err f (err e) = err (f e)
  map_err f (ok a) = ok a

pub ok_injective : {E A : Type 0} (a b : A) → ◌≡◌ {A = Result E A} (ok a) (ok b) → a ≡ b
ok_injective a b h = cc h

pub with_ok_cases :
    {E A B : Type 0} (r : Result E A) (f : A → Result E B) (b : B)
    → with_ok r f ≡ ok b
    → (a : A) × (r ≡ ok a) × (f a ≡ ok b)
with_ok_cases (err e) f b h = absurd (cc h)
with_ok_cases (ok a) f b h = (a, refl, h)

pub map_err_cases :
    {E F A : Type 0} (f : E → F) (r : Result E A) (a : A) → map_err f r ≡ ok a → r ≡ ok a
map_err_cases f (err e) a h = absurd (cc h)
map_err_cases f (ok b) a h = ap ok (ok_injective b a h)

abbrev pub Exec : Type 0 → Type 0 → Type 0 → Type 0
Exec S E A = S → Result E A × S

module _ {S E A : Type 0} where
  abbrev pub pure : A → Exec S E A
  pure a s = (ok a, s)

  abbrev pub raise : E → Exec S E A
  raise e s = (err e, s)

  abbrev pub lift : Result E A → Exec S E A
  lift r s = (r, s)

  abbrev pub gets : (S → A) → Exec S E A
  gets f s = (ok (f s), s)

  abbrev pub catch_result : Result E A → (E → Exec S E A) → Exec S E A
  catch_result (ok a) h s = (ok a, s)
  catch_result (err e) h s = h e s

  -- `try: m` with the handlers of all its `except` clauses in `h`, which raises again what no
  -- clause catches.
  abbrev pub try_except : Exec S E A → (E → Exec S E A) → Exec S E A
  try_except m h s = catch_result (m s).0 h (m s).1

abbrev pub modify : {S E : Type 0} → (S → S) → Exec S E (Unit {0})
modify f s = (ok tt, f s)

module _ {S E A B : Type 0} where
  abbrev pub continue : Result E A → (A → Exec S E B) → Exec S E B
  continue (ok a) f s = f a s
  continue (err e) f s = (err e, s)

  infixl 10 ◌>>=◌ ◌>>◌
  abbrev pub ◌>>=◌ : Exec S E A → (A → Exec S E B) → Exec S E B
  ◌>>=◌ m f s = continue (m s).0 f (m s).1

  abbrev pub ◌>>◌ : Exec S E A → Exec S E B → Exec S E B
  m >> n = m >>= λ _. n
