-- ===== src/Util/Cdict.antt =====
-- spyne/util/cdict.py: `cdict`, a dictionary of classes whose lookup goes through the base classes
-- and keeps what it finds. Classes are numbered, and `bases` gives `__bases__`.
pub mod Inherited
use spyne.Prelude.{ℕ, zero, suc, nat_eq, Option, none, some, List, [], ◌∷◌, ◌++◌}
use spyne.Prelude.Dict
use spyne.Prelude.Dict.{Dict}
use spyne.Prelude.Exec.{Exec, pure, raise, gets, modify, try_except, ◌>>=◌, ◌>>◌}

-- A key: a class, or an instance of one, which has no `__bases__` of its own.
pub data Key : Type 0 where
  class_key instance_key : ℕ → Key

pub data LookupError : Type 0 where
  key_error out_of_fuel : LookupError

abbrev pub reversed : List ℕ → List ℕ
reversed [] = []
reversed (b ∷ bs) = reversed bs ++ b ∷ []

-- code that reads and changes the dictionary and may raise
abbrev pub Lookup : Type 0 → Type 0 → Type 0
Lookup V A = Exec (Dict ℕ V) LookupError A

module _ {V : Type 0} where
  abbrev pub on_key_error : LookupError → Lookup V (Option V)
  on_key_error key_error = pure none
  on_key_error out_of_fuel = raise out_of_fuel

  -- `try: retval = self[b]`, which is None where KeyError is caught
  abbrev pub attempt : Lookup V V → Lookup V (Option V)
  attempt m = try_except (do v ← m; pure (some v)) on_key_error

  -- `self[cls] = retval; return retval`, or the rest of the loop
  abbrev pub keep_or : ℕ → Option V → Lookup V V → Lookup V V
  keep_or c none rest = rest
  keep_or c (some v) rest = do modify (λ d. Dict.put d c v); pure v

  abbrev pub own_or : Option V → Lookup V V → Lookup V V
  own_or none rest = rest
  own_or (some v) rest = pure v

  abbrev on_missing : V → LookupError → Lookup V V
  on_missing default key_error = pure default
  on_missing default out_of_fuel = raise out_of_fuel

  -- the loop over the reversed bases
  unfoldable pub try_bases : (ℕ → Lookup V V) → ℕ → List ℕ → Lookup V V
  try_bases look c [] = raise key_error
  try_bases look c (b ∷ bs) = do r ← attempt (look b); keep_or c r (try_bases look c bs)

module _ {V : Type 0} (bases : ℕ → List ℕ) where
  -- `__getitem__` with a class
  unfoldable pub getitem_class : ℕ → ℕ → Lookup V V
  unfolding try_bases
  getitem_class zero c = raise out_of_fuel
  getitem_class (suc fuel) c = do
    own ← gets (λ d. Dict.get d c)
    own_or own (try_bases (getitem_class fuel) c (reversed (bases c)))

  -- `__getitem__`; an instance is no key of the dictionary
  unfoldable pub getitem : ℕ → Key → Lookup V V
  unfolding getitem_class
  getitem fuel (class_key c) = getitem_class fuel c
  getitem fuel (instance_key c) = try_bases (getitem_class fuel) c (reversed (bases c))

  unfoldable pub get : ℕ → Key → V → Lookup V V
  unfolding getitem
  get fuel k default = try_except (getitem fuel k) (on_missing default)
