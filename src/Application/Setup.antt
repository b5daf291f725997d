-- ===== src/Application/Setup.antt =====
-- `check_unique_method_keys` and `reinitialize` of spyne/application.py, which run before the first
-- request. Methods are given by the parts that they read.
pub mod Once
use spyne.Prelude.{
  ℕ, nat_eq, String, string_eq, ◌≡◌, ◌↔◌, refl, sym, ap, ◌∙◌, arith, Bool, true, false, ◌||◌, not,
  ◌&&◌, Option, none, some, is_none, List, [], ◌∷◌, ◌++◌, map, contains, Distinct, ◌=?◌,
  if◌then◌else◌, Option-cases, Bool-cases, if_elim, inl, inr, eq_of_beq, beq_refl,
}
use spyne.Prelude.Dict
use spyne.Prelude.Dict.{Dict, get-put}
use spyne.Prelude.Exec.{Exec, Result, ok, err, pure, continue, ◌>>=◌, ◌>>◌}

-- `internal_key`, and the objects of `aux` and `service_class`
pub record Descriptor : Type 0 where
  pub id : ℕ
  pub internal_key : String
  pub aux : Option ℕ
  pub service_class : Option ℕ

-- MethodAlreadyExistsError, with the key
pub data SetupError : Type 0 where
  method_already_exists : String → SetupError

abbrev pub Keys : Type 0
Keys = Dict String ℕ

-- one round of the loop, with the rest of the loop
abbrev pub check_key :
    Descriptor → Option ℕ → Result SetupError (Unit {0}) → Result SetupError (Unit {0})
check_key mdesc none rest = rest
check_key mdesc (some other) rest = err (method_already_exists mdesc.internal_key)

-- the loop over the methods of a service, and what comes after it
unfoldable pub check_methods :
    List Descriptor → (Keys → Result SetupError (Unit {0})) → Keys → Result SetupError (Unit {0})
check_methods [] rest keys = rest keys
check_methods (mdesc ∷ methods) rest keys =
    check_key mdesc (Dict.get keys mdesc.internal_key)
      (check_methods methods rest (Dict.put keys mdesc.internal_key mdesc.id))

-- the loop over the services, given by their public methods
unfoldable pub check_services : List (List Descriptor) → Keys → Result SetupError (Unit {0})
unfolding check_methods
check_services [] keys = ok tt
check_services (s ∷ services) keys = check_methods s (check_services services) keys

unfoldable pub check_unique_method_keys : List (List Descriptor) → Result SetupError (Unit {0})
unfolding check_services
check_unique_method_keys services = check_services services []

module _ {S E : Type 0} (initialize : ℕ → Exec S E (Unit {0})) where
  -- `if x is not None and not id(x) in seen`: the objects that are seen by then
  unfoldable pub initialize_once : List ℕ → Option ℕ → Exec S E (List ℕ)
  initialize_once seen none = pure seen
  initialize_once seen (some x) =
      if contains seen x then pure seen else (do initialize x; pure (x ∷ seen))

  unfoldable pub initialize_all : List Descriptor → List ℕ → Exec S E (Unit {0})
  unfolding initialize_once
  initialize_all [] seen = pure tt
  initialize_all (d ∷ methods) seen = do
    seen' ← initialize_once seen d.aux
    seen'' ← initialize_once seen' d.service_class
    initialize_all methods seen''

  -- `reinitialize`, on the values of `method_id_map`
  unfoldable pub reinitialize : List Descriptor → Exec S E (Unit {0})
  unfolding initialize_all
  reinitialize methods = initialize_all methods []

  -- `initialize` for one object after the other
  abbrev pub each : List ℕ → Exec S E (Unit {0})
  each [] = pure tt
  each (x ∷ l) = do initialize x; each l

-- the keys of all methods
abbrev pub keys_of : List Descriptor → List String
keys_of [] = []
keys_of (d ∷ methods) = d.internal_key ∷ keys_of methods

abbrev pub all_keys : List (List Descriptor) → List String
all_keys [] = []
all_keys (s ∷ services) = keys_of s ++ all_keys services
