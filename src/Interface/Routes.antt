-- ===== src/Interface/Routes.antt =====
-- spyne/interface/_base.py: `process_method` and the part of `populate_interface` that fills the
-- tables of methods, with `gen_interface_key` of spyne/descriptor.py. Methods that come after one
-- that raised are not reached.
pub mod Complete
use Prim.Native.String.{◌++◌ as ◌+s+◌}
use text.Mathlib.Text.{◌==◌ as str_eq}
use spyne.Prelude.{
  ℕ, nat_eq, String, string_eq, Bool, true, false, not, ◌&&◌, Option, none, some, is_none, List, [],
  ◌∷◌, ◌++◌, map, ◌=?◌, if◌then◌else◌,
}
use spyne.Prelude.Dict
use spyne.Prelude.Dict.{Dict}
use spyne.Prelude.Exec.{Exec, pure, raise, gets, modify, ◌>>=◌, ◌>>◌}

-- A service class or a class of objects. `orig` is `__orig__`, the class that it customises, and
-- `owner_name` what `get_owner_name` returns.
pub record Class : Type 0 where
  pub id : ℕ
  pub orig : Option ℕ
  pub is_service : Bool
  pub is_complex : Bool
  pub module_name : String
  pub owner_name : String
  pub namespace : Option String
  pub type_name : String

-- The parts of a `MethodDescriptor` that routing reads. `aux` is its auxiliary processor.
pub record Method : Type 0 where
  pub id : ℕ
  pub name : String
  pub aux : Option ℕ
  pub parent_class : Option Class

-- `Interface.method_id_map` and `Interface.service_method_map`
pub record Routes : Type 0 where
  pub method_id_map : Dict String Method
  pub service_method_map : Dict String (List Method)

pub data RouteError : Type 0 where
  assertion_error value_error type_error : RouteError

abbrev pub Routing : Type 0
Routing = Exec Routes RouteError (Unit {0})

abbrev or_none : Option String → String
or_none none = "__none__"
or_none (some ns) = if str_eq ns "" then "__none__" else ns

-- `first` stands for `lambda s: s.split('.', 1)[0]`.
module _ (first : String → String) where
  unfoldable pub gen_interface_key : Class → Method → String
  gen_interface_key cls m =
      if cls.is_service
      then cls.module_name +s+ ("." +s+ (cls.owner_name +s+ ("." +s+ m.name)))
      else if str_eq (first m.name) cls.type_name
      then or_none cls.namespace +s+ ("." +s+ m.name)
      else or_none cls.namespace +s+ ("." +s+ (cls.type_name +s+ ("." +s+ m.name)))

  -- the key that requests name the method by
  unfoldable pub method_key : String → Class → Method → String
  method_key tns s m =
      if s.is_complex && not (str_eq s.type_name (first m.name))
      then "{" +s+ (tns +s+ ("}" +s+ (s.type_name +s+ ("." +s+ m.name))))
      else "{" +s+ (tns +s+ ("}" +s+ m.name))

abbrev is_id : Option ℕ → ℕ → Bool
is_id none i = false
is_id (some j) i = j =? i

abbrev same_orig : Option ℕ → Option ℕ → Bool
same_orig none none = true
same_orig none (some j) = false
same_orig (some i) none = false
same_orig (some i) (some j) = i =? j

-- Whether the class of a method that is there already may stand for `s`.
unfoldable pub compatible : Class → Option Class → Bool
compatible s none = true
compatible s (some c) =
    if c.id =? s.id
    then true
    else if is_none c.orig
    then is_id s.orig c.id
    else if is_none s.orig
    then is_id c.orig s.id
    else same_orig c.orig s.orig

-- What becomes of the list of methods for a name. `val.insert(method, 0)` has its arguments in the
-- wrong order, and raises TypeError on every call.
unfoldable pub add_route : List Method → Method → Exec (List Method) RouteError (Unit {0})
add_route [] m = modify λ _. m ∷ []
add_route (v ∷ val) m =
    if not (is_none m.aux)
    then (modify λ _. (v ∷ val) ++ m ∷ [])
    else if not (is_none v.aux)
    then raise type_error
    else raise value_error

abbrev pub or_empty : Option (List Method) → List Method
or_empty none = []
or_empty (some l) = l

-- an action on the list of methods for a name, which is there from then on
abbrev pub on_route : String → (List Method → Exec (List Method) RouteError (Unit {0})) → Routing
on_route key f r =
    let val = or_empty (Dict.get r.service_method_map key) in
    (
      (f val val).0,
      record r { service_method_map = Dict.put r.service_method_map key (f val val).1 },
    )

module _ (first : String → String) (tns : String) where
  -- the part for a method that is not known yet
  unfoldable pub register : String → String → Method → Routing
  unfolding add_route
  register key name m = do
    modify (λ r. record r { method_id_map = Dict.put r.method_id_map key m })
    on_route name (λ val. add_route val m)

  abbrev pub known_or_register : Class → Method → String → Option Method → Routing
  known_or_register s m key (some other) =
      if compatible s other.parent_class then pure tt else raise assertion_error
  known_or_register s m key none = register key (method_key first tns s m) m

  unfoldable pub process_method : Class → Method → Routing
  unfolding register compatible
  process_method s m = do
    known ← gets (λ r. Dict.get r.method_id_map (gen_interface_key first s m))
    known_or_register s m (gen_interface_key first s m) known

  unfoldable pub process_methods : List (Class × Method) → Routing
  process_methods [] = pure tt
  process_methods ((s, m) ∷ methods) = do process_method s m; process_methods methods

  -- the methods of the services, each with its class
  unfoldable pub public_methods : List (Class × List Method) → List (Class × Method)
  public_methods [] = []
  public_methods ((s, methods) ∷ services) = map (λ m. (s, m)) methods ++ public_methods services

  -- `cls.__orig__ or cls`
  abbrev origin : (ℕ → Class) → Class → Option ℕ → Class
  origin classes cls none = cls
  origin classes cls (some o) = classes o

  -- the member methods that `static_when` lets through
  unfoldable pub static_methods :
      (ℕ → Class) → (Method → Bool) → List (Class × Method) → List (Class × Method)
  static_methods classes static_when [] = []
  static_methods classes static_when ((cls, m) ∷ methods) =
      let rest = static_methods classes static_when methods in
      if static_when m then (origin classes cls cls.orig, m) ∷ rest else rest

  -- the two loops of `populate_interface` over the call routes
  unfoldable pub populate_routes :
      (ℕ → Class) → (Method → Bool) → List (Class × List Method) → List (Class × Method) → Routing
  unfolding process_methods public_methods static_methods
  populate_routes classes static_when services member_methods = do
    process_methods (public_methods services)
    process_methods (static_methods classes static_when member_methods)
