-- ===== src/Fault.antt =====
-- spyne/model/fault.py and spyne/error.py: the exceptions that the program raises on purpose, their
-- fault codes, and the HTTP status that spyne/protocol/_outbase.py and soap11.py give them.
pub mod Http
pub mod Status
use text.Mathlib.Text.{◌==◌ as str_eq, starts_with}
use spyne.Prelude.{
  ℕ, String, Bool, true, false, not, ◌||◌, Option, none, some, List, [], ◌∷◌, ◌++◌, ◌==◌,
  if◌then◌else◌,
}

-- The classes of error.py, with `Fault` itself.
pub data Builtin : Type 0 where
  fault invalid_credentials request_too_long request_not_allowed argument : Builtin
  invalid_input missing_field validation internal : Builtin
  resource_not_found respawn resource_already_exists redirect : Builtin

abbrev pub index : Builtin → ℕ
index fault = 0
index invalid_credentials = 1
index request_too_long = 2
index request_not_allowed = 3
index argument = 4
index invalid_input = 5
index missing_field = 6
index validation = 7
index internal = 8
index resource_not_found = 9
index respawn = 10
index resource_already_exists = 11
index redirect = 12

-- The base class that the `class` statement of each names.
abbrev pub base : Builtin → Option Builtin
base fault = none
base missing_field = some invalid_input
base respawn = some resource_not_found
base _ = some fault

-- A class of the user's derives from one of these, in any number of steps.
pub data FaultClass : Type 0 where
  builtin : Builtin → FaultClass
  derived : FaultClass → FaultClass

abbrev pub below : Option Builtin → Builtin → Bool
below none c = false
below (some b) c = index b == index c || index fault == index c

-- `issubclass` for the built-in classes: a chain of at most two bases above each.
unfoldable pub is_subclass : FaultClass → Builtin → Bool
is_subclass (builtin b) c = index b == index c || below (base b) c
is_subclass (derived d) c = is_subclass d c

pub record Fault : Type 0 where
  pub cls : FaultClass
  pub faultcode : String
  pub faultstring : String
  pub faultactor : Option String
  pub detail : Option String

-- `Fault.__init__`, where `type_name` is what `get_type_name` returns.
unfoldable pub new_fault : FaultClass → String → String → String → Option String → Fault
new_fault cls type_name faultcode faultstring detail = record {
  cls = cls;
  faultcode = faultcode;
  faultstring = if str_eq faultstring "" then type_name else faultstring;
  faultactor = some "";
  detail = detail;
}

-- The code that the `__init__` of each class of error.py passes on; `Fault` takes it from its
-- caller, and its default is 'Server'.
unfoldable pub class_code : Builtin → String
class_code fault = "Server"
class_code invalid_credentials = "Client.InvalidCredentialsError"
class_code request_too_long = "Client.RequestTooLong"
class_code request_not_allowed = "Client.RequestNotAllowed"
class_code argument = "Client.ArgumentError"
class_code invalid_input = "Client.InvalidInput"
class_code missing_field = "Client.InvalidInput"
class_code validation = "Client.ValidationError"
class_code internal = "Server"
class_code resource_not_found = "Client.ResourceNotFound"
class_code respawn = "Client.ResourceNotFound"
class_code resource_already_exists = "Client.ResourceAlreadyExists"
class_code redirect = "Client.Redirect"

-- What a `raise` statement can carry. `system` is a BaseException that is no Exception.
pub data Exn : Type 0 where
  fault_exn : Fault → Exn
  other : String → Exn
  system : String → Exn

-- `e.faultcode == 'Client' or e.faultcode.startswith('Client.')`
unfoldable pub is_client : Fault → Bool
is_client f = str_eq f.faultcode "Client" || starts_with f.faultcode "Client."

-- `isinstance(e, Fault)`
abbrev pub is_fault : Exn → Bool
is_fault (fault_exn _) = true
is_fault _ = false

-- `isinstance(e, Exception)`
abbrev pub is_exception : Exn → Bool
is_exception (system _) = false
is_exception _ = true

-- A value of the document that a fault is turned into: text, or the detail as it stands.
pub record Entry : Type 0 where
  pub key : String
  pub value : String

abbrev actor_entry : Option String → Bool → List Entry
actor_entry none ignore_empty = []
actor_entry (some a) ignore_empty =
    if not (str_eq a "") || not ignore_empty
    then record { key = "faultactor"; value = a } ∷ []
    else []

abbrev detail_entry : Option String → List Entry
detail_entry none = []
detail_entry (some d) = record { key = "detail"; value = d } ∷ []

-- `Fault.to_dict` on an exception: `name` is its class's name and `text` is `str(value)`.
unfoldable pub to_dict : Exn → String → String → Bool → List Entry
to_dict (fault_exn f) name text ignore_empty =
    record { key = "faultcode"; value = f.faultcode }
    ∷ record { key = "faultstring"; value = f.faultstring }
    ∷ (actor_entry f.faultactor ignore_empty ++ detail_entry f.detail)
to_dict _ name text ignore_empty =
    record { key = "faultcode"; value = "Server.Unknown" }
    ∷ record { key = "faultstring"; value = name }
    ∷ record { key = "detail"; value = text }
    ∷ []

abbrev or_empty : Option String → String
or_empty none = ""
or_empty (some s) = s

-- `Fault.to_list`
unfoldable pub to_list : Exn → String → String → List String
to_list (fault_exn f) name text =
    f.faultcode ∷ f.faultstring ∷ or_empty f.faultactor ∷ or_empty f.detail ∷ []
to_list _ name text = "Server.Unknown" ∷ name ∷ "" ∷ text ∷ []
