-- ===== src/Protocol/Methods.antt =====
-- spyne/protocol/_base.py: from the method request string to the contexts of the methods it names,
-- and the class by which a polymorphic protocol serialises a value.
use Prim.Native.String.{◌++◌ as ◌+s+◌}
use text.Mathlib.Text.{starts_with}
use text.Mathlib.TextPositions.{starts_with-append}
use spyne.Prelude.{
  ◌≡◌, ℕ, nat_eq, String, string_eq, Option, none, some, List, [], ◌∷◌, Bool, true, false, not,
  ◌=?◌, if◌then◌else◌, arith, Option-cases, inl, inr,
}
use spyne.Prelude.Dict
use spyne.Prelude.Dict.{Dict}
use spyne.Prelude.Exec.{Result, ok, err}
use spyne.Fault.{Exn, fault_exn, builtin, resource_not_found, new_fault, class_code}
use spyne.Context.{Descriptor, MethodContext, set_descriptor}

-- The part of the interface of an application that finds methods. `not_found` is the text of
-- ResourceNotFoundError with the `repr` of the name in it.
pub record Interface (S : Type 0) : Type 0 where
  pub tns : String
  pub service_method_map : Dict String (List (Descriptor S))
  pub not_found : String → String

abbrev or_empty : {A : Type 0} → Option (List A) → List A
or_empty none = []
or_empty (some l) = l

module _ {S : Type 0} (interface : Interface S) where
  -- `u'{%s}%s' % (tns, name)`
  unfoldable pub qualify : String → String
  qualify name = "{" +s+ (interface.tns +s+ ("}" +s+ name))

  -- `get_call_handles`, on `ctx.method_request_string`
  unfoldable pub get_call_handles : String → List (Descriptor S)
  get_call_handles name =
      or_empty (
        Dict.get interface.service_method_map (if starts_with name "{" then name else qualify name))

  abbrev pub not_found_error : String → Exn
  not_found_error name = fault_exn (
      new_fault (builtin resource_not_found) "Fault" (class_code resource_not_found)
        (interface.not_found name) none)

  -- the loop over the handles
  unfoldable pub method_contexts : MethodContext S → List (Descriptor S) → List (MethodContext S)
  method_contexts ctx [] = []
  method_contexts ctx (d ∷ call_handles) = set_descriptor ctx d ∷ method_contexts ctx call_handles

  abbrev contexts_or_error :
      MethodContext S → List (Descriptor S) → Result Exn (List (MethodContext S))
  contexts_or_error ctx [] = err (not_found_error ctx.method_request_string)
  contexts_or_error ctx (d ∷ ds) = ok (method_contexts ctx (d ∷ ds))

  unfoldable pub generate_method_contexts : MethodContext S → Result Exn (List (MethodContext S))
  generate_method_contexts ctx = contexts_or_error ctx (get_call_handles ctx.method_request_string)

  -- A local name that begins with no brace finds the methods that its name in the target namespace
  -- finds.
  pub get_call_handles-qualify :
      (name : String)
      → starts_with name "{" ≡ false
      → get_call_handles (qualify name) ≡ get_call_handles name
  unfolding get_call_handles qualify
  get_call_handles-qualify name h =
      ground (arith, starts_with-append "{" (interface.tns +s+ ("}" +s+ name)))

-- What a polymorphic protocol knows of classes, which are numbers: `cls.__orig__`, `isinstance` on
-- an instance of the first class, and the attribute `polymap`.
pub record Classes : Type 0 where
  pub orig : ℕ → Option ℕ
  pub is_instance : ℕ → ℕ → Bool
  pub polymap : ℕ → Dict ℕ ℕ

abbrev or_self : Option ℕ → ℕ → ℕ
or_self none c = c
or_self (some o) c = o

abbrev switch : Option ℕ → ℕ → ℕ × Bool
switch (some polymap_cls) inst_cls = (polymap_cls, true)
switch none inst_cls = (inst_cls, true)

-- `get_polymorphic_target` for an instance whose class is `inst_cls`
unfoldable pub get_polymorphic_target : Classes → Bool → ℕ → ℕ → ℕ × Bool
get_polymorphic_target classes polymorphic cls inst_cls =
    let orig_cls = or_self (classes.orig cls) cls in
    if not polymorphic
    then (cls, false)
    else if inst_cls =? orig_cls
    then (cls, false)
    else if not (classes.is_instance inst_cls orig_cls)
    then (cls, false)
    else switch (Dict.get (classes.polymap cls) inst_cls) inst_cls

-- Where `polymap` only leads to subclasses of the designated class, the class that a value is
-- serialised by is the designated one or a subclass of what that stands for.
pub get_polymorphic_target-is_instance :
    (classes : Classes) (polymorphic : Bool) (cls inst_cls : ℕ)
    → ((c d : ℕ)
        → Dict.get (classes.polymap cls) c ≡ some d
        → classes.is_instance d (or_self (classes.orig cls) cls) ≡ true)
    → (get_polymorphic_target classes polymorphic cls inst_cls).1 ≡ true
    → classes.is_instance
        (get_polymorphic_target classes polymorphic cls inst_cls).0
        (or_self (classes.orig cls) cls)
      ≡ true
unfolding get_polymorphic_target
get_polymorphic_target-is_instance classes polymorphic cls inst_cls sub h =
    elim (Option-cases (Dict.get (classes.polymap cls) inst_cls)) [
      | inl absent ↦ ground (arith, absent)
      | inr (d, found) ↦ ground (arith, found, sub inst_cls d found)
    ]
