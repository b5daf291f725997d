-- ===== src/Witness/Interfaces.antt =====
-- A fresh interface for "tns", and a service with two methods.
use Prim.Native.String.{len, ◌++◌ as ◌+s+◌}
use text.Mathlib.TextPositions.{len-append}
use spyne.Prelude.{
  ℕ, zero, suc, nat_eq, string_eq, ◌≡◌, ◌↔◌, refl, ap, sym, ◌∙◌, String, true, false, none, some,
  List, [], ◌∷◌, arith,
}
use spyne.Prelude.Dict
use spyne.Prelude.Exec.{ok}
use spyne.Interface.Prefixes.{Namespaces, reset_interface, get_namespace_prefix}
use spyne.Interface.Prefixes.Unique.{get_namespace_prefix_unique, fresh}
use spyne.Interface.Routes.{
  Class, Method, Routes, populate_routes, process_method, method_key, gen_interface_key, register,
  process_methods, public_methods, static_methods, add_route, compatible,
}
use spyne.Interface.Routes.Complete.{IsComplete, populate_routes-IsComplete}

-- "s", "ss", "sss" and so on
abbrev prefix : ℕ → String
prefix zero = "s"
prefix (suc n) = "s" +s+ prefix n

len-prefix : (n : ℕ) → len (prefix n) ≡ suc n
len-prefix zero = refl
len-prefix (suc n) = omega (arith, len-append "s" (prefix n), len-prefix n)

prefix_injective : (a b : ℕ) → prefix a ≡ prefix b → a ≡ b
prefix_injective a b e =
    let same : suc a ≡ suc b = sym (len-prefix a) ∙ ap len e ∙ len-prefix b in omega (arith, same)

abbrev start : Namespaces
start = reset_interface "tns" 0

get_namespace_prefix_unique_example :
    (p : String) × (m : Namespaces) × (get_namespace_prefix prefix start "urn:a" ≡ some (p, m))
    × ((ns' : String) → (Dict.get m.prefmap ns' ≡ some p) ↔ (ns' ≡ "urn:a"))
    × ((ns' q : String) → Dict.get start.prefmap ns' ≡ some q → Dict.get m.prefmap ns' ≡ some q)
get_namespace_prefix_unique_example =
    get_namespace_prefix_unique prefix prefix_injective "urn:a" (fresh 0)

abbrev service : Class
service = record {
  id = 1;
  orig = none;
  is_service = true;
  is_complex = false;
  module_name = "app";
  owner_name = "Service";
  namespace = none;
  type_name = "Service";
}

abbrev add : Method
add = record { id = 1; name = "add"; aux = none; parent_class = none }

abbrev put : Method
put = record { id = 2; name = "put"; aux = some 1; parent_class = none }

abbrev no_routes : Routes
no_routes = record { method_id_map = []; service_method_map = [] }

abbrev id_text : String → String
id_text s = s

no_routes-IsComplete : IsComplete no_routes
unfolding Dict.get
no_routes-IsComplete = record { routes = λ n l e. cc; routed = λ k m e. cc }

abbrev services : List (Class × List Method)
services = (service, add ∷ put ∷ []) ∷ []

filled : (populate_routes id_text "tns" (λ o. service) (λ m. true) services [] no_routes).0 ≡ ok tt
unfolding populate_routes process_methods public_methods static_methods process_method register
    add_route compatible gen_interface_key method_key Dict.get Dict.put
filled = refl

populate_routes-IsComplete_example :
    IsComplete (populate_routes id_text "tns" (λ o. service) (λ m. true) services [] no_routes).1
populate_routes-IsComplete_example =
    populate_routes-IsComplete id_text "tns" (λ o. service) (λ m. true) services [] no_routes
      no_routes-IsComplete filled
