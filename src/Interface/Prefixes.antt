-- ===== src/Interface/Prefixes.antt =====
-- spyne/interface/_base.py: `get_namespace_prefix`, with the tables of spyne/const/xml.py that
-- `reset_interface` starts from. `prefix n` stands for the text `"s%d" % n`.
pub mod Free
pub mod Unique
use spyne.Prelude.{
  ℕ, zero, suc, String, string_eq, Bool, true, false, not, Option, none, some, is_none, List, [],
  ◌∷◌, length, Eq, ◌=?◌, if◌then◌else◌,
}
use spyne.Prelude.Dict
use spyne.Prelude.Dict.{Dict}

pub record Namespaces : Type 0 where
  pub nsmap : Dict String String
  pub prefmap : Dict String String
  pub ns_counter : ℕ

-- NSMAP
abbrev pub default_nsmap : Dict String String
default_nsmap =
    ("xml", "http://www.w3.org/XML/1998/namespace")
    ∷ ("xs", "http://www.w3.org/2001/XMLSchema")
    ∷ ("xsi", "http://www.w3.org/2001/XMLSchema-instance")
    ∷ ("plink", "http://schemas.xmlsoap.org/ws/2003/05/partner-link/")
    ∷ ("wsdlsoap11", "http://schemas.xmlsoap.org/wsdl/soap/")
    ∷ ("wsdlsoap12", "http://schemas.xmlsoap.org/wsdl/soap12/")
    ∷ ("wsdl", "http://schemas.xmlsoap.org/wsdl/")
    ∷ ("soap11enc", "http://schemas.xmlsoap.org/soap/encoding/")
    ∷ ("soap11env", "http://schemas.xmlsoap.org/soap/envelope/")
    ∷ ("soap12env", "http://www.w3.org/2003/05/soap-envelope")
    ∷ ("soap12enc", "http://www.w3.org/2003/05/soap-encoding")
    ∷ ("wsa", "http://schemas.xmlsoap.org/ws/2003/03/addressing")
    ∷ ("xop", "http://www.w3.org/2004/08/xop/include")
    ∷ ("http", "http://schemas.xmlsoap.org/wsdl/http/")
    ∷ []

-- `dict([(b, a) for a, b in NSMAP.items()])`
unfoldable pub invert : Dict String String → Dict String String → Dict String String
invert [] acc = acc
invert ((a, b) ∷ items) acc = invert items (Dict.put acc b a)

-- `reset_interface`, for the two tables of prefixes; the counter goes on
unfoldable pub reset_interface : String → ℕ → Namespaces
unfolding invert
reset_interface tns ns_counter = record {
  nsmap = Dict.put default_nsmap "tns" tns;
  prefmap = Dict.put (invert default_nsmap []) tns "tns";
  ns_counter = ns_counter;
}

module _ (prefix : ℕ → String) where
  -- the `while` loop: the counter at which it ends
  unfoldable pub free_counter : ℕ → Dict String String → ℕ → Option ℕ
  free_counter zero nsmap ns_counter = none
  free_counter (suc fuel) nsmap ns_counter =
      let rest = free_counter fuel nsmap (suc ns_counter) in
      if is_none (Dict.get nsmap (prefix ns_counter)) then some ns_counter else rest

  abbrev assign : Namespaces → String → Option ℕ → Option (String × Namespaces)
  assign n ns none = none
  assign n ns (some c) = some (
    prefix c,
    record {
      nsmap = Dict.put n.nsmap (prefix c) ns;
      prefmap = Dict.put n.prefmap ns (prefix c);
      ns_counter = suc c;
    },
  )

  abbrev pub known_or_new : Namespaces → String → Option String → Option (String × Namespaces)
  known_or_new n ns (some pref) = some (pref, n)
  known_or_new n ns none = assign n ns (free_counter (suc (length n.nsmap)) n.nsmap n.ns_counter)

  -- None where the fuel of the loop runs out.
  unfoldable pub get_namespace_prefix : Namespaces → String → Option (String × Namespaces)
  unfolding free_counter
  get_namespace_prefix n ns = known_or_new n ns (Dict.get n.prefmap ns)
