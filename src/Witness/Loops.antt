-- ===== src/Witness/Loops.antt =====
-- A type with a list of its own type as a member, and a text for it.
use spyne.Prelude.{ℕ, zero, suc, nat_eq, string_eq, ◌≡◌, refl, String, none, [], ◌∷◌}
use spyne.Prelude.Dict
use spyne.Prelude.Exec.{err}
use spyne.Util.Odict.{Odict, setitem, items, checked, merge, update, resolve}
use spyne.Model.Complex.{Class, get_flat_type_info, flat_type_info, add_own, put_all, attributes}
use spyne.Protocol.Hier.{scalar, out_of_fuel, Kind, array, complex, Types}
use spyne.Protocol.Hier.Lookup.{find_member, initial, included, zip_names}
use spyne.Protocol.Hier.Read.{
  validate, from_dict_value, read_all, read_value, fill, fill_instance, read_members, read_object,
  doc_to_object,
}
use spyne.Witness.Trees.{protocol, tree_types}

abbrev node_table : String → ℕ → Odict String ℕ
node_table k t = record { list = k ∷ []; dict = (k, t) ∷ [] }

-- Node has children, which are an Array of Node.
abbrev node_classes : ℕ → Class
node_classes zero = record {
  extends = none;
  type_info = node_table "children" 1;
  type_info_alt = [];
}
node_classes c = record { extends = none; type_info = node_table "node" 0; type_info_alt = [] }

abbrev node_kind : ℕ → Kind
node_kind zero = complex
node_kind c = array

abbrev node_types : Types
node_types = record tree_types { classes = node_classes; kind = node_kind }

-- The first element of a text of one character is that text: the recursion has no end.
endless :
    (fuel : ℕ)
    → (doc_to_object protocol node_types fuel 0 (scalar 1) ≡ err out_of_fuel)
      × (doc_to_object protocol node_types fuel 1 (scalar 1) ≡ err out_of_fuel)
unfolding get_flat_type_info flat_type_info add_own put_all attributes merge update resolve setitem
    items checked find_member initial included fill read_value from_dict_value read_all validate
    zip_names fill_instance read_members read_object doc_to_object Dict.get Dict.put
endless zero = (refl, refl)
endless (suc fuel) = let ih = endless fuel in (rw ih.1 refl, rw ih.0 refl)
