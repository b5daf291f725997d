-- ===== src/Witness/Classes.antt =====
-- A class `Node` with a name and a child of its own type, a class that extends it, and `Unicode`.
use mathlib.Core.Option.{some-injective}
use spyne.Prelude.{
  ℕ, zero, suc, nat_eq, string_eq, ◌≡◌, ◌↔◌, ◌<◌, ◌≤◌, refl, arith, String, Bool, true, false, none,
  some, List, [], ◌∷◌, ◌++◌,
}
use spyne.Prelude.Dict
use spyne.Prelude.Dict.{contains-keys}
use spyne.Prelude.Exec.{ok}
use spyne.Util.Odict.{Odict, setitem, items, checked, merge, update, resolve}
use spyne.Util.Odict.Laws.{IsValid, empty-IsValid}
use spyne.Model.Complex.{
  Class, TypeInfo, get_flat_type_info, flat_type_info, add_own, put_all, attributes,
}
use spyne.Model.Complex.Flat.{
  IsHierarchy, HasMember, get_flat_type_info-HasMember, get_flat_type_info_order,
}
use spyne.Model.Complex.Simple.{
  ModelType, Element, get_simple_type_info, flat_items, unwrapped, walk_from, visit, join, entries,
}
use spyne.Model.Complex.Simple.Ends.{Ends, owed}
use spyne.Model.Complex.Simple.Paths.{Stands}
use spyne.Model.Complex.Simple.Total.{
  IsWorld, flat_size, get_simple_type_info-Ends, get_simple_type_info-Stands,
}

abbrev node_members : Odict String ℕ
node_members = record { list = "name" ∷ "child" ∷ []; dict = ("name", 2) ∷ ("child", 0) ∷ [] }

abbrev child_members : Odict String ℕ
child_members = record { list = "age" ∷ []; dict = ("age", 2) ∷ [] }

abbrev classes : ℕ → Class
classes zero = record { extends = none; type_info = node_members; type_info_alt = [] }
classes (suc zero) = record { extends = some 0; type_info = child_members; type_info_alt = [] }
classes (suc (suc c)) = record {
  extends = none;
  type_info = record { list = []; dict = [] };
  type_info_alt = [];
}

abbrev types : ℕ → ModelType
types (suc (suc c)) = record { array = false; complex = false; max_occurs = some 1 }
types c = record { array = false; complex = true; max_occurs = some 1 }

abbrev no_attribute : ℕ → Bool
no_attribute c = false

node_members-IsValid : IsValid node_members
node_members-IsValid = record {
  distinct = (refl, (refl, tt));
  unique = (refl, (refl, tt));
  same_keys = contains-keys node_members.dict;
  same_size = refl;
}

child_members-IsValid : IsValid child_members
child_members-IsValid = record {
  distinct = (refl, tt);
  unique = (refl, tt);
  same_keys = contains-keys child_members.dict;
  same_size = refl;
}

hierarchy : IsHierarchy no_attribute classes
hierarchy = record { older = older; valid = valid }
  where
    older : (c p : ℕ) → (classes c).extends ≡ some p → p < c
    older zero p e = absurd (cc e)
    older (suc zero) p e = omega (arith, some-injective _ _ e)
    older (suc (suc c)) p e = absurd (cc e)

    valid : (c : ℕ) → IsValid (classes c).type_info
    valid zero = node_members-IsValid
    valid (suc zero) = child_members-IsValid
    valid (suc (suc c)) = empty-IsValid

world : IsWorld no_attribute classes types 3
unfolding Dict.get
world = record { hierarchy = hierarchy; closed = closed; arrays = λ c e. absurd (no_array c e) }
  where
    no_array : (c : ℕ) → (types c).array ≡ true → ⊥
    no_array zero e = cc e
    no_array (suc zero) e = cc e
    no_array (suc (suc c)) e = cc e

    closed :
        (c : ℕ) (k : String) (t : ℕ)
        → c < 3
        → Dict.get (classes c).type_info.dict k ≡ some t
        → t < 3
    closed zero k t lt e = ground (arith, e)
    closed (suc zero) k t lt e = ground (arith, e)
    closed (suc (suc c)) k t lt e = absurd (cc e)

get_flat_type_info-HasMember_example :
    (r : TypeInfo) × (get_flat_type_info no_attribute classes 1 ≡ ok r)
    × IsValid r.members
    × ((k : String) (t : ℕ)
        → (Dict.get r.members.dict k ≡ some t) ↔ HasMember no_attribute classes 1 k t)
get_flat_type_info-HasMember_example = get_flat_type_info-HasMember no_attribute classes 1 hierarchy

get_flat_type_info_order_example :
    (r' r : TypeInfo) × (get_flat_type_info no_attribute classes 0 ≡ ok r')
    × (get_flat_type_info no_attribute classes 1 ≡ ok r)
    × (new : List String) × (r.members.list ≡ r'.members.list ++ new)
get_flat_type_info_order_example = get_flat_type_info_order no_attribute classes 1 0 hierarchy refl

-- the members of the three classes
enough : owed (flat_size no_attribute classes types) [] 3 ≤ 5
unfolding get_flat_type_info flat_type_info add_own put_all attributes merge update resolve setitem
    items checked flat_items Dict.get Dict.put
enough = omega arith

get_simple_type_info-Ends_example :
    Ends (get_simple_type_info no_attribute classes types none "." 5 1)
get_simple_type_info-Ends_example =
    get_simple_type_info-Ends no_attribute classes types none "." 3 5 1 world (omega arith) enough

abbrev leaf : String → Element
leaf k = record { path = k ∷ []; parent = 1; type = 2; is_array = false ∷ []; can_be_empty = false }

abbrev node : List String → ℕ → List Bool → Element
node path parent is_array = record {
  path = path;
  parent = parent;
  type = 0;
  is_array = is_array;
  can_be_empty = true;
}

abbrev child_name : Element
child_name = record {
  path = "child" ∷ "name" ∷ [];
  parent = 0;
  type = 2;
  is_array = false ∷ false ∷ [];
  can_be_empty = false;
}

-- the members of the class, and below `child` those of Node, once
abbrev flat_table : Odict String Element
flat_table = record {
  list = "name" ∷ "child" ∷ "age" ∷ "child.name" ∷ "child.child" ∷ [];
  dict =
      ("name", leaf "name")
      ∷ ("child", node ("child" ∷ []) 1 (false ∷ []))
      ∷ ("age", leaf "age")
      ∷ ("child.name", child_name)
      ∷ ("child.child", node ("child" ∷ "child" ∷ []) 0 (false ∷ false ∷ []))
      ∷ [];
}

table : get_simple_type_info no_attribute classes types none "." 5 1 ≡ ok flat_table
unfolding get_simple_type_info get_flat_type_info flat_type_info add_own put_all attributes merge
    update resolve setitem items checked flat_items unwrapped walk_from visit join entries Dict.get
    Dict.put
table = refl

found : Dict.get flat_table.dict "child.name" ≡ some child_name
unfolding Dict.get
found = refl

get_simple_type_info-Stands_example :
    Stands none "." types
      (flat_items no_attribute classes types)
      (unwrapped no_attribute classes types)
      (HasMember no_attribute classes)
      1
      "child.name"
      child_name
get_simple_type_info-Stands_example =
    get_simple_type_info-Stands no_attribute classes types none "." 5 1 flat_table "child.name"
      child_name hierarchy table found
