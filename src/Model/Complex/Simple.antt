-- ===== src/Model/Complex/Simple.antt =====
-- spyne/model/complex.py: `get_simple_type_info_with_prot`, which flattens the members of a class and
-- of the classes of its members, breadth first, into one table under joined names.
pub mod Ends
pub mod Total
pub mod Paths
use Prim.Native.String.{◌++◌ as ◌+s+◌}
use spyne.Prelude.{
  ℕ, zero, suc, nat_eq, string_eq, String, Bool, true, false, ◌&&◌, ◌||◌, Option, none, some,
  is_none, List, [], ◌∷◌, ◌++◌, contains, ◌==◌, ltb, if◌then◌else◌,
}
use spyne.Prelude.Dict
use spyne.Prelude.Exec.{Result, ok, err, with_ok, map_err}
use spyne.Util.Odict.{Odict, OdictError, name, setitem, items}
use spyne.Model.Complex.{Class, TypeInfo, FlatError, get_flat_type_info}

-- What the walk reads of a type: whether it is an Array, whether a ComplexModelBase, and its
-- `Attributes.max_occurs`, where `none` stands for an unbounded one.
pub record ModelType : Type 0 where
  pub array : Bool
  pub complex : Bool
  pub max_occurs : Option ℕ

-- `_SimpleTypeInfoElement`
pub record Element : Type 0 where
  pub path : List String
  pub parent : ℕ
  pub type : ℕ
  pub is_array : List Bool
  pub can_be_empty : Bool

-- An entry of the queue.
pub record Entry : Type 0 where
  pub keys : List String
  pub type : ℕ
  pub prefix : List String
  pub is_array : List Bool
  pub parent : ℕ

-- The variables of the loop.
pub record Walk : Type 0 where
  pub retval : Odict String Element
  pub tags : List ℕ
  pub queue : List Entry

-- `conflict` is the ValueError for a name that is taken, with the path that has it; `not_single` the
-- one for an Array that has not exactly one member.
pub data SimpleError : Type 0 where
  out_of_fuel not_single : SimpleError
  conflict : List String → SimpleError
  from_flat : FlatError → SimpleError
  from_odict : OdictError → SimpleError

-- `hier_delim.join(prefix)`
unfoldable pub join : String → List String → String
join hier_delim [] = ""
join hier_delim (s ∷ []) = s
join hier_delim (s ∷ t ∷ l) = let rest = join hier_delim (t ∷ l) in s +s+ hier_delim +s+ rest

abbrev more_than_one : Option ℕ → Bool
more_than_one none = true
more_than_one (some n) = ltb 1 n

abbrev is_one : Option ℕ → Bool
is_one none = false
is_one (some n) = n == 1

-- `_is_array`
abbrev pub is_array_type : ModelType → Bool
is_array_type t = t.array || more_than_one t.max_occurs

-- `v, = values`
abbrev pub only_value : List (String × ℕ) → Result SimpleError ℕ
only_value ((k, v) ∷ []) = ok v
only_value _ = err not_single

abbrev or_name : String → Option String → String
or_name k none = k
or_name k (some n) = n

-- the name of a member, for a protocol with the `sub_name`s of types, or for none
abbrev pub sub_name : Option (ℕ → Option String) → String → ℕ → String
sub_name none k v = k
sub_name (some names) k v = or_name k (names v)

-- the entries for the members of a class
unfoldable pub entries :
    Option (ℕ → Option String)
    → ℕ
    → List String
    → List String
    → List Bool
    → (ℕ → Bool)
    → List (String × ℕ)
    → List Entry
entries prot parent keys prefix is_array flag [] = []
entries prot parent keys prefix is_array flag ((k, v) ∷ fti) =
    record {
      keys = keys ++ k ∷ [];
      type = v;
      prefix = prefix ++ sub_name prot k v ∷ [];
      is_array = is_array ++ flag v ∷ [];
      parent = parent;
    }
    ∷ entries prot parent keys prefix is_array flag fti

abbrev pub element : Entry → ℕ → Bool → Element
element entry v can_be_empty = record {
  path = entry.keys;
  parent = entry.parent;
  type = v;
  is_array = entry.is_array;
  can_be_empty = can_be_empty;
}

module _ (is_attribute : ℕ → Bool) (classes : ℕ → Class) (types : ℕ → ModelType) where
  -- `v.get_flat_type_info(v).items()`
  unfoldable pub flat_items : ℕ → Result SimpleError (List (String × ℕ))
  unfolding get_flat_type_info items
  flat_items v =
      with_ok (map_err from_flat (get_flat_type_info is_attribute classes v))
        (λ r. map_err from_odict (items r.members r.members.list))

  -- the type in an Array that occurs once, or the type itself
  unfoldable pub unwrapped : ℕ → Result SimpleError ℕ
  unfolding items
  unwrapped v =
      if (types v).array && is_one ((types v).max_occurs)
      then with_ok (map_err from_odict (items (classes v).type_info (classes v).type_info.list))
          only_value
      else ok v

module _ (prot : Option (ℕ → Option String)) (hier_delim : String) (types : ℕ → ModelType)
    (fti : ℕ → Result SimpleError (List (String × ℕ))) (unwrap : ℕ → Result SimpleError ℕ) where
  -- what is done for a complex type that is stored
  abbrev pub expand : Entry → ℕ → Walk → Result SimpleError Walk
  expand entry v w =
      if contains w.tags v
      then ok w
      else with_ok (fti v) (λ members. ok (record w {
        tags = v ∷ w.tags;
        queue =
            w.queue
            ++ entries prot v entry.keys entry.prefix entry.is_array (λ v2. is_array_type (types v))
                members;
      }))

  abbrev pub store_element : Entry → ℕ → Bool → Walk → Result SimpleError Walk
  store_element entry v can_be_empty w =
      with_ok
        (map_err from_odict
          (setitem w.retval (name (join hier_delim entry.prefix)) (element entry v can_be_empty)))
        (λ retval. ok (record w { retval = retval }))

  abbrev pub store_simple : Entry → ℕ → Walk → Option Element → Result SimpleError Walk
  store_simple entry v w (some value) = err (conflict value.path)
  store_simple entry v w none = store_element entry v false w

  -- the body of the loop, for a type that is taken out of its Array
  unfoldable pub visit : Entry → ℕ → Walk → Result SimpleError Walk
  unfolding setitem entries join
  visit entry v w =
      if (types v).complex
      then with_ok (store_element entry v true w) (expand entry v)
      else store_simple entry v w (Dict.get w.retval.dict (join hier_delim entry.prefix))

  -- the loop
  unfoldable pub walk_from :
      ℕ → Odict String Element → List ℕ → List Entry → Result SimpleError (Odict String Element)
  unfolding visit
  walk_from fuel retval tags [] = ok retval
  walk_from zero retval tags (entry ∷ queue) = err out_of_fuel
  walk_from (suc fuel) retval tags (entry ∷ queue) = with_ok (unwrap entry.type) (λ v.
      with_ok (visit entry v (record { retval = retval; tags = tags; queue = queue }))
        (λ w. walk_from fuel w.retval w.tags w.queue))

module _ (is_attribute : ℕ → Bool) (classes : ℕ → Class) (types : ℕ → ModelType)
    (prot : Option (ℕ → Option String)) (hier_delim : String) where
  -- `get_simple_type_info_with_prot`
  unfoldable pub get_simple_type_info : ℕ → ℕ → Result SimpleError (Odict String Element)
  unfolding entries flat_items unwrapped walk_from
  get_simple_type_info fuel cls = with_ok (flat_items is_attribute classes types cls) (λ members.
      walk_from prot hier_delim types (flat_items is_attribute classes types)
        (unwrapped is_attribute classes types) fuel (record { list = []; dict = [] }) (cls ∷ [])
        (entries prot cls [] [] [] (λ v. is_array_type (types v)) members))
