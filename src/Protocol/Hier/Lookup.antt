-- ===== src/Protocol/Hier/Lookup.antt =====
-- spyne/protocol/dictdoc/hier.py: the class that a document is read as, and the members that its keys
-- stand for.
use spyne.Prelude.{
  ℕ, nat_eq, string_eq, ltb, String, Bool, true, false, not, ◌&&◌, Option, none, some, List, [],
  ◌∷◌, map, ◌=?◌, if◌then◌else◌,
}
use spyne.Prelude.Dict
use spyne.Prelude.Dict.{Dict}
use spyne.Prelude.Exec.{Result, ok, err, with_ok, map_err}
use spyne.Util.Odict.{items}
use spyne.Model.Complex.{TypeInfo, get_flat_type_info}
use spyne.Protocol.Hier.{
  Key, text, bytes, Doc, null, scalar, seq, dict, Docs, end, entry, Value, nothing, list, Values,
  no_values, value, HierError, validation, not_single, type_error, from_flat, from_odict, exn,
  list_of_docs, list_of_entries, Kind, unicode, Types, Protocol,
}

abbrev pub list_of_values : Values → List Value
list_of_values no_values = []
list_of_values (value v rest) = v ∷ list_of_values rest

abbrev pub more_than_one : Option ℕ → Bool
more_than_one none = true
more_than_one (some n) = ltb 1 n

abbrev pub or_self : ℕ → Option ℕ → ℕ
or_self c none = c
or_self c (some o) = o

abbrev pub default_value : Option Value → Value
default_value none = nothing
default_value (some v) = v

-- the list that the elements of a member are appended to
abbrev pub to_append : Option Value → Result HierError (List Value)
to_append none = ok []
to_append (some nothing) = ok []
to_append (some (list vs)) = ok (list_of_values vs)
to_append (some other_value) = err type_error

abbrev pub or_empty_list : Option Value → Value
or_empty_list none = list no_values
or_empty_list (some nothing) = list no_values
or_empty_list (some v) = v

abbrev pub is_list : Option Value → Bool
is_list (some (list vs)) = true
is_list other_value = false

abbrev pub only_one : List (String × ℕ) → Result HierError ℕ
only_one ((k, t) ∷ []) = ok t
only_one _ = err not_single

-- `zip`
unfoldable pub zip_names : List String → List Doc → List (Key × Doc)
zip_names [] docs = []
zip_names (k ∷ names) [] = []
zip_names (k ∷ names) (d ∷ docs) = (text k, d) ∷ zip_names names docs

abbrev pub listed : Option Docs → Option (List Doc)
listed none = none
listed (some docs) = some (list_of_docs docs)

abbrev pub is_null : Doc → Bool
is_null null = true
is_null other_doc = false

abbrev pub is_unicode : Kind → Bool
is_unicode unicode = true
is_unicode other_kind = false

abbrev pub zip_or_raise : List String → Option (List Doc) → Result HierError (List (Key × Doc))
zip_or_raise names none = err validation
zip_or_raise names (some docs) = ok (zip_names names docs)

abbrev pub decoded_or_raise : Option String → Result HierError (Option String)
decoded_or_raise none = err validation
decoded_or_raise (some k) = ok (some k)

abbrev pub decoded : Option (ℕ → Option String) → ℕ → Result HierError (Option String)
decoded none b = ok none
decoded (some decode) b = decoded_or_raise (decode b)

module _ (t : Types) where
  abbrev pub flat : ℕ → Result HierError TypeInfo
  flat c = map_err from_flat (get_flat_type_info t.is_attribute t.classes c)

  -- the items of a flat type info
  abbrev pub flat_members : TypeInfo → Result HierError (List (String × ℕ))
  flat_members r = map_err from_odict (items r.members r.members.list)

  -- `(serializer,) = cls._type_info.values()`
  abbrev pub serializer : ℕ → Result HierError ℕ
  serializer c =
      with_ok (map_err from_odict (items (t.classes c).type_info (t.classes c).type_info.list))
        only_one

  -- the attributes that `__init__` sets
  unfoldable pub initial : List (String × ℕ) → Dict String Value
  initial [] = []
  initial ((k, m) ∷ l) = (k, default_value ((t.attrs m).default)) ∷ initial l

  -- the members that are not excluded
  unfoldable pub included : List (String × ℕ) → List String
  included [] = []
  included ((k, m) ∷ l) = let rest = included l in if (t.attrs m).exc then rest else k ∷ rest

  -- a member by its name, or by the other name that it goes by
  abbrev pub or_alt : Option (ℕ × String) → String → Option ℕ → Option (ℕ × String)
  or_alt alt k none = alt
  or_alt alt k (some m) = some (m, k)

  unfoldable pub find_member : TypeInfo → String → Option (ℕ × String)
  find_member r k = or_alt (Dict.get r.alt k) k (Dict.get r.members.dict k)

  -- the subclass with a name
  unfoldable pub named_subclass : List ℕ → String → Option ℕ
  named_subclass [] class_name = none
  named_subclass (s ∷ l) class_name =
      let rest = named_subclass l class_name in if t.type_name s =? class_name then some s else rest

  abbrev pub checked_subclass : ℕ → Option ℕ → Result HierError ℕ
  checked_subclass c none = err validation
  checked_subclass c (some s) = if t.is_subclass s c then ok s else err validation

  abbrev pub is_empty : List ℕ → Bool
  is_empty [] = true
  is_empty (s ∷ l) = false

  -- the class that a wrapper names
  unfoldable pub choose_class : ℕ → String → Result HierError ℕ
  unfolding named_subclass
  choose_class c class_name =
      if not (t.type_name c =? class_name) && not (is_empty (t.subclasses c))
      then checked_subclass c (named_subclass (t.subclasses c) class_name)
      else ok c

module _ (p : Protocol) (t : Types) where
  abbrev pub name_of : Key → Result HierError String
  name_of (text k) = ok k
  name_of (bytes b) = map_err exn (p.decode_name b)

  -- the class and the document in a wrapper, if there are any
  unfoldable pub unwrap : ℕ → Doc → Result HierError (Option (ℕ × Doc))
  unfolding choose_class
  unwrap c (dict end) = ok none
  unwrap c (dict (entry k d end)) =
      with_ok (name_of k)
        (λ class_name. with_ok (choose_class t c class_name) (λ cls. ok (some (cls, d))))
  unwrap c other_doc = err validation

  -- the elements of a document that can be iterated over
  abbrev pub elements : Doc → Option (List Doc)
  elements null = none
  elements (scalar s) = listed (p.scalar_items s)
  elements (seq docs) = some (list_of_docs docs)
  elements (dict entries) = some (map (λ e. p.key_doc e.0) (list_of_entries entries))

  -- a key, as `flat_type_info` is asked for it; bytes that are not decoded are no name
  abbrev pub key_name : Key → Result HierError (Option String)
  key_name (text k) = ok (some k)
  key_name (bytes b) = decoded p.decode_key b

  -- the pairs that the members are read from
  abbrev pub pairs : TypeInfo → Doc → Result HierError (List (Key × Doc))
  pairs r (dict entries) = ok (list_of_entries entries)
  pairs r other_doc =
      with_ok (flat_members t r) (λ members. zip_or_raise (included t members) (elements other_doc))
