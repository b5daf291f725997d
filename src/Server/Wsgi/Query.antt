-- ===== src/Server/Wsgi/Query.antt =====
-- `_parse_qs` of spyne/server/wsgi.py: the fields of a query string, in an ordered dictionary. The
-- functions on text of the standard library are parameters.
pub mod Collected
use text.Mathlib.Text.{◌==◌ as str_eq}
use spyne.Prelude.{
  ℕ, nat_eq, string_eq, Bool, true, false, String, Option, none, some, List, [], ◌∷◌, ◌++◌,
  if◌then◌else◌,
}
use spyne.Prelude.Dict
use spyne.Prelude.Exec.{Result, ok, err}
use spyne.Util.Odict.{Odict, OdictError, name, setitem}

-- `s.split(sep)`, `s.split('=', 1)` as the part before the sign and the part behind it, if there is
-- one, and `unquote(s.replace('+', ' '))`
pub record QueryTexts : Type 0 where
  pub split : String → String → List String
  pub split_once : String → String × Option String
  pub decode : String → String

-- The values of each name, None for a name without a sign behind it.
abbrev pub Fields : Type 0
Fields = Odict String (List (Option String))

-- `l.append(value)`, on the list that the dictionary holds for the name
unfoldable pub append_value : String → List (Option String) → Option String → Fields → Fields
append_value key l value retval = record retval {
  dict = Dict.put retval.dict key (l ++ value ∷ []);
}

abbrev pub append_to :
    String
    → List (Option String)
    → Option String
    → Result OdictError Fields
    → Result OdictError Fields
append_to key l value (ok retval) = ok (append_value key l value retval)
append_to key l value (err e) = err e

-- by `retval.get(name, None)`
abbrev pub add_to :
    String → Option String → Option (List (Option String)) → Fields → Result OdictError Fields
add_to key value none retval = append_to key [] value (setitem retval (name key) [])
add_to key value (some l) retval = ok (append_value key l value retval)

unfoldable pub add_field : String → Option String → Fields → Result OdictError Fields
unfolding append_value
add_field key value retval = add_to key value (Dict.get retval.dict key) retval

abbrev pub continue_with :
    Result OdictError Fields → (Fields → Result OdictError Fields) → Result OdictError Fields
continue_with (ok retval) f = f retval
continue_with (err e) f = err e

module _ (texts : QueryTexts) where
  abbrev decode_value : Option String → Option String
  decode_value none = none
  decode_value (some s) = some (texts.decode s)

  abbrev pub decode_pair : String → String × Option String
  decode_pair name_value =
      let nv = texts.split_once name_value in (texts.decode nv.0, decode_value nv.1)

  -- the loop
  unfoldable pub add_fields : List String → Fields → Result OdictError Fields
  unfolding add_field
  add_fields [] retval = ok retval
  add_fields (name_value ∷ pairs) retval =
      let rest = add_fields pairs in
      if str_eq name_value ""
      then rest retval
      else continue_with (add_field (decode_pair name_value).0 (decode_pair name_value).1 retval)
          rest

  unfoldable pub split_all : List String → List String
  split_all [] = []
  split_all (s ∷ l) = texts.split s ";" ++ split_all l

  unfoldable pub parse_qs : String → Result OdictError Fields
  unfolding add_fields split_all
  parse_qs qs = add_fields (split_all (texts.split qs "&")) (record { list = []; dict = [] })
