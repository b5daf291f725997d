-- ===== src/Model/Complex.antt =====
-- spyne/model/complex.py: classes with members. Classes are numbered in the order of their creation;
-- this file has the tables of their members and `_get_flat_type_info`.
pub mod Flat
pub mod Simple
pub mod Order
use spyne.Prelude.{
  ℕ, zero, suc, nat_eq, string_eq, String, Bool, Option, none, some, List, [], ◌∷◌, ◌++◌,
  if◌then◌else◌,
}
use spyne.Prelude.Dict
use spyne.Prelude.Dict.{Dict}
use spyne.Prelude.Exec.{Result, ok, err}
use spyne.Util.Odict.{Odict, OdictError, merge}

-- `__extends__`, `_type_info` and `_type_info_alt`; a member's type is a class, and `alt` has the
-- type of a member and its name by the other name that it goes by.
pub record Class : Type 0 where
  pub extends : Option ℕ
  pub type_info : Odict String ℕ
  pub type_info_alt : Dict String (ℕ × String)

-- A `TypeInfo` that is filled with the members of a class and of those it extends.
pub record TypeInfo : Type 0 where
  pub members : Odict String ℕ
  pub alt : Dict String (ℕ × String)
  pub attrs : Dict String ℕ

abbrev pub no_members : TypeInfo
no_members = record { members = record { list = []; dict = [] }; alt = []; attrs = [] }

pub data FlatError : Type 0 where
  out_of_fuel : FlatError
  from_odict : OdictError → FlatError

-- `d.update(e)` for dictionaries of the language
unfoldable pub put_all : {V : Type 0} → Dict String V → Dict String V → Dict String V
put_all d [] = d
put_all d ((k, v) ∷ e) = put_all (Dict.put d k v) e

-- the members whose type is a subclass of XmlAttribute
unfoldable pub attributes : (ℕ → Bool) → Dict String ℕ → Dict String ℕ
attributes is_attribute [] = []
attributes is_attribute ((k, t) ∷ members) =
    let rest = attributes is_attribute members in if is_attribute t then (k, t) ∷ rest else rest

abbrev pub filled : (ℕ → Bool) → Class → TypeInfo → Odict String ℕ → TypeInfo
filled is_attribute cls retval members = record {
  members = members;
  alt = put_all retval.alt cls.type_info_alt;
  attrs = put_all retval.attrs (attributes is_attribute cls.type_info.dict);
}

abbrev pub with_members :
    (ℕ → Bool) → Class → TypeInfo → Result OdictError (Odict String ℕ) → Result FlatError TypeInfo
with_members is_attribute cls retval (err e) = err (from_odict e)
with_members is_attribute cls retval (ok members) = ok (filled is_attribute cls retval members)

-- what `_get_flat_type_info` adds for a class itself
unfoldable pub add_own : (ℕ → Bool) → Class → TypeInfo → Result FlatError TypeInfo
unfolding put_all attributes
add_own is_attribute cls retval =
    with_members is_attribute cls retval (merge cls.type_info retval.members)

abbrev pub then_add : (ℕ → Bool) → Class → Result FlatError TypeInfo → Result FlatError TypeInfo
then_add is_attribute cls (err e) = err e
then_add is_attribute cls (ok retval) = add_own is_attribute cls retval

-- the call for the class that is extended, if there is one
abbrev pub flat_parent :
    (ℕ → TypeInfo → Result FlatError TypeInfo) → Option ℕ → TypeInfo → Result FlatError TypeInfo
flat_parent flat none retval = ok retval
flat_parent flat (some parent) retval = flat parent retval

module _ (is_attribute : ℕ → Bool) (classes : ℕ → Class) where
  -- `_get_flat_type_info`
  unfoldable pub flat_type_info : ℕ → ℕ → TypeInfo → Result FlatError TypeInfo
  unfolding add_own
  flat_type_info zero c retval = err out_of_fuel
  flat_type_info (suc fuel) c retval =
      then_add is_attribute (classes c)
        (flat_parent (flat_type_info fuel) (classes c).extends retval)

  -- `ComplexModelBase.get_flat_type_info`
  unfoldable pub get_flat_type_info : ℕ → Result FlatError TypeInfo
  unfolding flat_type_info
  get_flat_type_info c = flat_type_info (suc c) c no_members
