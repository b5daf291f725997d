-- ===== src/Protocol/Hier.antt =====
-- spyne/protocol/dictdoc/hier.py: how a hierarchical document, as of JSON, becomes an object. Classes
-- that are a File or an AnyDict are left out, and so are read-only properties and tables of SQLAlchemy.
pub mod Lookup
pub mod Read
pub mod Finish
pub mod Ranked
pub mod Checked
pub mod Filled
pub mod Sound
use spyne.Prelude.{
  ℕ, zero, suc, nat_eq, string_eq, ltb, String, Bool, true, false, not, ◌&&◌, ◌||◌, Option, none,
  some, is_none, List, [], ◌∷◌, ◌++◌, ◌=?◌, if◌then◌else◌,
}
use spyne.Prelude.Dict
use spyne.Prelude.Dict.{Dict}
use spyne.Prelude.Exec.{Result, ok, err}
use spyne.Util.Odict.{Odict, OdictError, items}
use spyne.Model.Complex.{Class, TypeInfo, FlatError, get_flat_type_info}
use spyne.Protocol.Frequencies.{MemberType, FreqError, check_freq_dict, count_of}

-- A key of a dictionary, a str or bytes.
pub data Key : Type 0 where
  text : String → Key
  bytes : ℕ → Key

-- A document: None, a list or tuple, a dict, or a str, bytes, number and the like.
mutual
  pub data Doc : Type 0 where
    null : Doc
    scalar : ℕ → Doc
    seq : Docs → Doc
    dict : Entries → Doc

  pub data Docs : Type 0 where
    nil : Docs
    cons : Doc → Docs → Docs

  pub data Entries : Type 0 where
    end : Entries
    entry : Key → Doc → Entries → Entries

-- A native value: None, a simple one, a document that is passed on, a list, an instance.
mutual
  pub data Value : Type 0 where
    nothing : Value
    simple : ℕ → Value
    raw : Doc → Value
    list : Values → Value
    instance_of : ℕ → Fields → Value

  pub data Values : Type 0 where
    no_values : Values
    value : Value → Values → Values

  pub data Fields : Type 0 where
    no_fields : Fields
    field : String → Value → Fields → Fields

-- The exceptions: `exn` is one of the operations below.
pub data HierError : Type 0 where
  out_of_fuel validation not_single type_error : HierError
  from_flat : FlatError → HierError
  from_odict : OdictError → HierError
  from_freq : FreqError → HierError
  exn : ℕ → HierError

abbrev pub list_of_docs : Docs → List Doc
list_of_docs nil = []
list_of_docs (cons d docs) = d ∷ list_of_docs docs

abbrev pub list_of_entries : Entries → List (Key × Doc)
list_of_entries end = []
list_of_entries (entry k d rest) = (k, d) ∷ list_of_entries rest

abbrev pub values_of : List Value → Values
values_of [] = no_values
values_of (v ∷ l) = value v (values_of l)

abbrev pub fields_of : Dict String Value → Fields
fields_of [] = no_fields
fields_of ((k, v) ∷ d) = field k v (fields_of d)

abbrev pub check : Bool → Result HierError (Unit {0})
check true = ok tt
check false = err validation

-- What the code tests `cls` for: Any, Array, another ComplexModelBase, Unicode, others.
pub data Kind : Type 0 where
  any array complex unicode other : Kind

-- `get_cls_attrs(cls)`, with `none` for an unbounded `max_occurs`; `default` is the value that the
-- default or its factory gives. That instances share a default that is a list is not modelled.
pub record Attrs : Type 0 where
  pub max_occurs : Option ℕ
  pub exc : Bool
  pub read_only : Bool
  pub nullable : Bool
  pub not_wrapped : Bool
  pub validate_freq : Bool
  pub empty_is_none : Bool
  pub default : Option Value

-- The classes: beside `Class`, their names, `__orig__`, what `get_subclasses` returns, and what
-- `_check_freq_dict` reads of a type of members.
pub record Types : Type 0 where
  pub classes : ℕ → Class
  pub is_attribute : ℕ → Bool
  pub kind : ℕ → Kind
  pub attrs : ℕ → Attrs
  pub type_name : ℕ → String
  pub orig : ℕ → Option ℕ
  pub subclasses : ℕ → List ℕ
  pub is_subclass : ℕ → ℕ → Bool
  pub occurs : ℕ → MemberType

-- The settings of a protocol, and the operations of types and of the language: `cast` is that of
-- `_cast` and `_parse`, `from_leaf` reads a simple type, `scalar_items` is what an iteration over a
-- scalar yields, if it can be iterated over.
pub record Protocol : Type 0 where
  pub ignore_wrappers : Bool
  pub soft : Bool
  pub decode_key : Option (ℕ → Option String)
  pub decode_name : ℕ → Result ℕ String
  pub cast : ℕ → Doc → Result ℕ Doc
  pub from_leaf : ℕ → Doc → Result ℕ Value
  pub is_unicode_source : Doc → Bool
  pub is_blank : Doc → Bool
  pub is_string : Doc → Bool
  pub validate_string : ℕ → Doc → Bool
  pub validate_native : ℕ → Value → Bool
  pub scalar_items : ℕ → Option Docs
  pub key_doc : Key → Doc
