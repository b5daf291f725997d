-- ===== src/Witness/Trees.antt =====
-- A type with a name and a list of names, and documents for it.
use mathlib.Core.Path.{subst}
use mathlib.Core.Option.{some-injective}
use spyne.Prelude.{
  ◌=?◌, ap, inl, inr, Bool-cases, Option-cases, ◌∙◌, ℕ, zero, suc, nat_eq, string_eq, ◌≡◌, ◌<◌,
  refl, sym, arith, String, true, false, Option, none, some, List, [], ◌∷◌,
}
use spyne.Prelude.Dict
use spyne.Prelude.Exec.{Result, ok, err, ok_injective}
use spyne.Util.Odict.{Odict, setitem, items, checked, merge, update, resolve}
use spyne.Model.Complex.{
  Class, TypeInfo, get_flat_type_info, flat_type_info, add_own, put_all, attributes,
}
use spyne.Protocol.Frequencies.{MemberType, bounds, check_freq_dict}
use spyne.Protocol.Hier.{
  text, Doc, null, scalar, seq, dict, nil, cons, entry, end, Value, simple, list, instance_of,
  values_of, fields_of, HierError, Kind, array, complex, unicode, Attrs, Types, Protocol,
}
use spyne.Protocol.Hier.Lookup.{
  flat, or_alt, flat_members, initial, included, zip_names, serializer, find_member,
}
use spyne.Protocol.Hier.Read.{
  fill, read_value, from_dict_value, read_all, validate, finish_instance, fill_instance,
  read_members, read_object, doc_to_object,
}
use spyne.Protocol.Hier.Checked.{IsConsistent}
use spyne.Protocol.Hier.Sound.{IsRead, read_members-IsRead}
use spyne.Protocol.Hier.Finish.{Finishes}
use spyne.Protocol.Hier.Ranked.{IsRanked, doc_to_object-Finishes}

abbrev person_members : Odict String ℕ
person_members = record { list = "name" ∷ "tags" ∷ []; dict = ("name", 0) ∷ ("tags", 1) ∷ [] }

abbrev array_members : Odict String ℕ
array_members = record { list = "string" ∷ []; dict = ("string", 0) ∷ [] }

abbrev no_table : Odict String ℕ
no_table = record { list = []; dict = [] }

-- Unicode, an Array of it, and the class.
abbrev classes : ℕ → Class
classes (suc zero) = record { extends = none; type_info = array_members; type_info_alt = [] }
classes (suc (suc zero)) = record { extends = none; type_info = person_members; type_info_alt = [] }
classes c = record { extends = none; type_info = no_table; type_info_alt = [] }

abbrev kind : ℕ → Kind
kind (suc zero) = array
kind (suc (suc zero)) = complex
kind c = unicode

abbrev attrs : Attrs
attrs = record {
  max_occurs = some 1;
  exc = false;
  read_only = false;
  nullable = true;
  not_wrapped = false;
  validate_freq = true;
  empty_is_none = false;
  default = none;
}

abbrev occurs : MemberType
occurs = record {
  attrs = record { min_occurs = 0; max_occurs = some 1 };
  own_max = some 1;
  item = none;
}

abbrev pub tree_types : Types
tree_types = record {
  classes = classes;
  is_attribute = λ c. false;
  kind = kind;
  attrs = λ c. attrs;
  type_name = λ c. "Person";
  orig = λ c. none;
  subclasses = λ c. [];
  is_subclass = λ s c. false;
  occurs = λ c. occurs;
}

abbrev pub protocol : Protocol
protocol = record {
  ignore_wrappers = true;
  soft = true;
  decode_key = none;
  decode_name = λ b. err 0;
  cast = λ c d. ok d;
  from_leaf = λ c d. ok (simple 7);
  is_unicode_source = λ d. true;
  is_blank = λ d. false;
  is_string = λ d. true;
  validate_string = λ c d. true;
  validate_native = λ c v. true;
  scalar_items = λ s. some (cons (scalar s) nil);
  key_doc = λ k. null;
}

abbrev rank : ℕ → ℕ
rank (suc zero) = 1
rank (suc (suc zero)) = 2
rank c = 0

found_array :
    (n k : String) (m : ℕ)
    → or_alt tree_types none n (Dict.get array_members.dict n) ≡ some (m, k)
    → rank m < 1
unfolding Dict.get
found_array n k m e = elim (Bool-cases ("string" =? n)) [
  | inl same ↦
      let g : ◌≡◌ {A = Option (ℕ × String)} (some (0, n)) (some (m, k)) = rw same at e in
      subst (λ x. rank x < 1) (ap (λ z. z.0) (some-injective _ _ g)) (omega arith)
  | inr differ ↦ absurd (cc (rw differ at e))
]

found_person :
    (n k : String) (m : ℕ)
    → or_alt tree_types none n (Dict.get person_members.dict n) ≡ some (m, k)
    → rank m < 2
unfolding Dict.get
found_person n k m e = elim (Bool-cases ("name" =? n)) [
  | inl same ↦
      let g : ◌≡◌ {A = Option (ℕ × String)} (some (0, n)) (some (m, k)) = rw same at e in
      subst (λ x. rank x < 2) (ap (λ z. z.0) (some-injective _ _ g)) (omega arith)
  | inr differ ↦ elim (Bool-cases ("tags" =? n)) [
    | inl same ↦
        let g : ◌≡◌ {A = Option (ℕ × String)} (some (1, n)) (some (m, k)) =
          rw (differ, same) at e in
        subst (λ x. rank x < 2) (ap (λ z. z.0) (some-injective _ _ g)) (omega arith)
    | inr differ' ↦ absurd (cc (rw (differ, differ') at e))
  ]
]

ranked : IsRanked protocol tree_types rank
unfolding get_flat_type_info flat_type_info add_own put_all attributes merge update resolve setitem
    items checked find_member Dict.get Dict.put
ranked = record {
  item_rank = item_rank;
  member_rank = member_rank;
  subclass_rank = λ c s e. absurd (cc e);
}
  where
    item_rank : (c e : ℕ) → kind c ≡ array → serializer tree_types c ≡ ok e → rank e < rank c
    item_rank zero e k f = absurd (cc k)
    item_rank (suc zero) e k f = subst (λ x. rank x < 1) (ok_injective 0 e f) (omega arith)
    item_rank (suc (suc zero)) e k f = absurd (cc k)
    item_rank (suc (suc (suc c))) e k f = absurd (cc k)

    member_rank :
        (c : ℕ) (r : TypeInfo) (m : ℕ) (n k : String)
        → flat tree_types c ≡ ok r
        → find_member tree_types r n ≡ some (m, k)
        → rank m < rank c
    member_rank zero r m n k e f =
        absurd
          (cc (subst (λ x. find_member tree_types x n ≡ some (m, k)) (sym (ok_injective _ r e)) f))
    member_rank (suc zero) r m n k e f =
        found_array n k m
          (subst (λ x. find_member tree_types x n ≡ some (m, k)) (sym (ok_injective _ r e)) f)
    member_rank (suc (suc zero)) r m n k e f =
        found_person n k m
          (subst (λ x. find_member tree_types x n ≡ some (m, k)) (sym (ok_injective _ r e)) f)
    member_rank (suc (suc (suc c))) r m n k e f =
        absurd
          (cc (subst (λ x. find_member tree_types x n ≡ some (m, k)) (sym (ok_injective _ r e)) f))

doc_to_object-Finishes_example : Finishes (
    doc_to_object protocol tree_types 3 2
      (dict (entry (text "name") (scalar 1) (entry (text "tags") (seq (cons (scalar 2) nil)) end))))
doc_to_object-Finishes_example =
    doc_to_object-Finishes protocol tree_types rank 3 2
      (dict (entry (text "name") (scalar 1) (entry (text "tags") (seq (cons (scalar 2) nil)) end)))
      ranked (omega arith)

-- a document for Person, in its order
abbrev listed : Doc
listed = seq (cons (scalar 1) (cons (seq (cons (scalar 2) nil)) nil))

abbrev person : Value
person =
    instance_of 2 (fields_of (("name", simple 7) ∷ ("tags", list (values_of (simple 7 ∷ []))) ∷ []))

abbrev recurse : ℕ → Doc → Result HierError Value
recurse = doc_to_object protocol tree_types 2

read : read_members protocol tree_types recurse 2 listed ≡ ok person
unfolding get_flat_type_info flat_type_info add_own put_all attributes merge update resolve setitem
    items checked find_member initial included fill read_value from_dict_value read_all validate
    zip_names finish_instance fill_instance read_members read_object doc_to_object check_freq_dict
    bounds Dict.get Dict.put
read = refl

no_alt-IsConsistent : (r : TypeInfo) → r.alt ≡ [] → IsConsistent protocol tree_types recurse r
unfolding find_member Dict.get
no_alt-IsConsistent r e = record { member_of = λ n k m f. member_of n k m f }
  where
    member_of :
        (n k : String) (m : ℕ)
        → find_member tree_types r n ≡ some (m, k)
        → Dict.get r.members.dict k ≡ some m
    member_of n k m f = elim (Option-cases (Dict.get r.members.dict n)) [
      | inl absent ↦ absurd (cc (rw (absent, e) at f))
      | inr (m', present) ↦
          let g : ◌≡◌ {A = Option (ℕ × String)} (some (m', n)) (some (m, k)) = rw present at f in
          let pair = some-injective _ _ g in
          subst (λ x. Dict.get r.members.dict x ≡ some m) (ap (λ z. z.1) pair)
            (present ∙ ap some (ap (λ z. z.0) pair))
    ]

consistent : (r : TypeInfo) → flat tree_types 2 ≡ ok r → IsConsistent protocol tree_types recurse r
unfolding get_flat_type_info flat_type_info add_own put_all attributes merge update resolve setitem
    items checked Dict.get Dict.put
consistent r e = no_alt-IsConsistent r (sym (ap (λ x. x.alt) (ok_injective _ r e)))

read_members-IsRead_example :
    (own r : TypeInfo) × (own_members : List (String × ℕ)) × (flat tree_types 2 ≡ ok own)
    × (flat_members tree_types own ≡ ok own_members)
    × (flat tree_types 2 ≡ ok r)
    × IsRead protocol tree_types recurse 2 listed own_members r person
read_members-IsRead_example =
    read_members-IsRead protocol tree_types recurse 2 listed person refl consistent (λ m vs e. cc e)
      read
