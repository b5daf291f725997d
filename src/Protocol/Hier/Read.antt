-- ===== src/Protocol/Hier/Read.antt =====
-- `_doc_to_object` and `_from_dict_value` of spyne/protocol/dictdoc/hier.py.
use spyne.Prelude.{
  ℕ, zero, suc, nat_eq, string_eq, String, not, ◌&&◌, ◌||◌, Option, none, some, List, [], ◌∷◌, ◌++◌,
  map, if◌then◌else◌,
}
use spyne.Prelude.Dict
use spyne.Prelude.Dict.{Dict}
use spyne.Prelude.Exec.{Result, ok, err, with_ok, map_err}
use spyne.Model.Complex.{TypeInfo}
use spyne.Protocol.Frequencies.{check_freq_dict, count_of}
use spyne.Protocol.Hier.{
  Key, Doc, null, Value, nothing, raw, list, instance_of, no_values, HierError, out_of_fuel,
  validation, type_error, from_freq, exn, values_of, fields_of, check, Kind, any, array, complex,
  unicode, other, Types, Protocol,
}
use spyne.Protocol.Hier.Lookup.{
  more_than_one, or_self, to_append, or_empty_list, is_list, is_null, is_unicode, flat,
  flat_members, serializer, initial, included, find_member, unwrap, elements, key_name, pairs,
}

-- The variables of the loop over the members: the attributes of the instance, and `frequencies`.
pub record Filling : Type 0 where
  pub fields : Dict String Value
  pub frequencies : Dict String ℕ

module _ (p : Protocol) (t : Types) where
  -- `validate`
  unfoldable pub validate : ℕ → Doc → Result HierError (Unit {0})
  validate c inst =
      if is_null inst && (t.attrs c).nullable
      then ok tt
      else if is_unicode (t.kind c)
      then check (p.is_unicode_source inst)
      else ok tt

  -- a simple type
  abbrev pub read_leaf : ℕ → Doc → Result HierError Value
  read_leaf c inst =
      with_ok (check (not (p.soft && p.is_string inst && not (p.validate_string c inst))))
        (λ u. map_err exn (p.from_leaf c inst))

  abbrev pub blank_to_null : ℕ → Doc → Doc
  blank_to_null c inst = if (t.attrs c).empty_is_none && p.is_blank inst then null else inst

  abbrev pub read_kind :
      (ℕ → Doc → Result HierError Value) → Kind → ℕ → Doc → Result HierError Value
  read_kind doc_to_object any c inst = ok (raw inst)
  read_kind doc_to_object array c inst = doc_to_object c inst
  read_kind doc_to_object complex c inst = doc_to_object c inst
  read_kind doc_to_object unicode c inst = read_leaf c (blank_to_null c inst)
  read_kind doc_to_object other c inst = read_leaf c (blank_to_null c inst)

  -- `_from_dict_value`
  unfoldable pub from_dict_value :
      (ℕ → Doc → Result HierError Value) → ℕ → Doc → Result HierError Value
  unfolding validate
  from_dict_value doc_to_object c inst = with_ok (if p.soft then validate c inst else ok tt) (λ u.
      with_ok (map_err exn (p.cast c inst)) (λ parsed.
        with_ok (read_kind doc_to_object (t.kind c) c parsed) (λ retval.
          with_ok (check (not (p.soft && not (p.validate_native c retval)))) (λ v. ok retval))))

  -- `_from_dict_value` for each element
  unfoldable pub read_all :
      (ℕ → Doc → Result HierError Value) → ℕ → List Doc → Result HierError (List Value)
  unfolding from_dict_value
  read_all doc_to_object c [] = ok []
  read_all doc_to_object c (d ∷ docs) =
      with_ok (from_dict_value doc_to_object c d)
        (λ v. with_ok (read_all doc_to_object c docs) (λ vs. ok (v ∷ vs)))

  -- the value for a member that may occur more than once
  abbrev pub append_all :
      (ℕ → Doc → Result HierError Value)
      → ℕ
      → Option Value
      → Option (List Doc)
      → Result HierError Value
  append_all doc_to_object m subinst none = err type_error
  append_all doc_to_object m subinst (some []) = ok (or_empty_list subinst)
  append_all doc_to_object m subinst (some (d ∷ docs)) = with_ok (to_append subinst) (λ before.
      with_ok (read_all doc_to_object m (d ∷ docs)) (λ vs. ok (list (values_of (before ++ vs)))))

  unfoldable pub read_value :
      (ℕ → Doc → Result HierError Value) → ℕ → Option Value → Doc → Result HierError Value
  unfolding from_dict_value read_all
  read_value doc_to_object m subinst d =
      if more_than_one ((t.attrs m).max_occurs)
      then append_all doc_to_object m subinst (elements p t d)
      else from_dict_value doc_to_object m d

  -- `_safe_set`, which leaves out a read-only member, and the count. A list that is there already
  -- has got its new elements before, in place, whether or not the member is read-only.
  abbrev pub set_member : ℕ → String → Filling → Value → Filling
  set_member m k f v = record {
    fields =
        if (t.attrs m).read_only
          && not (more_than_one ((t.attrs m).max_occurs) && is_list (Dict.get f.fields k))
        then f.fields
        else Dict.put f.fields k v;
    frequencies = Dict.put f.frequencies k (suc (count_of f.frequencies k));
  }

  -- a member that is found
  abbrev pub fill_found :
      (ℕ → Doc → Result HierError Value)
      → Doc
      → Filling
      → Option (ℕ × String)
      → Result HierError Filling
  fill_found doc_to_object d f none = ok f
  fill_found doc_to_object d f (some (m, k)) =
      if (t.attrs m).exc
      then ok f
      else with_ok (read_value doc_to_object m (Dict.get f.fields k) d)
          (λ v. ok (set_member m k f v))

  abbrev pub fill_named :
      (ℕ → Doc → Result HierError Value)
      → TypeInfo
      → Doc
      → Filling
      → Option String
      → Result HierError Filling
  fill_named doc_to_object r d f none = ok f
  fill_named doc_to_object r d f (some k) = fill_found doc_to_object d f (find_member t r k)

  -- the loop over the pairs
  unfoldable pub fill :
      (ℕ → Doc → Result HierError Value)
      → TypeInfo
      → List (Key × Doc)
      → Filling
      → Result HierError Filling
  unfolding find_member read_value
  fill doc_to_object r [] f = ok f
  fill doc_to_object r ((k, d) ∷ rest) f =
      with_ok (key_name p t k)
        (λ name. with_ok (fill_named doc_to_object r d f name) (fill doc_to_object r rest))

  -- the check of the frequencies, and the instance
  unfoldable pub finish_instance : ℕ → TypeInfo → Filling → Result HierError Value
  unfolding check_freq_dict
  finish_instance c r f = with_ok (flat_members t r) (λ members.
      with_ok
        (if p.soft && (t.attrs c).validate_freq
          then map_err from_freq
              (check_freq_dict (map (λ m. (m.0, t.occurs m.1)) members) f.frequencies)
          else ok tt)
        (λ u. ok (instance_of (or_self c (t.orig c)) (fields_of f.fields))))

  -- the members of an instance that starts with the defaults of `own_members`
  unfoldable pub fill_instance :
      (ℕ → Doc → Result HierError Value)
      → ℕ
      → Doc
      → List (String × ℕ)
      → TypeInfo
      → Result HierError Value
  unfolding initial included fill finish_instance
  fill_instance doc_to_object c d own_members r = with_ok (pairs p t r d) (λ ps.
      with_ok
        (fill doc_to_object r ps (record { fields = initial t own_members; frequencies = [] }))
        (finish_instance c r))

  -- an instance of a class that is chosen, from the document in the wrapper
  unfoldable pub read_members :
      (ℕ → Doc → Result HierError Value) → ℕ → Doc → Result HierError Value
  unfolding fill_instance
  read_members doc_to_object c d = with_ok (flat t (or_self c (t.orig c))) (λ own.
      with_ok (flat_members t own)
        (λ own_members. with_ok (flat t c) (fill_instance doc_to_object c d own_members)))

  abbrev pub read_unwrapped :
      (ℕ → Doc → Result HierError Value) → Option (ℕ × Doc) → Result HierError Value
  read_unwrapped doc_to_object none = ok nothing
  read_unwrapped doc_to_object (some (c, d)) = read_members doc_to_object c d

  abbrev pub read_array :
      (ℕ → Doc → Result HierError Value) → ℕ → Option (List Doc) → Result HierError Value
  read_array doc_to_object e none = err validation
  read_array doc_to_object e (some docs) =
      with_ok (read_all doc_to_object e docs) (λ vs. ok (list (values_of vs)))

  -- `_doc_to_object` of a document that is not None
  unfoldable pub read_object :
      (ℕ → Doc → Result HierError Value) → Kind → ℕ → Doc → Result HierError Value
  unfolding unwrap read_all read_members
  read_object doc_to_object any c d = with_ok (map_err exn (p.cast c d)) (λ v. ok (raw v))
  read_object doc_to_object array c d =
      with_ok (map_err exn (p.cast c d))
        (λ v. with_ok (serializer t c) (λ e. read_array doc_to_object e (elements p t v)))
  read_object doc_to_object other_kind c d =
      if p.ignore_wrappers || (t.attrs c).not_wrapped
      then read_members doc_to_object c d
      else with_ok (unwrap p t c d) (read_unwrapped doc_to_object)

  -- `_doc_to_object`
  unfoldable pub doc_to_object : ℕ → ℕ → Doc → Result HierError Value
  unfolding read_object
  doc_to_object zero c d = err out_of_fuel
  doc_to_object (suc fuel) c d =
      if is_null d then ok (list no_values) else read_object (doc_to_object fuel) (t.kind c) c d
