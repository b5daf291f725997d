-- ===== src/Protocol/Hier/Sound.antt =====
-- What soft validation guarantees of an instance that `_doc_to_object` of
-- spyne/protocol/dictdoc/hier.py returns.
use mathlib.Core.Path.{subst}
use mathlib.Core.Option.{some-injective}
use spyne.Prelude.{
  ℕ, nat_eq, string_eq, ◌≡◌, refl, sym, ap, ◌∙◌, arith, String, true, ◌&&◌, ◌=?◌, inl, inr,
  Bool-cases, Option, none, some, ◌∷◌, List, [], map, All, if◌then◌else◌,
}
use spyne.Prelude.Dict
use spyne.Prelude.Dict.{Dict, get-put}
use spyne.Prelude.Exec.{Result, ok, map_err, with_ok_cases, map_err_cases, ok_injective}
use spyne.Model.Complex.{TypeInfo}
use spyne.Protocol.Hier.{
  Key, Doc, Value, Values, list, instance_of, HierError, from_freq, fields_of, Types, Protocol,
}
use spyne.Protocol.Hier.Lookup.{flat, flat_members, initial, pairs, or_self, default_value}
use spyne.Protocol.Hier.Read.{Filling, fill, read_members, finish_instance, fill_instance}
use spyne.Protocol.Frequencies.{
  MemberType, Fits, Reports, check_freq_dict, check_freq_dict-Reports, count_of,
}
use spyne.Protocol.Hier.Checked.{same, IsConsistent}
use spyne.Protocol.Hier.Filled.{HasNoList, HoldsAll, occurrences, fill-HoldsAll, fill-occurrences}

-- No member has a list as its default.
abbrev pub HasNoListDefault : Types → Type 0
HasNoListDefault t = (m : ℕ) (vs : Values) → ¬ ((t.attrs m).default ≡ some (list vs))

default_value-list :
    (o : Option Value) (vs : Values) → default_value o ≡ list vs → o ≡ some (list vs)
default_value-list none vs e = absurd (cc e)
default_value-list (some v) vs e = ap some e

initial-HasNoList :
    (t : Types) (members : List (String × ℕ)) → HasNoListDefault t → HasNoList (initial t members)
unfolding initial Dict.get
initial-HasNoList t [] no_list k vs e = absurd (cc e)
initial-HasNoList t ((j, m) ∷ members) no_list k vs e = elim (Bool-cases (j =? k)) [
  | inl here ↦
      no_list m vs (default_value-list (t.attrs m).default vs (some-injective _ _ (rw here at e)))
  | inr further ↦ initial-HasNoList t members no_list k vs (rw further at e)
]

module _ (p : Protocol) (t : Types) (rec : ℕ → Doc → Result HierError Value) where
  -- What is known of an instance of class `c`, with the attributes and counts of `f`.
  pub record IsFinished (c : ℕ) (r : TypeInfo) (f : Filling) (v : Value) : Type 0 where
    pub members : List (String × ℕ)
    pub members_are : flat_members t r ≡ ok members
    pub instance_is : v ≡ instance_of (or_self c (t.orig c)) (fields_of f.fields)
    pub fits :
        (t.attrs c).validate_freq ≡ true
        → All (Fits f.frequencies) (map (λ m. (m.0, t.occurs m.1)) members)

  reported :
      (d : Dict String ℕ) (l : List (String × MemberType)) (u : Unit {0})
      → map_err from_freq (check_freq_dict l d) ≡ ok u
      → All (Fits d) l
  reported d l u h =
      let e : check_freq_dict l d ≡ ok u = map_err_cases from_freq (check_freq_dict l d) u h in
      subst (Reports d l) e (check_freq_dict-Reports l d)

  finish_instance-IsFinished :
      (c : ℕ) (r : TypeInfo) (f : Filling) (v : Value)
      → p.soft ≡ true
      → finish_instance p t c r f ≡ ok v
      → IsFinished c r f v
  unfolding finish_instance
  finish_instance-IsFinished c r f v soft h =
      let (members, e, h1) = with_ok_cases (flat_members t r) _ v h in
      let types = map (λ m. (m.0, t.occurs m.1)) members in
      let (u, e', h2) =
        with_ok_cases
          (if p.soft && (t.attrs c).validate_freq
            then map_err from_freq (check_freq_dict types f.frequencies)
            else ok tt)
          _ v h1 in
      record {
        members = members;
        members_are = e;
        instance_is =
            sym (ok_injective (instance_of (or_self c (t.orig c)) (fields_of f.fields)) v h2);
        fits = λ validates. reported f.frequencies types u (rw (soft, validates) at e');
      }

  -- An instance of class `c` that is read from `d`, after `__init__` with the members `own_members`.
  pub record IsRead (c : ℕ) (d : Doc) (own_members : List (String × ℕ)) (r : TypeInfo) (v : Value)
      : Type 0 where
    pub found : List (Key × Doc)
    pub found_in : pairs p t r d ≡ ok found
    pub filling : Filling
    pub finished : IsFinished c r filling v
    pub holds : HoldsAll p t rec r (initial t own_members) filling.fields
    pub counted : (j : String) → count_of filling.frequencies j ≡ occurrences p t rec r j found

  fill_instance-IsRead :
      (c : ℕ) (d : Doc) (own_members : List (String × ℕ)) (r : TypeInfo) (v : Value)
      → p.soft ≡ true
      → IsConsistent p t rec r
      → HasNoListDefault t
      → fill_instance p t rec c d own_members r ≡ ok v
      → IsRead c d own_members r v
  unfolding fill_instance Dict.get
  fill_instance-IsRead c d own_members r v soft consistent no_list h =
      let start : Filling = record { fields = initial t own_members; frequencies = [] } in
      let (ps, e, h1) = with_ok_cases (pairs p t r d) _ v h in
      let (f, e', h2) = with_ok_cases (fill p t rec r ps start) (finish_instance p t c r) v h1 in
      record {
        found = ps;
        found_in = e;
        filling = f;
        finished = finish_instance-IsFinished c r f v soft h2;
        holds =
            fill-HoldsAll p t rec r (initial t own_members) ps start f soft consistent
              (initial-HasNoList t own_members no_list) (λ k. same refl) e';
        counted = λ j. fill-occurrences p t rec r ps start f j e' ∙ omega arith;
      }

  -- Under soft validation, where the other names of members stand for members with the same type
  -- and no default is a list, which all instances would share:
  -- the attributes of an instance that is read are what `__init__` made them, or were given to a
  -- member that is neither excluded nor read-only, as a value that passes the validation of its
  -- type, or with further elements that all pass. If the class validates frequencies, the number
  -- of keys that lead to a member is within its bounds.
  pub read_members-IsRead :
      (c : ℕ) (d : Doc) (v : Value)
      → p.soft ≡ true
      → ((r : TypeInfo) → flat t c ≡ ok r → IsConsistent p t rec r)
      → HasNoListDefault t
      → read_members p t rec c d ≡ ok v
      → (own r : TypeInfo) × (own_members : List (String × ℕ)) × (flat t (or_self c (t.orig c))
          ≡ ok own)
        × (flat_members t own ≡ ok own_members)
        × (flat t c ≡ ok r)
        × IsRead c d own_members r v
  unfolding read_members
  read_members-IsRead c d v soft consistent no_list h =
      let (own, e1, h1) = with_ok_cases (flat t (or_self c (t.orig c))) _ v h in
      let (own_members, e2, h2) = with_ok_cases (flat_members t own) _ v h1 in
      let (r, e3, h3) = with_ok_cases (flat t c) (fill_instance p t rec c d own_members) v h2 in
      (
        own,
        r,
        own_members,
        e1,
        e2,
        e3,
        fill_instance-IsRead c d own_members r v soft (consistent r e3) no_list h3,
      )
