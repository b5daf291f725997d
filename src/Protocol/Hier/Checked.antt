-- ===== src/Protocol/Hier/Checked.antt =====
-- Values that pass soft validation, and what `_doc_to_object` of spyne/protocol/dictdoc/hier.py gives
-- a member.
use mathlib.Core.Path.{subst}
use mathlib.Core.Option.{some-injective}
use mathlib.Core.List.{append_assoc}
use spyne.Prelude.{
  ℕ, nat_eq, string_eq, ◌≡◌, ◌⊎◌, refl, sym, ap, ◌∙◌, inl, inr, arith, String, Bool, true, false,
  not, ◌&&◌, Option, none, some, List, [], ◌∷◌, ◌++◌, All, All-append, if◌then◌else◌, Bool-cases,
}
use spyne.Prelude.Dict
use spyne.Prelude.Dict.{Dict, get-put}
use spyne.Prelude.Exec.{Result, ok, map_err, with_ok_cases, ok_injective}
use spyne.Model.Complex.{TypeInfo}
use spyne.Protocol.Hier.{
  Doc, Value, nothing, list, simple, raw, instance_of, HierError, exn, values_of, check, Types,
  Protocol,
}
use spyne.Protocol.Hier.Lookup.{find_member, elements, to_append, more_than_one, list_of_values}
use spyne.Protocol.Hier.Read.{
  from_dict_value, read_kind, validate, read_all, append_all, read_value,
}

list_of_values-values_of : (l : List Value) → list_of_values (values_of l) ≡ l
list_of_values-values_of [] = refl
list_of_values-values_of (v ∷ l) = ap (λ m. v ∷ m) (list_of_values-values_of l)

checked_true : (b : Bool) (u : Unit {0}) → check b ≡ ok u → b ≡ true
checked_true true u h = refl
checked_true false u h = absurd (cc h)

module _ (p : Protocol) (t : Types) (rec : ℕ → Doc → Result HierError Value) where
  abbrev pub Passes : ℕ → Value → Type 0
  Passes m v = p.validate_native m v ≡ true

  from_dict_value-Passes :
      (m : ℕ) (d : Doc) (v : Value)
      → p.soft ≡ true
      → from_dict_value p t rec m d ≡ ok v
      → Passes m v
  unfolding from_dict_value
  from_dict_value-Passes m d v soft h =
      let (u, e1, h1) = with_ok_cases (if p.soft then validate p t m d else ok tt) _ v h in
      let (parsed, e2, h2) = with_ok_cases (map_err exn (p.cast m d)) _ v h1 in
      let (w, e3, h3) = with_ok_cases (read_kind p t rec (t.kind m) m parsed) _ v h2 in
      let (u', e4, h4) =
        with_ok_cases (check (not (p.soft && not (p.validate_native m w)))) _ v h3 in
      let same : w ≡ v = ok_injective w v h4 in
      let passed = checked_true _ u' e4 in subst (Passes m) same (ground (arith, passed, soft))

  read_all-Passes :
      (m : ℕ) (docs : List Doc) (vs : List Value)
      → p.soft ≡ true
      → read_all p t rec m docs ≡ ok vs
      → All (Passes m) vs
  unfolding read_all
  read_all-Passes m [] vs soft h = subst (All (Passes m)) (ok_injective [] vs h) tt
  read_all-Passes m (d ∷ docs) vs soft h =
      let (v, e1, h1) = with_ok_cases (from_dict_value p t rec m d) _ vs h in
      let (rest, e2, h2) = with_ok_cases (read_all p t rec m docs) _ vs h1 in
      subst (All (Passes m)) (ok_injective (v ∷ rest) vs h2)
        (from_dict_value-Passes m d v soft e1, read_all-Passes m docs rest soft e2)

  -- A value that a member is given whose attribute was `before` at first: one that passes, or the
  -- elements of the list that it was, and further ones that pass.
  pub data Given (m : ℕ) (before : Option Value) : Value → Type 0 where
    single :
        (v : Value) → more_than_one ((t.attrs m).max_occurs) ≡ false → Passes m v → Given m before v
    several :
        (old new : List Value)
        → more_than_one ((t.attrs m).max_occurs) ≡ true
        → to_append before ≡ ok old
        → All (Passes m) new
        → Given m before (list (values_of (old ++ new)))

  -- An attribute that still is what it was, or was given to a member that may be set.
  pub data Holds (r : TypeInfo) (k : String) (before now : Option Value) : Type 0 where
    same : now ≡ before → Holds r k before now
    given :
        {m : ℕ} {v : Value}
        → Dict.get r.members.dict k ≡ some m
        → (t.attrs m).exc ≡ false
        → (t.attrs m).read_only ≡ false
        → Given m before v
        → now ≡ some v
        → Holds r k before now

  -- The other names of members are those of members with the same type.
  pub record IsConsistent (r : TypeInfo) : Type 0 where
    pub member_of :
        (n k : String) (m : ℕ)
        → find_member t r n ≡ some (m, k)
        → Dict.get r.members.dict k ≡ some m

  appended :
      (m : ℕ) (k : String) (r : TypeInfo) (before now : Option Value) (old new : List Value)
      → Dict.get r.members.dict k ≡ some m
      → more_than_one ((t.attrs m).max_occurs) ≡ true
      → Holds r k before now
      → to_append now ≡ ok old
      → All (Passes m) new
      → Given m before (list (values_of (old ++ new)))
  appended m k r before now old new e many (same q) h passes =
      several old new many (sym (ap to_append q) ∙ h) passes
  appended m k r before now old new e many (given {m = m'} e' exc ro (single v few pass) q) h
        passes =
      absurd (
        cc (
          sym few
          ∙ ap (λ x. more_than_one ((t.attrs x).max_occurs)) (some-injective m' m (sym e' ∙ e))
          ∙ many))
  appended m k r before now old new e many
        (given {m = m'} e' exc ro (several old' new' many' h' passes') q) h passes =
      let same_type : m' ≡ m = some-injective m' m (sym e' ∙ e) in
      let old_is : old' ++ new' ≡ old =
        sym (list_of_values-values_of (old' ++ new'))
        ∙ ok_injective (list_of_values (values_of (old' ++ new'))) old (sym (ap to_append q) ∙ h) in
      let whole : old' ++ (new' ++ new) ≡ old ++ new =
        sym (append_assoc old' new' new) ∙ ap (λ l. l ++ new) old_is in
      subst (λ l. Given m before (list (values_of l))) whole
        (several old' (new' ++ new) many h' (
          All-append (Passes m) new' new (subst (λ x. All (Passes x) new') same_type passes')
            passes))

  append_all-Given :
      (m : ℕ) (k : String) (r : TypeInfo) (before now : Option Value) (docs : Option (List Doc))
      (v : Value)
      → p.soft ≡ true
      → Dict.get r.members.dict k ≡ some m
      → more_than_one ((t.attrs m).max_occurs) ≡ true
      → Holds r k before now
      → append_all p t rec m now docs ≡ ok v
      → (now ≡ some v) ⊎ Given m before v
  append_all-Given m k r before now none v soft e many holds h = absurd (cc h)
  append_all-Given m k r before none (some []) v soft e many holds h = inr (
      subst (Given m before) (ok_injective _ v h)
        (appended m k r before none [] [] e many holds refl tt))
  append_all-Given m k r before (some nothing) (some []) v soft e many holds h = inr (
      subst (Given m before) (ok_injective _ v h)
        (appended m k r before (some nothing) [] [] e many holds refl tt))
  append_all-Given m k r before (some (simple n)) (some []) v soft e many holds h =
      inl (ap some (ok_injective _ v h))
  append_all-Given m k r before (some (raw d)) (some []) v soft e many holds h =
      inl (ap some (ok_injective _ v h))
  append_all-Given m k r before (some (list vs)) (some []) v soft e many holds h =
      inl (ap some (ok_injective _ v h))
  append_all-Given m k r before (some (instance_of c f)) (some []) v soft e many holds h =
      inl (ap some (ok_injective _ v h))
  append_all-Given m k r before now (some (d ∷ docs)) v soft e many holds h =
      let (old, e1, h1) = with_ok_cases (to_append now) _ v h in
      let (new, e2, h2) = with_ok_cases (read_all p t rec m (d ∷ docs)) _ v h1 in
      inr (
        subst (Given m before) (ok_injective (list (values_of (old ++ new))) v h2) (
          appended m k r before now old new e many holds e1
            (read_all-Passes m (d ∷ docs) new soft e2)))

  -- Reading a member again leaves its attribute as it is, or gives it a value.
  pub read_value-Given :
      (m : ℕ) (k : String) (r : TypeInfo) (d : Doc) (before now : Option Value) (v : Value)
      → p.soft ≡ true
      → Dict.get r.members.dict k ≡ some m
      → Holds r k before now
      → read_value p t rec m now d ≡ ok v
      → (now ≡ some v) ⊎ Given m before v
  unfolding read_value
  read_value-Given m k r d before now v soft e holds h =
      elim (Bool-cases (more_than_one ((t.attrs m).max_occurs))) [
        | inl many ↦
            append_all-Given m k r before now (elements p t d) v soft e many holds (rw many at h)
        | inr few ↦ inr (single v few (from_dict_value-Passes m d v soft (rw few at h)))
      ]
