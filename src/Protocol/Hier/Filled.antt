-- ===== src/Protocol/Hier/Filled.antt =====
-- The attributes of an instance that `_doc_to_object` of spyne/protocol/dictdoc/hier.py returns, and
-- how often its members are counted.
use mathlib.Core.Path.{subst}
use mathlib.Core.Option.{some-injective}
use spyne.Prelude.{
  ◌+◌, ℕ, suc, nat_eq, string_eq, ◌≡◌, ◌⊎◌, refl, sym, ap, ◌∙◌, inl, inr, arith, String, true,
  false, Option, none, some, List, [], ◌∷◌, ◌=?◌, if◌then◌else◌, Bool-cases, eq_of_beq,
}
use spyne.Prelude.Dict
use spyne.Prelude.Dict.{Dict, get-put}
use spyne.Prelude.Exec.{Result, ok, with_ok_cases, ok_injective}
use spyne.Model.Complex.{TypeInfo}
use spyne.Protocol.Hier.{
  Key, Doc, Value, Values, nothing, simple, raw, list, instance_of, HierError, Types, Protocol,
}
use spyne.Protocol.Hier.Lookup.{find_member, key_name, is_list}
use spyne.Protocol.Hier.Read.{Filling, read_value, set_member, fill_found, fill_named, fill}
use spyne.Protocol.Frequencies.{count_of}
use spyne.Protocol.Hier.Checked.{Holds, same, given, Given, IsConsistent, read_value-Given}

-- No attribute is a list.
abbrev pub HasNoList : Dict String Value → Type 0
HasNoList d = (k : String) (vs : Values) → ¬ (Dict.get d k ≡ some (list vs))

is_list-some : (o : Option Value) → is_list o ≡ true → (vs : Values) × (o ≡ some (list vs))
is_list-some none h = absurd (cc h)
is_list-some (some nothing) h = absurd (cc h)
is_list-some (some (simple n)) h = absurd (cc h)
is_list-some (some (raw d)) h = absurd (cc h)
is_list-some (some (list vs)) h = (vs, refl)
is_list-some (some (instance_of c f)) h = absurd (cc h)

module _ (p : Protocol) (t : Types) (rec : ℕ → Doc → Result HierError Value) where
  abbrev pub counts : String → Option (ℕ × String) → ℕ
  counts j none = 0
  counts j (some (m, k)) = if (t.attrs m).exc then 0 else if k =? j then 1 else 0

  abbrev pub counts_named : TypeInfo → String → Result HierError (Option String) → ℕ
  counts_named r j (ok (some n)) = counts j (find_member t r n)
  counts_named r j name = 0

  -- How many of the pairs lead to the member with a name, and are not excluded.
  abbrev pub occurrences : TypeInfo → String → List (Key × Doc) → ℕ
  occurrences r j [] = 0
  occurrences r j ((k, d) ∷ ps) = counts_named r j (key_name p t k) + occurrences r j ps

  abbrev pub HoldsAll : TypeInfo → Dict String Value → Dict String Value → Type 0
  HoldsAll r before now = (k : String) → Holds p t rec r k (Dict.get before k) (Dict.get now k)

  holds_put :
      (r : TypeInfo) (before now : Dict String Value) (m : ℕ) (k : String) (v : Value)
      → HoldsAll r before now
      → Dict.get r.members.dict k ≡ some m
      → (t.attrs m).exc ≡ false
      → (t.attrs m).read_only ≡ false
      → (Dict.get now k ≡ some v) ⊎ Given p t rec m (Dict.get before k) v
      → HoldsAll r before (Dict.put now k v)
  holds_put r before now m k v holds e exc ro new j = elim (Bool-cases (k =? j)) [
    | inl same_name ↦
        let stored : Dict.get (Dict.put now k v) j ≡ some v =
          get-put now k j v ∙ rw same_name refl in
        subst
          (λ i.
            Dict.get (Dict.put now k v) i ≡ some v
            → Holds p t rec r i (Dict.get before i) (Dict.get (Dict.put now k v) i))
          (eq_of_beq k j same_name)
          (λ q. elim new [
            | inl kept ↦ subst (Holds p t rec r k (Dict.get before k)) (kept ∙ sym q) (holds k)
            | inr g ↦ given e exc ro g q
          ])
          stored
    | inr differ ↦
        let kept : Dict.get (Dict.put now k v) j ≡ Dict.get now j =
          get-put now k j v ∙ rw differ refl in
        subst (Holds p t rec r j (Dict.get before j)) (sym kept) (holds j)
  ]

  -- A list that is not there at first is given, so that the member is not read-only.
  extended :
      (r : TypeInfo) (before now : Dict String Value) (m : ℕ) (k : String)
      → HasNoList before
      → HoldsAll r before now
      → Dict.get r.members.dict k ≡ some m
      → is_list (Dict.get now k) ≡ true
      → (t.attrs m).read_only ≡ false
  extended r before now m k no_list holds e h = elim (holds k) [
    | same q ↦ let (vs, g) = is_list-some (Dict.get now k) h in absurd (no_list k vs (sym q ∙ g))
    | given {m = m'} e' exc ro g q ↦
        subst (λ x. (t.attrs x).read_only ≡ false) (some-injective m' m (sym e' ∙ e)) ro
  ]

  set_member-HoldsAll :
      (r : TypeInfo) (before : Dict String Value) (m : ℕ) (k : String) (v : Value) (f : Filling)
      → HasNoList before
      → HoldsAll r before f.fields
      → Dict.get r.members.dict k ≡ some m
      → (t.attrs m).exc ≡ false
      → (Dict.get f.fields k ≡ some v) ⊎ Given p t rec m (Dict.get before k) v
      → HoldsAll r before (set_member p t m k f v).fields
  set_member-HoldsAll r before m k v f no_list holds e exc new =
      elim (Bool-cases ((t.attrs m).read_only)) [
        | inl ro ↦ elim (Bool-cases (is_list (Dict.get f.fields k))) [
          | inl listed ↦
              absurd (cc (sym ro ∙ extended r before f.fields m k no_list holds e listed))
          | inr other ↦ subst (HoldsAll r before) (sym (ground (arith, ro, other))) holds
        ]
        | inr ro ↦
            subst (HoldsAll r before) (sym (rw ro refl))
              (holds_put r before f.fields m k v holds e exc ro new)
      ]

  fill_found-HoldsAll :
      (r : TypeInfo) (before : Dict String Value) (d : Doc) (f f' : Filling)
      (o : Option (ℕ × String))
      → p.soft ≡ true
      → ((m : ℕ) (k : String) → o ≡ some (m, k) → Dict.get r.members.dict k ≡ some m)
      → HasNoList before
      → HoldsAll r before f.fields
      → fill_found p t rec d f o ≡ ok f'
      → HoldsAll r before f'.fields
  fill_found-HoldsAll r before d f f' none soft found no_list holds h =
      subst (λ x. HoldsAll r before x.fields) (ok_injective f f' h) holds
  fill_found-HoldsAll r before d f f' (some (m, k)) soft found no_list holds h =
      elim (Bool-cases ((t.attrs m).exc)) [
        | inl exc ↦ subst (λ x. HoldsAll r before x.fields) (ok_injective f f' (rw exc at h)) holds
        | inr exc ↦
            let e = found m k refl in
            let (v, read, made) =
              with_ok_cases (read_value p t rec m (Dict.get f.fields k) d)
                (λ v. ok (set_member p t m k f v)) f' (rw exc at h) in
            subst (λ x. HoldsAll r before x.fields) (ok_injective (set_member p t m k f v) f' made)
              (set_member-HoldsAll r before m k v f no_list holds e exc (
                read_value-Given p t rec m k r d (Dict.get before k) (Dict.get f.fields k) v soft e
                  (holds k) read))
      ]

  fill_named-HoldsAll :
      (r : TypeInfo) (before : Dict String Value) (d : Doc) (f f' : Filling) (o : Option String)
      → p.soft ≡ true
      → IsConsistent p t rec r
      → HasNoList before
      → HoldsAll r before f.fields
      → fill_named p t rec r d f o ≡ ok f'
      → HoldsAll r before f'.fields
  fill_named-HoldsAll r before d f f' none soft c no_list holds h =
      subst (λ x. HoldsAll r before x.fields) (ok_injective f f' h) holds
  fill_named-HoldsAll r before d f f' (some n) soft c no_list holds h =
      fill_found-HoldsAll r before d f f' (find_member t r n) soft (λ m k. c.member_of n k m)
        no_list holds h

  pub fill-HoldsAll :
      (r : TypeInfo) (before : Dict String Value) (ps : List (Key × Doc)) (f f' : Filling)
      → p.soft ≡ true
      → IsConsistent p t rec r
      → HasNoList before
      → HoldsAll r before f.fields
      → fill p t rec r ps f ≡ ok f'
      → HoldsAll r before f'.fields
  unfolding fill
  fill-HoldsAll r before [] f f' soft c no_list holds h =
      subst (λ x. HoldsAll r before x.fields) (ok_injective f f' h) holds
  fill-HoldsAll r before ((k, d) ∷ rest) f f' soft c no_list holds h =
      let (name, e1, h1) = with_ok_cases (key_name p t k) _ f' h in
      let (f1, e2, h2) =
        with_ok_cases (fill_named p t rec r d f name) (fill p t rec r rest) f' h1 in
      fill-HoldsAll r before rest f1 f' soft c no_list
        (fill_named-HoldsAll r before d f f1 name soft c no_list holds e2) h2

  count_put :
      (d : Dict String ℕ) (k j : String)
      → count_of (Dict.put d k (suc (count_of d k))) j ≡ count_of d j + (if k =? j then 1 else 0)
  count_put d k j = elim (Bool-cases (k =? j)) [
    | inl e ↦
        let new : count_of (Dict.put d k (suc (count_of d k))) j ≡ suc (count_of d k) =
          rw (get-put d k j (suc (count_of d k)), e) refl in
        rw e (omega (arith, new, ap (count_of d) (eq_of_beq k j e)))
    | inr e ↦
        let old : count_of (Dict.put d k (suc (count_of d k))) j ≡ count_of d j =
          rw (get-put d k j (suc (count_of d k)), e) refl in
        rw e (omega (arith, old))
  ]

  fill_found-counts :
      (d : Doc) (f f' : Filling) (o : Option (ℕ × String)) (j : String)
      → fill_found p t rec d f o ≡ ok f'
      → count_of f'.frequencies j ≡ count_of f.frequencies j + counts j o
  fill_found-counts d f f' none j h =
      omega (arith, ap (λ x. count_of x.frequencies j) (ok_injective f f' h))
  fill_found-counts d f f' (some (m, k)) j h = elim (Bool-cases ((t.attrs m).exc)) [
    | inl exc ↦
        let kept = ap (λ x. count_of x.frequencies j) (ok_injective f f' (rw exc at h)) in
        rw exc (omega (arith, kept))
    | inr exc ↦
        let (v, read, made) =
          with_ok_cases (read_value p t rec m (Dict.get f.fields k) d)
            (λ v. ok (set_member p t m k f v)) f' (rw exc at h) in
        let set =
          ap (λ x. count_of x.frequencies j) (ok_injective (set_member p t m k f v) f' made) in
        rw exc (sym set ∙ count_put f.frequencies k j)
  ]

  fill_named-counts :
      (r : TypeInfo) (d : Doc) (f f' : Filling) (o : Option String) (j : String)
      → fill_named p t rec r d f o ≡ ok f'
      → count_of f'.frequencies j ≡ count_of f.frequencies j + counts_named r j (ok o)
  fill_named-counts r d f f' none j h =
      omega (arith, ap (λ x. count_of x.frequencies j) (ok_injective f f' h))
  fill_named-counts r d f f' (some n) j h = fill_found-counts d f f' (find_member t r n) j h

  pub fill-occurrences :
      (r : TypeInfo) (ps : List (Key × Doc)) (f f' : Filling) (j : String)
      → fill p t rec r ps f ≡ ok f'
      → count_of f'.frequencies j ≡ count_of f.frequencies j + occurrences r j ps
  unfolding fill
  fill-occurrences r [] f f' j h =
      omega (arith, ap (λ x. count_of x.frequencies j) (ok_injective f f' h))
  fill-occurrences r ((k, d) ∷ ps) f f' j h =
      let (name, e1, h1) = with_ok_cases (key_name p t k) _ f' h in
      let (f1, e2, h2) = with_ok_cases (fill_named p t rec r d f name) (fill p t rec r ps) f' h1 in
      omega (
        arith,
        fill_named-counts r d f f1 name j e2,
        fill-occurrences r ps f1 f' j h2,
        ap (counts_named r j) e1,
      )
