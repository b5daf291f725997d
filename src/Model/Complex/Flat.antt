-- ===== src/Model/Complex/Flat.antt =====
-- The members of a class in spyne/model/complex.py, with those that it inherits.
use mathlib.Core.Path.{subst}
use mathlib.Core.Option.{some-injective}
use mathlib.Core.List.{append_assoc}
use spyne.Prelude.{
  ℕ, zero, suc, nat_eq, string_eq, ◌≡◌, ◌<◌, ◌↔◌, ◌⊎◌, refl, sym, ap, ◌∙◌, inl, inr, arith, String,
  Bool, Option, none, some, List, ◌++◌, Option-cases,
}
use spyne.Prelude.Dict
use spyne.Prelude.Dict.{Dict}
use spyne.Prelude.Exec.{ok}
use spyne.Util.Odict.Laws.{IsValid, empty-IsValid}
use spyne.Util.Odict.Merge.{Merges, merge-Merges, or_else}
use spyne.Model.Complex.{
  Class, TypeInfo, no_members, filled, add_own, then_add, flat_type_info, get_flat_type_info,
}

module _ (is_attribute : ℕ → Bool) (classes : ℕ → Class) where
  -- The class that is extended is older, and the tables of members are in step.
  pub record IsHierarchy : Type 0 where
    pub older : (c p : ℕ) → (classes c).extends ≡ some p → p < c
    pub valid : (c : ℕ) → IsValid (classes c).type_info

  -- A class has a member of its own, or inherits one that it does not declare itself.
  pub data HasMember : ℕ → String → ℕ → Type 0 where
    own :
        {c : ℕ} {k : String} {t : ℕ}
        → Dict.get (classes c).type_info.dict k ≡ some t
        → HasMember c k t
    inherited :
        {c p : ℕ} {k : String} {t : ℕ}
        → Dict.get (classes c).type_info.dict k ≡ none
        → (classes c).extends ≡ some p
        → HasMember p k t
        → HasMember c k t

  -- The result of filling `retval` for class `c`.
  pub record Fills (c : ℕ) (retval r : TypeInfo) : Type 0 where
    pub valid : IsValid r.members
    pub has_members : (k : String) (t : ℕ) → HasMember c k t → Dict.get r.members.dict k ≡ some t
    pub only :
        (k : String) (t : ℕ)
        → Dict.get r.members.dict k ≡ some t
        → HasMember c k t ⊎ (Dict.get retval.members.dict k ≡ some t)
    pub new_names : List String
    pub order : r.members.list ≡ retval.members.list ++ new_names

  add_own-Fills :
      (c : ℕ) (retval : TypeInfo)
      → IsHierarchy
      → IsValid retval.members
      → (r : TypeInfo) × (add_own is_attribute (classes c) retval ≡ ok r)
        × Merges (classes c).type_info retval.members r.members
  unfolding add_own
  add_own-Fills c retval i h =
      let (members, made, merges) =
        merge-Merges (classes c).type_info retval.members (i.valid c) h in
      (filled is_attribute (classes c) retval members, rw made refl, merges)

  own_member : (own o : Option ℕ) (t : ℕ) → own ≡ some t → or_else own o ≡ some t
  own_member mine o t e = ap (λ x. or_else x o) e

  -- A value of a merged table comes from one of the two.
  from_either :
      (own o r : Option ℕ) (t : ℕ)
      → r ≡ or_else own o
      → r ≡ some t
      → (own ≡ some t) ⊎ ((own ≡ none) × (o ≡ some t))
  from_either none o r t e f = inr (refl, sym e ∙ f)
  from_either (some v) o r t e f = inl (sym e ∙ f)

  root_member :
      {c : ℕ} {k : String} {t : ℕ}
      → HasMember c k t
      → (classes c).extends ≡ none
      → Dict.get (classes c).type_info.dict k ≡ some t
  root_member (own e) root = e
  root_member (inherited absent extends m) root = absurd (cc (sym extends ∙ root))

  root_case :
      (c : ℕ) (retval r : TypeInfo)
      → (classes c).extends ≡ none
      → Merges (classes c).type_info retval.members r.members
      → Fills c retval r
  root_case c retval r root merges = record {
    valid = merges.valid;
    has_members = λ k t m. merges.values k ∙ own_member _ _ t (root_member m root);
    only = λ k t e. elim (from_either _ _ _ t (merges.values k) e) [
      | inl mine ↦ inl (own mine)
      | inr (_, before) ↦ inr before
    ];
    new_names = merges.new_keys;
    order = merges.order;
  }

  child_member :
      {c p : ℕ} {k : String} {t : ℕ} (retval r' : TypeInfo)
      → HasMember c k t
      → (classes c).extends ≡ some p
      → Fills p retval r'
      → or_else (Dict.get (classes c).type_info.dict k) (Dict.get r'.members.dict k) ≡ some t
  child_member retval r' (own e) extends fills = own_member _ _ _ e
  child_member {p = p} {k = k} {t = t} retval r' (inherited {p = q} absent extends' m) extends
        fills =
      let same : q ≡ p = some-injective _ _ (sym extends' ∙ extends) in
      ap (λ x. or_else x (Dict.get r'.members.dict k)) absent
      ∙ fills.has_members k t (subst (λ x. HasMember x k t) same m)

  child_case :
      (c p : ℕ) (retval r' r : TypeInfo)
      → (classes c).extends ≡ some p
      → Fills p retval r'
      → Merges (classes c).type_info r'.members r.members
      → Fills c retval r
  child_case c p retval r' r extends fills merges = record {
    valid = merges.valid;
    has_members = λ k t m. merges.values k ∙ child_member retval r' m extends fills;
    only = λ k t e. elim (from_either _ _ _ t (merges.values k) e) [
      | inl mine ↦ inl (own mine)
      | inr (absent, theirs) ↦ elim (fills.only k t theirs) [
        | inl m ↦ inl (inherited absent extends m)
        | inr before ↦ inr before
      ]
    ];
    new_names = fills.new_names ++ merges.new_keys;
    order =
        merges.order
        ∙ ap (λ l. l ++ merges.new_keys) fills.order
        ∙ append_assoc retval.members.list fills.new_names merges.new_keys;
  }

  flat_type_info-Fills :
      (fuel c : ℕ) (retval : TypeInfo)
      → IsHierarchy
      → c < fuel
      → IsValid retval.members
      → (r : TypeInfo) × (flat_type_info is_attribute classes fuel c retval ≡ ok r)
        × Fills c retval r
  unfolding flat_type_info
  flat_type_info-Fills zero c retval i lt h = absurd (omega (arith, lt))
  flat_type_info-Fills (suc fuel) c retval i lt h = elim (Option-cases (classes c).extends) [
    | inl root ↦
        let (r, made, merges) = add_own-Fills c retval i h in
        (r, rw root made, root_case c retval r root merges)
    | inr (p, extends) ↦
        let (r', made', fills) =
          flat_type_info-Fills fuel p retval i (omega (arith, i.older c p extends, lt)) h in
        let (r, made, merges) = add_own-Fills c r' i fills.valid in
        (r, rw (extends, made') made, child_case c p retval r' r extends fills merges)
  ]

  -- More fuel than a class needs makes no difference.
  flat_type_info_fuel :
      (f g c : ℕ) (retval : TypeInfo)
      → IsHierarchy
      → c < f
      → c < g
      → flat_type_info is_attribute classes f c retval
        ≡ flat_type_info is_attribute classes g c retval
  unfolding flat_type_info
  flat_type_info_fuel zero g c retval i lf lg = absurd (omega (arith, lf))
  flat_type_info_fuel (suc f) zero c retval i lf lg = absurd (omega (arith, lg))
  flat_type_info_fuel (suc f) (suc g) c retval i lf lg = elim (Option-cases (classes c).extends) [
    | inl root ↦ rw root refl
    | inr (p, extends) ↦
        let older = i.older c p extends in
        rw extends (
          ap (then_add is_attribute (classes c)) (
            flat_type_info_fuel f g p retval i (omega (arith, older, lf))
              (omega (arith, older, lg))))
  ]

  -- For classes that extend older ones only, `get_flat_type_info` ends. It gives a name the type of
  -- the nearest class that declares it, and has no other names.
  pub get_flat_type_info-HasMember :
      (c : ℕ)
      → IsHierarchy
      → (r : TypeInfo) × (get_flat_type_info is_attribute classes c ≡ ok r)
        × IsValid r.members
        × ((k : String) (t : ℕ) → (Dict.get r.members.dict k ≡ some t) ↔ HasMember c k t)
  unfolding get_flat_type_info Dict.get
  get_flat_type_info-HasMember c i =
      let (r, made, fills) =
        flat_type_info-Fills (suc c) c no_members i (omega arith) empty-IsValid in
      (
        r,
        made,
        fills.valid,
        λ k t. (
          λ e. elim (fills.only k t e) [ inl m ↦ m | inr before ↦ absurd (cc before) ],
          fills.has_members k t,
        ),
      )

  -- The members of a class come behind those of the class that it extends, which keep their order.
  pub get_flat_type_info_order :
      (c p : ℕ)
      → IsHierarchy
      → (classes c).extends ≡ some p
      → (r' r : TypeInfo) × (get_flat_type_info is_attribute classes p ≡ ok r')
        × (get_flat_type_info is_attribute classes c ≡ ok r)
        × (new : List String) × (r.members.list ≡ r'.members.list ++ new)
  unfolding get_flat_type_info flat_type_info
  get_flat_type_info_order c p i extends =
      let (r', made', fills) =
        flat_type_info-Fills c p no_members i (i.older c p extends) empty-IsValid in
      let (r, made, merges) = add_own-Fills c r' i fills.valid in
      (
        r',
        r,
        flat_type_info_fuel (suc p) c p no_members i (omega arith) (i.older c p extends) ∙ made',
        rw (extends, made') made,
        merges.new_keys,
        merges.order,
      )
