-- ===== src/Util/Odict/Merge.antt =====
-- `update` of spyne/util/odict.py with another ordered dictionary.
use mathlib.Core.List.{append-nil, append_assoc}
use spyne.Prelude.{
  ◌≡◌, refl, sym, ap, ◌∙◌, Bool, true, false, Option, none, some, Option-cases, Bool-cases, inl,
  inr, List, [], ◌∷◌, ◌++◌, contains, Distinct, Eq, ◌=?◌, beq_refl, if◌then◌else◌, arith, eq_of_beq,
}
use spyne.Prelude.Dict
use spyne.Prelude.Dict.{get-put, contains-keys, keys}
use spyne.Prelude.Exec.{ok}
use spyne.Util.Odict.{Odict, update, items, merge, has}
use spyne.Util.Odict.Laws.{IsValid, assigned, setitem-IsValid}

module _ {V : Type 0} where
  abbrev pub or_else : Option V → Option V → Option V
  or_else none o = o
  or_else (some v) o = some v

module _ {K : Type 0} where
  longer :
      (b : Bool) (l m : List K) (k : K)
      → (if b then l else l ++ k ∷ []) ++ m ≡ l ++ (if b then m else k ∷ m)
  longer true l m k = refl
  longer false l m k = append_assoc l (k ∷ []) m

module _ {K V : Type 0} ⦃e : Eq K⦄ where
  -- The values of `a` win, and the keys of `d` come first, in their order.
  pub record Merges (a d d' : Odict K V) : Type 0 where
    pub valid : IsValid d'
    pub values : (k : K) → Dict.get d'.dict k ≡ or_else (Dict.get a.dict k) (Dict.get d.dict k)
    pub new_keys : List K
    pub order : d'.list ≡ d.list ++ new_keys

  update_values :
      (l : List (K × V)) (d : Odict K V)
      → IsValid d
      → Distinct (keys l)
      → (d' : Odict K V) × (update l d ≡ ok d')
        × IsValid d'
        × ((k : K) → Dict.get d'.dict k ≡ or_else (Dict.get l k) (Dict.get d.dict k))
        × (m : List K) × (d'.list ≡ d.list ++ m)
  unfolding update Dict.get
  update_values [] d h u = (d, refl, h, λ k. refl, [], sym (append-nil d.list))
  update_values ((j, v) ∷ l) d h u =
      let (made, h1) = setitem-IsValid d j v h in
      let (d', rest, h', values, m, order) = update_values l (assigned d j v) h1 u.1 in
      (
        d',
        rw made rest,
        h',
        λ k. ground (arith, values k, get-put d.dict j k v, u.0, contains-keys l k, e.beq_iff j k),
        if has d j then m else j ∷ m,
        order ∙ longer (has d j) d.list m j,
      )

  items_values :
      (d : Odict K V) (l : List K)
      → ((k : K) → contains l k ≡ true → has d k ≡ true)
      → (r : List (K × V)) × (items d l ≡ ok r)
        × (keys r ≡ l)
        × ((k : K) → Dict.get r k ≡ (if contains l k then Dict.get d.dict k else none))
  unfolding items Dict.get
  items_values d [] h = ([], refl, refl, λ k. refl)
  items_values d (j ∷ l) h =
      let (r, made, same, values) = items_values d l (λ k c. h k (ground (arith, c))) in
      let has_j = h j (ground (arith, beq_refl j)) in
      elim (Option-cases (Dict.get d.dict j)) [
        | inl absent ↦ absurd (ground (arith, has_j, absent))
        | inr (v, found) ↦ (
          (j, v) ∷ r,
          ground (arith, found, made),
          ap (λ x. j ∷ x) same,
          λ k. elim (Bool-cases (j =? k)) [
            | inl same' ↦
                let here : Dict.get d.dict k ≡ some v =
                  ap (Dict.get d.dict) (sym (eq_of_beq j k same')) ∙ found in
                rw (same', here) refl
            | inr other ↦ rw other (values k)
          ],
        )
      ]

  whole_if_there :
      (d : Odict K V) (k : K)
      → IsValid d
      → (if contains d.list k then Dict.get d.dict k else none) ≡ Dict.get d.dict k
  whole_if_there d k h = elim (Option-cases (Dict.get d.dict k)) [
    | inl absent ↦ ground (arith, absent)
    | inr (v, found) ↦ ground (arith, found, h.same_keys k)
  ]

  -- `update` with a valid dictionary never fails on a valid one. The values of the other dictionary
  -- win, and the new keys come behind the old ones.
  pub merge-Merges :
      (a d : Odict K V)
      → IsValid a
      → IsValid d
      → (d' : Odict K V) × (merge a d ≡ ok d') × Merges a d d'
  unfolding merge
  merge-Merges a d ha hd =
      let (r, listed, same, found) = items_values a a.list (λ k c. sym (ha.same_keys k) ∙ c) in
      let (d', made, valid, values, m, order) = update_values r d hd (rw same ha.distinct) in
      (
        d',
        rw listed made,
        record {
          valid = valid;
          values = λ k.
              values k ∙ ap (λ o. or_else o (Dict.get d.dict k)) (found k ∙ whole_if_there a k ha);
          new_keys = m;
          order = order;
        },
      )
