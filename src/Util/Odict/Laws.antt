-- ===== src/Util/Odict/Laws.antt =====
-- The list of keys and the dict of spyne/util/odict.py stay in step, so no operation on a name
-- meets the assertions or a ValueError.
use spyne.Prelude.{
  ℕ, suc, ◌≡◌, refl, sym, ap, ◌∙◌, Bool, true, false, not, ◌||◌, some, is_none, Option-cases,
  Bool-cases, inl, inr, List, [], ◌∷◌, ◌++◌, length, contains, Distinct, Eq, ◌=?◌, beq_refl,
  if◌then◌else◌, arith, ==_iff,
}
use spyne.Prelude.Dict
use spyne.Prelude.Dict.{
  Dict, dict_laws, keys, contains-keys, get-put, get-remove, length-put, length-remove,
  Distinct-put, Distinct-remove,
}
use spyne.Prelude.Exec.{ok}
use spyne.Util.Odict.{
  Odict, name, setitem, delitem, insert, update, items, has, delete_at, insert_at, index_of,
  checked,
}
use spyne.Util.Odict.Order.{
  index_of-contains, length-insert_at, contains-insert_at, Distinct-insert_at, append-insert_at,
  length-delete_at, contains-delete_at, Distinct-delete_at,
}

-- The list holds the keys of the dict, once each.
pub record IsValid {K V : Type 0} ⦃e : Eq K⦄ (d : Odict K V) : Type 0 where
  pub distinct : Distinct d.list
  pub unique : Distinct (keys d.dict)
  pub same_keys : (k : K) → contains d.list k ≡ has d k
  pub same_size : length d.list ≡ length d.dict

pub empty-IsValid :
    {K V : Type 0} ⦃e : Eq K⦄ → IsValid {K = K} {V = V} (record { list = []; dict = [] })
unfolding Dict.get
empty-IsValid = record { distinct = tt; unique = tt; same_keys = λ k. refl; same_size = refl }

module _ {K V : Type 0} ⦃e : Eq K⦄ where
  -- Putting a key at any place of a list that lacks it keeps list and dict in step.
  IsValid-put :
      (l : List K) (i : ℕ) (d : Dict K V) (k : K) (v : V)
      → Distinct l
      → Distinct (keys d)
      → contains l k ≡ false
      → ((j : K) → ((k =? j) || contains l j) ≡ ((k =? j) || not (is_none (Dict.get d j))))
      → suc (length l) ≡ length (Dict.put d k v)
      → IsValid (record { list = insert_at l i k; dict = Dict.put d k v })
  IsValid-put l i d k v u uk absent same size = record {
    distinct = Distinct-insert_at l i k u absent;
    unique = Distinct-put d k v uk;
    same_keys = λ j. ground (arith, contains-insert_at l i k j, same j, get-put d k j v);
    same_size = length-insert_at l i k ∙ size;
  }

  IsValid-fresh :
      (d : Odict K V) (i : ℕ) (k : K) (v : V)
      → IsValid d
      → has d k ≡ false
      → IsValid (record { list = insert_at d.list i k; dict = Dict.put d.dict k v })
  IsValid-fresh d i k v h p =
      IsValid-put d.list i d.dict k v h.distinct h.unique (h.same_keys k ∙ p)
        (λ j. ground (arith, h.same_keys j)) (ground (arith, h.same_size, length-put d.dict k v))

  IsValid-new :
      (d : Odict K V) (k : K) (v : V)
      → IsValid d
      → (b : Bool) → has d k ≡ b
      → IsValid
          (record { list = if b then d.list else d.list ++ k ∷ []; dict = Dict.put d.dict k v })
  IsValid-new d k v h true p = record {
    distinct = h.distinct;
    unique = Distinct-put d.dict k v h.unique;
    same_keys = λ j. ground (arith, h.same_keys j, get-put d.dict k j v, e.beq_iff k j);
    same_size = ground (arith, h.same_size, length-put d.dict k v);
  }
  IsValid-new d k v h false p =
      rw (append-insert_at d.list k) (IsValid-fresh d (length d.list) k v h p)

  checked-IsValid : (d : Odict K V) → IsValid d → checked d ≡ ok d
  unfolding checked
  checked-IsValid d h = ground (arith, h.same_size, ==_iff (length d.list) (length d.dict))

  -- the dictionary after an assignment to a name
  abbrev pub assigned : Odict K V → K → V → Odict K V
  assigned d k v = record {
    list = if has d k then d.list else d.list ++ k ∷ [];
    dict = Dict.put d.dict k v;
  }

  -- Assigning to a name never fails on a valid dictionary, and leaves a valid one.
  pub setitem-IsValid :
      (d : Odict K V) (k : K) (v : V)
      → IsValid d
      → (setitem d (name k) v ≡ ok (assigned d k v)) × IsValid (assigned d k v)
  unfolding setitem
  setitem-IsValid d k v h =
      (checked-IsValid _ (IsValid-new d k v h (has d k) refl), IsValid-new d k v h (has d k) refl)

  -- `update` with any pairs never fails on a valid dictionary, and leaves a valid one.
  pub update-IsValid :
      (l : List (K × V)) (d : Odict K V)
      → IsValid d
      → (d' : Odict K V) × (update l d ≡ ok d') × IsValid d'
  unfolding update
  update-IsValid [] d h = (d, refl, h)
  update-IsValid ((k, v) ∷ l) d h =
      let (e', h') = setitem-IsValid d k v h in
      let (d'', e'', h'') = update-IsValid l (assigned d k v) h' in (d'', rw e' e'', h'')

  IsValid-delete :
      (d : Odict K V) (k : K) (i : ℕ)
      → IsValid d
      → has d k ≡ true
      → index_of d.list k ≡ some i
      → IsValid (record { list = delete_at d.list i; dict = Dict.remove d.dict k })
  IsValid-delete d k i h p q = record {
    distinct = Distinct-delete_at d.list k i h.distinct q;
    unique = Distinct-remove d.dict k h.unique;
    same_keys = λ j.
        ground (
          arith,
          contains-delete_at d.list k j i h.distinct q,
          h.same_keys j,
          get-remove d.dict k j,
        );
    same_size = ground (
      arith,
      h.same_size,
      length-delete_at d.list k i q,
      length-remove d.dict k h.unique,
      contains-keys d.dict k,
    );
  }

  index_of-valid :
      (d : Odict K V) (k : K) → IsValid d → has d k ≡ true → (i : ℕ) × (index_of d.list k ≡ some i)
  index_of-valid d k h p = elim (Option-cases (index_of d.list k)) [
    | inl none_found ↦ absurd (ground (arith, h.same_keys k, index_of-contains d.list k))
    | inr found ↦ found
  ]

  -- Deleting a name that a valid dictionary has never fails, and leaves a valid one.
  pub delitem-IsValid :
      (d : Odict K V) (k : K)
      → IsValid d
      → has d k ≡ true
      → (d' : Odict K V) × (delitem d (name k) ≡ ok d') × IsValid d'
  unfolding delitem
  delitem-IsValid d k h p =
      let (i, q) = index_of-valid d k h p in (_, ground (arith, p, q), IsValid-delete d k i h p q)

  IsValid-move :
      (d : Odict K V) (i j : ℕ) (k : K) (v : V)
      → IsValid d
      → has d k ≡ true
      → index_of d.list k ≡ some j
      → IsValid (record { list = insert_at (delete_at d.list j) i k; dict = Dict.put d.dict k v })
  IsValid-move d i j k v h p q =
      IsValid-put (delete_at d.list j) i d.dict k v (Distinct-delete_at d.list k j h.distinct q)
        h.unique (ground (arith, contains-delete_at d.list k k j h.distinct q, beq_refl k))
        (λ x. ground (arith, contains-delete_at d.list k x j h.distinct q, h.same_keys x))
        (ground (arith, h.same_size, length-delete_at d.list k j q, length-put d.dict k v))

  -- Inserting a name at a place, which it may hold already, never fails on a valid dictionary, and
  -- leaves a valid one.
  pub insert-IsValid :
      (d : Odict K V) (i : ℕ) (k : K) (v : V)
      → IsValid d
      → (d' : Odict K V) × (insert d i k v ≡ ok d') × IsValid d'
  unfolding insert
  insert-IsValid d i k v h = elim (Bool-cases (has d k)) [
    | inl t ↦
        let (j, q) = index_of-valid d k h t in
        (_, ground (arith, t, q), IsValid-move d i j k v h t q)
    | inr f ↦ (_, ground (arith, f), IsValid-fresh d i k v h f)
  ]

  -- every name in the list has a value
  abbrev AllIn : Odict K V → List K → Type 0
  AllIn d l = (k : K) → contains l k ≡ true → has d k ≡ true

  items-all :
      (d : Odict K V) (l : List K)
      → AllIn d l
      → (r : List (K × V)) × (items d l ≡ ok r) × (keys r ≡ l)
  unfolding items
  items-all d [] h = ([], refl, refl)
  items-all d (k ∷ l) h =
      let (r, p, q) = items-all d l (λ j c. h j (ground arith)) in
      let has_k = h k (ground (arith, beq_refl k)) in
      elim (Option-cases (Dict.get d.dict k)) [
        | inl no_value ↦ absurd (ground arith)
        | inr (v, found) ↦ ((k, v) ∷ r, ground (arith, found, p), ap (λ x. k ∷ x) q)
      ]

  -- `items` of a valid dictionary never fails, and lists its keys in their order.
  pub keys-items :
      (d : Odict K V) → IsValid d → (r : List (K × V)) × (items d d.list ≡ ok r) × (keys r ≡ d.list)
  keys-items d h = items-all d d.list (λ k p. sym (h.same_keys k) ∙ p)
