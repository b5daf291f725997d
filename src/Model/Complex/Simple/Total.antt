-- ===== src/Model/Complex/Simple/Total.antt =====
-- `get_simple_type_info_with_prot` of spyne/model/complex.py, for classes that refer to one another
-- as they like.
use mathlib.Core.Path.{subst}
use spyne.Prelude.{
  ℕ, suc, nat_eq, string_eq, ◌≡◌, ◌<◌, ◌≤◌, refl, sym, ap, ◌∙◌, inl, inr, arith, String, Bool, true,
  ◌&&◌, Option, some, List, [], ◌∷◌, All, contains, length, Option-cases, Bool-cases, beq_refl,
}
use spyne.Prelude.Dict
use spyne.Prelude.Exec.{Result, ok, err, with_ok_cases, ok_injective}
use spyne.Util.Odict.{Odict, has, items}
use spyne.Util.Odict.Laws.{IsValid, empty-IsValid}
use spyne.Model.Complex.{Class}
use spyne.Model.Complex.Flat.{IsHierarchy, HasMember, own, inherited, get_flat_type_info-HasMember}
use spyne.Model.Complex.Simple.{
  ModelType, SimpleError, Element, is_array_type, only_value, is_one, entries, flat_items,
  unwrapped, get_simple_type_info,
}
use spyne.Model.Complex.Simple.Paths.{Stands, walk_from-AllStand, entries_top}
use spyne.Model.Complex.Simple.Ends.{
  Ends, TypesBelow, owed, owed_expanded, walk_from-Ends, length-entries, entries-QueueBelow,
}

-- The items of names that a table has all have the values of the table.
items_all :
    (P : String → ℕ → Type 0) (d : Odict String ℕ) (l : List String)
    → ((k : String) → contains l k ≡ true → has d k ≡ true)
    → ((k : String) (t : ℕ) → Dict.get d.dict k ≡ some t → P k t)
    → (r : List (String × ℕ)) × (items d l ≡ ok r)
      × All (λ kv. P kv.0 kv.1) r
      × (length r ≡ length l)
unfolding items
items_all P d [] h p = ([], refl, tt, refl)
items_all P d (k ∷ l) h p =
    let (r, made, all, size) = items_all P d l (λ j e. h j (ground (arith, e))) p in
    elim (Option-cases (Dict.get d.dict k)) [
      | inl absent ↦ absurd (ground (arith, absent, h k (ground (arith, beq_refl k))))
      | inr (t, found) ↦ ((k, t) ∷ r, rw (found, made) refl, (p k t found, all), ap suc size)
    ]

valid_all :
    (P : String → ℕ → Type 0) (d : Odict String ℕ)
    → IsValid d
    → ((k : String) (t : ℕ) → Dict.get d.dict k ≡ some t → P k t)
    → (r : List (String × ℕ)) × (items d d.list ≡ ok r)
      × All (λ kv. P kv.0 kv.1) r
      × (length r ≡ length d.list)
valid_all P d valid p = items_all P d d.list (λ k e. sym (valid.same_keys k) ∙ e) p

abbrev size_of : Result SimpleError (List (String × ℕ)) → ℕ
size_of (err e) = 0
size_of (ok l) = length l

module _ (is_attribute : ℕ → Bool) (classes : ℕ → Class) (types : ℕ → ModelType) where
  -- The types of the members of the first `n` classes are among these, and an Array has one member.
  pub record IsWorld (n : ℕ) : Type 0 where
    pub hierarchy : IsHierarchy is_attribute classes
    pub closed :
        (c : ℕ) (k : String) (t : ℕ)
        → c < n
        → Dict.get (classes c).type_info.dict k ≡ some t
        → t < n
    pub arrays : (c : ℕ) → (types c).array ≡ true → length (classes c).type_info.list ≡ 1

  flat_items-HasMember :
      (c : ℕ) (l : List (String × ℕ))
      → IsHierarchy is_attribute classes
      → flat_items is_attribute classes types c ≡ ok l
      → All (λ kv. HasMember is_attribute classes c kv.0 kv.1) l
  unfolding flat_items
  flat_items-HasMember c l hierarchy h =
      let (r, made, valid, only) = get_flat_type_info-HasMember is_attribute classes c hierarchy in
      let (l', listed, all, size) =
        valid_all (λ k t. HasMember is_attribute classes c k t) r.members valid
          (λ k t e. (only k t).0 e) in
      let same : l' ≡ l = ok_injective l' l (sym (rw (made, listed) refl) ∙ h) in
      subst (All (λ kv. HasMember is_attribute classes c kv.0 kv.1)) same all

  -- the number of members that a class has, with those it inherits
  abbrev pub flat_size : ℕ → ℕ
  flat_size c = size_of (flat_items is_attribute classes types c)

  HasMember-below :
      {c : ℕ} {k : String} {t : ℕ} (n : ℕ)
      → IsWorld n
      → c < n
      → HasMember is_attribute classes c k t
      → t < n
  HasMember-below n world lt (own e) = world.closed _ _ _ lt e
  HasMember-below n world lt (inherited absent extends m) =
      HasMember-below n world (omega (arith, lt, world.hierarchy.older _ _ extends)) m

  flat_items-below :
      (n c : ℕ)
      → IsWorld n
      → c < n
      → (l : List (String × ℕ)) × (flat_items is_attribute classes types c ≡ ok l)
        × (length l ≡ flat_size c)
        × TypesBelow n l
  unfolding flat_items
  flat_items-below n c world lt =
      let (r, made, valid, only) =
        get_flat_type_info-HasMember is_attribute classes c world.hierarchy in
      let (l, listed, below, size) =
        valid_all (λ _ t. t < n) r.members valid
          (λ k t e. HasMember-below n world lt ((only k t).0 e)) in
      (l, rw (made, listed) refl, rw (made, listed) refl, below)

  only_value-below :
      (n : ℕ) (l : List (String × ℕ))
      → length l ≡ 1
      → TypesBelow n l
      → (u : ℕ) × (only_value l ≡ ok u) × (u < n)
  only_value-below n [] size below = absurd (omega (arith, size))
  only_value-below n ((k, v) ∷ []) size below = (v, refl, below.0)
  only_value-below n ((k, v) ∷ x ∷ l) size below = absurd (omega (arith, size))

  unwrapped-below :
      (n v : ℕ)
      → IsWorld n
      → v < n
      → (u : ℕ) × (unwrapped is_attribute classes types v ≡ ok u) × (u < n)
  unfolding unwrapped
  unwrapped-below n v world lt =
      elim (Bool-cases ((types v).array && is_one ((types v).max_occurs))) [
        | inl e ↦
            let (l, listed, below, size) =
              valid_all (λ _ t. t < n) (classes v).type_info (world.hierarchy.valid v)
                (λ k t. world.closed v k t lt) in
            let (u, only, lt') =
              only_value-below n l (size ∙ world.arrays v (ground (arith, e))) below in
            (u, rw (e, listed) only, lt')
        | inr e ↦ (v, rw e refl, lt)
      ]

module _ (is_attribute : ℕ → Bool) (classes : ℕ → Class) (types : ℕ → ModelType)
    (prot : Option (ℕ → Option String)) (hier_delim : String) where
  -- Classes may have members of each other's types and of their own. Where class `cls` is one of
  -- the first `n` and so are all types of their members, `get_simple_type_info_with_prot` ends, with
  -- fuel for the members of these classes: in a table in step, or in the error for a taken name.
  pub get_simple_type_info-Ends :
      (n fuel cls : ℕ)
      → IsWorld is_attribute classes types n
      → cls < n
      → owed (flat_size is_attribute classes types) [] n ≤ fuel
      → Ends (get_simple_type_info is_attribute classes types prot hier_delim fuel cls)
  unfolding get_simple_type_info
  get_simple_type_info-Ends n fuel cls world lt le =
      let flag : ℕ → Bool = λ v. is_array_type (types v) in
      let (l, made, size, below) = flat_items-below is_attribute classes types n cls world lt in
      let queue = entries prot cls [] [] [] flag l in
      let count = length-entries prot cls [] [] [] flag l in
      let total = owed_expanded (flat_size is_attribute classes types) [] cls n lt refl in
      rw made (
        walk_from-Ends prot hier_delim types (flat_items is_attribute classes types)
          (unwrapped is_attribute classes types) (flat_size is_attribute classes types) n fuel
          (record { list = []; dict = [] }) (cls ∷ []) queue
          (record {
            members = λ v. flat_items-below is_attribute classes types n v world;
            unwraps = λ v. unwrapped-below is_attribute classes types n v world;
          })
          empty-IsValid (entries-QueueBelow n prot cls [] [] [] flag l below)
          (omega (arith, count, size, total, le)))

  -- For classes that extend older ones only: an element of the table that is returned stands for
  -- a member that its path leads to from the class, step by step through the types of members, and
  -- is under the names that the members on the path go by, joined.
  pub get_simple_type_info-Stands :
      (fuel cls : ℕ) (r : Odict String Element) (key : String) (e : Element)
      → IsHierarchy is_attribute classes
      → get_simple_type_info is_attribute classes types prot hier_delim fuel cls ≡ ok r
      → Dict.get r.dict key ≡ some e
      → Stands prot hier_delim types
          (flat_items is_attribute classes types)
          (unwrapped is_attribute classes types)
          (HasMember is_attribute classes)
          cls
          key
          e
  unfolding get_simple_type_info Dict.get
  get_simple_type_info-Stands fuel cls r key e hierarchy h found =
      let flag : ℕ → Bool = λ v. is_array_type (types v) in
      let flat = flat_items is_attribute classes types in
      let (l, made, walked) = with_ok_cases (flat cls) _ r h in
      walk_from-AllStand prot hier_delim types flat (unwrapped is_attribute classes types)
        (HasMember is_attribute classes) cls fuel (record { list = []; dict = [] }) r (cls ∷ [])
        (entries prot cls [] [] [] flag l)
        (record {
          lists = λ u l h. flat_items-HasMember is_attribute classes types u l hierarchy h;
        })
        (λ k x f. absurd (cc f))
        (entries_top prot hier_delim types flat (unwrapped is_attribute classes types)
          (HasMember is_attribute classes) cls flag l
          (flat_items-HasMember is_attribute classes types cls l hierarchy made))
        walked key e found
