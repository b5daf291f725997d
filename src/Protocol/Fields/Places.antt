-- ===== src/Protocol/Fields/Places.antt =====
-- The places that `sort_fields` of spyne/protocol/_base.py sorts the members of a class by.
use spyne.Prelude.{
  ℕ, nat_eq, ◌+◌, ◌≡◌, refl, ap, ◌∙◌, String, string_eq, Option, none, some, is_none, [], ◌∷◌, ◌++◌,
  length, contains, beq_refl, Distinct, true, false, ◌=?◌, arith, All,
}
use spyne.Prelude.Int.{ℤ, pos}
use spyne.Prelude.Dict
use spyne.Prelude.Dict.{Dict, keys, get-put, length-put}
use spyne.Protocol.Fields.{from_end, put_ordered, put_unordered, Items, ordered, unordered}
use spyne.Protocol.Fields.Order.{Fresh, Fresh-put, own_value, get-unordered}

module _ {A : Type 0} (order : A → Option ℤ) where
  abbrev pub if_none : Option ℤ → ℕ
  if_none none = 1
  if_none (some i) = 0

  abbrev pub if_some : Option ℤ → ℕ
  if_some none = 0
  if_some (some i) = 1

  -- How many of the members declare no order, and how many declare one.
  abbrev pub count_unordered : Items A → ℕ
  count_unordered [] = 0
  count_unordered (x ∷ l) = if_none (order x.1) + count_unordered l

  abbrev pub count_ordered : Items A → ℕ
  count_ordered [] = 0
  count_ordered (x ∷ l) = if_some (order x.1) + count_ordered l

  pub get-put_ordered :
      (len : ℕ) (j k : String) (o : Option ℤ) (indexes : Dict String ℤ)
      → (j =? k) ≡ false
      → Dict.get (put_ordered order len j o indexes) k ≡ Dict.get indexes k
  get-put_ordered len j k none indexes h = refl
  get-put_ordered len j k (some i) indexes h = ground (arith, get-put indexes j k (from_end len i))

  pub get-ordered :
      (len : ℕ) (l : Items A) (indexes : Dict String ℤ) (k : String)
      → contains (keys l) k ≡ false
      → Dict.get (ordered order len l indexes) k ≡ Dict.get indexes k
  unfolding ordered
  get-ordered len [] indexes k h = refl
  get-ordered len ((j, v) ∷ l) indexes k h =
      get-ordered len l (put_ordered order len j (order v) indexes) k (ground arith)
      ∙ get-put_ordered len j k (order v) indexes (ground arith)

  -- names of distinct members differ
  pub apart :
      (before after : Items A) (x : String × A) (j : String)
      → contains (keys (before ++ x ∷ after)) j ≡ false
      → (j =? x.0) ≡ false
  apart [] after x j h = ground (arith, string_eq.beq_iff j x.0, string_eq.beq_iff x.0 j)
  apart (y ∷ before) after x j h = apart before after x j (ground arith)

  -- what the first loop leaves for a member
  abbrev pub first_index : ℕ → Option ℤ → Option ℤ
  first_index len none = none
  first_index len (some i) = some (from_end len i)

  own_put :
      (len : ℕ) (k : String) (o : Option ℤ) (indexes : Dict String ℤ)
      → Dict.get indexes k ≡ none
      → Dict.get (put_ordered order len k o indexes) k ≡ first_index len o
  own_put len k none indexes h = h
  own_put len k (some i) indexes h = own_value order indexes k (from_end len i)

  pub get-ordered_at :
      (len : ℕ) (before after : Items A) (x : String × A) (indexes : Dict String ℤ)
      → Distinct (keys (before ++ x ∷ after))
      → Dict.get indexes x.0 ≡ none
      → Dict.get (ordered order len (before ++ x ∷ after) indexes) x.0 ≡ first_index len (order x.1)
  unfolding ordered
  get-ordered_at len [] after x indexes d h =
      get-ordered len after _ x.0 d.0 ∙ own_put len x.0 (order x.1) indexes h
  get-ordered_at len ((j, w) ∷ before) after x indexes d h =
      get-ordered_at len before after x (put_ordered order len j (order w) indexes) d.1
        (get-put_ordered len j x.0 (order w) indexes (apart before after x j d.0) ∙ h)

  Fresh-put_ordered :
      (len : ℕ) (l : Items A) (j : String) (o : Option ℤ) (indexes : Dict String ℤ)
      → Fresh order l indexes
      → contains (keys l) j ≡ false
      → Fresh order l (put_ordered order len j o indexes)
  Fresh-put_ordered len l j none indexes f h = f
  Fresh-put_ordered len l j (some i) indexes f h = Fresh-put order l indexes j (from_end len i) f h

  length-put_ordered :
      (len : ℕ) (j : String) (o : Option ℤ) (indexes : Dict String ℤ)
      → is_none (Dict.get indexes j) ≡ true
      → length (put_ordered order len j o indexes) ≡ length indexes + if_some o
  length-put_ordered len j none indexes h = omega arith
  length-put_ordered len j (some i) indexes h =
      ground (arith, length-put indexes j (from_end len i))

  pub length-ordered :
      (len : ℕ) (l : Items A) (indexes : Dict String ℤ)
      → Distinct (keys l)
      → Fresh order l indexes
      → length (ordered order len l indexes) ≡ length indexes + count_ordered l
  unfolding ordered
  length-ordered len [] indexes d f = omega arith
  length-ordered len ((j, v) ∷ l) indexes d f =
      let next = put_ordered order len j (order v) indexes in
      let fresh =
        Fresh-put_ordered len l j (order v) indexes (λ k c. f k (ground (arith, c))) d.0 in
      omega (
        arith,
        length-ordered len l next d.1 fresh,
        length-put_ordered len j (order v) indexes (f j (ground (arith, beq_refl j))),
      )

  -- The members without an order have no index yet.
  abbrev pub Absent : Items A → Dict String ℤ → Type 0
  Absent l indexes = All (λ y. order y.1 ≡ none → Dict.get indexes y.0 ≡ none) l

  get-put_unordered_at :
      (j k : String) (o : Option ℤ) (indexes : Dict String ℤ)
      → (j =? k) ≡ false
      → Dict.get (put_unordered order j o indexes) k ≡ Dict.get indexes k
  get-put_unordered_at j k none indexes h =
      ground (arith, get-put indexes j k (pos (length indexes)))
  get-put_unordered_at j k (some i) indexes h = refl

  Absent-put :
      (l : Items A) (j : String) (o : Option ℤ) (indexes : Dict String ℤ)
      → Absent l indexes
      → contains (keys l) j ≡ false
      → Absent l (put_unordered order j o indexes)
  Absent-put [] j o indexes a h = tt
  Absent-put (y ∷ l) j o indexes a h = (
    λ e. get-put_unordered_at j y.0 o indexes (apart [] l y j h) ∙ a.0 e,
    Absent-put l j o indexes a.1 (ground arith),
  )

  length-put_unordered :
      (j : String) (o : Option ℤ) (indexes : Dict String ℤ)
      → (o ≡ none → Dict.get indexes j ≡ none)
      → length (put_unordered order j o indexes) ≡ length indexes + if_none o
  length-put_unordered j none indexes h =
      ground (arith, length-put indexes j (pos (length indexes)), h refl)
  length-put_unordered j (some i) indexes h = omega arith

  pub get-unordered_at :
      (before after : Items A) (x : String × A) (indexes : Dict String ℤ)
      → Distinct (keys (before ++ x ∷ after))
      → Absent (before ++ x ∷ after) indexes
      → order x.1 ≡ none
      → Dict.get (unordered order (before ++ x ∷ after) indexes) x.0
        ≡ some (pos (length indexes + count_unordered before))
  unfolding unordered
  get-unordered_at [] after (k, v) indexes d a e =
      get-unordered order after _ k d.0
      ∙ ap (λ o. Dict.get (put_unordered order k o indexes) k) e
      ∙ own_value order indexes k (pos (length indexes))
      ∙ ap (λ n. some (pos n)) (omega arith)
  get-unordered_at ((j, w) ∷ before) after x indexes d a e =
      let next = put_unordered order j (order w) indexes in
      get-unordered_at before after x next d.1
        (Absent-put (before ++ x ∷ after) j (order w) indexes a.1 d.0) e
      ∙ ap (λ n. some (pos n)) (omega (arith, length-put_unordered j (order w) indexes a.0))

  pub get-unordered_ordered :
      (before after : Items A) (x : String × A) (indexes : Dict String ℤ) {i : ℤ}
      → Distinct (keys (before ++ x ∷ after))
      → order x.1 ≡ some i
      → Dict.get (unordered order (before ++ x ∷ after) indexes) x.0 ≡ Dict.get indexes x.0
  unfolding unordered
  get-unordered_ordered [] after (k, v) indexes d e =
      get-unordered order after _ k d.0 ∙ ap (λ o. Dict.get (put_unordered order k o indexes) k) e
  get-unordered_ordered ((j, w) ∷ before) after x indexes d e =
      get-unordered_ordered before after x _ d.1 e
      ∙ get-put_unordered_at j x.0 (order w) indexes (apart before after x j d.0)
