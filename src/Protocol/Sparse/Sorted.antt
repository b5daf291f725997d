-- ===== src/Protocol/Sparse/Sorted.antt =====
-- The slots of spyne/protocol/dictdoc/simple.py stay a list that is sorted by index.
use mathlib.Core.Path.{ap₂}
use spyne.Prelude.{
  ℕ, zero, suc, nat_eq, ◌≡◌, ◌≤◌, ◌<◌, refl, sym, ap, ◌∙◌, arith, leb, Option, none, some, List, [],
  ◌∷◌, Distinct, if◌then◌else◌, ==_iff,
}
use spyne.Prelude.Dict
use spyne.Prelude.Dict.{Dict, get-put, keys, contains-keys, Distinct-put}
use spyne.Util.Odict.{insert_at}
use spyne.Protocol.Sparse.{after_entry, shift, next_value, s2cmi, Slots, find_slot, slot_or_new}
use spyne.Protocol.Sparse.Ranks.{
  IsSorted, step, rank, below, insert_sorted, values, values-insert_sorted, insert_sorted-IsSorted,
  rank-insert_sorted, rank-lt-below, last_below,
}

keys-shift : (m : Dict ℕ ℕ) (n : ℕ) → keys (shift m n) ≡ keys m
unfolding shift
keys-shift [] n = refl
keys-shift ((i, v) ∷ m) n = ap (λ l. i ∷ l) (keys-shift m n)

get-shift :
    (m : Dict ℕ ℕ) (n j : ℕ)
    → Dict.get (shift m n) j ≡ (if leb n j then step (Dict.get m j) else Dict.get m j)
unfolding shift Dict.get
get-shift [] n j = ground arith
get-shift ((i, v) ∷ m) n j = ground (arith, get-shift m n j, ==_iff i j)

-- Every value for a key below `n` is below `b`.
abbrev Bounded : Dict ℕ ℕ → ℕ → ℕ → Type 0
Bounded m n b = (i v : ℕ) → Dict.get m i ≡ some v → i < n → v < b

next_value-le :
    (m : Dict ℕ ℕ) (n next b : ℕ)
    → Distinct (keys m)
    → Bounded m n b
    → next ≤ b
    → next_value m n next ≤ b
unfolding next_value Dict.get
next_value-le [] n next b d h le = le
next_value-le ((i, v) ∷ m) n next b d h le =
    next_value-le m n (after_entry n i v next) b d.1
      (λ j w e lt. h j w (ground (arith, d.0, contains-keys m j, ==_iff i j)) lt)
      (ground (arith, le, h i v, ==_iff i i))

le-next_value : (m : Dict ℕ ℕ) (n next : ℕ) → next ≤ next_value m n next
unfolding next_value
le-next_value [] n next = omega arith
le-next_value ((i, v) ∷ m) n next = ground (arith, le-next_value m n (after_entry n i v next))

lt-next_value :
    (m : Dict ℕ ℕ) (n next i v : ℕ) → Dict.get m i ≡ some v → i < n → v < next_value m n next
unfolding next_value Dict.get
lt-next_value [] n next i v h lt = cc
lt-next_value ((j, w) ∷ m) n next i v h lt = ground (
  arith,
  le-next_value m n (after_entry n j w next),
  lt-next_value m n (after_entry n j w next) i v,
  ==_iff j i,
)

own_place : (m : Dict ℕ ℕ) (n : ℕ) → Dict.get (s2cmi m n).0 n ≡ some (s2cmi m n).1
unfolding s2cmi
own_place m n = ground (arith, get-put (shift m n) n n (next_value m n 0), ==_iff n n)

module _ {A : Type 0} where
  -- The map gives each index its place in `es`, and the list holds the values of `es`.
  pub record Represents (slots : Slots A) (es : List (ℕ × A)) : Type 0 where
    pub distinct : Distinct (keys slots.0)
    pub ranks : (i : ℕ) → Dict.get slots.0 i ≡ rank es i
    pub sorted : IsSorted es
    pub items : slots.1 ≡ values es

  next_value-below :
      (m : Dict ℕ ℕ) (es : List (ℕ × A)) (n : ℕ)
      → Distinct (keys m)
      → ((i : ℕ) → Dict.get m i ≡ rank es i)
      → IsSorted es
      → next_value m n 0 ≡ below es n
  next_value-below m es n d r s =
      let upper : next_value m n 0 ≤ below es n =
        next_value-le m n 0 (below es n) d (λ i v e lt. rank-lt-below es n i v s (sym (r i) ∙ e) lt)
          (omega arith) in
      omega (arith, upper, lower (below es n) refl)
    where
      lower : (k : ℕ) → below es n ≡ k → k ≤ next_value m n 0
      lower zero e = omega arith
      lower (suc k) e =
          let (i, lt, found) = last_below es n k s e in lt-next_value m n 0 i k (r i ∙ found) lt

  new_slot :
      (slots : Slots A) (es : List (ℕ × A)) (n : ℕ) (y : A)
      → Represents slots es
      → rank es n ≡ none
      → Represents
          ((s2cmi slots.0 n).0, insert_at slots.1 (s2cmi slots.0 n).1 y)
          (insert_sorted es n y)
  unfolding s2cmi
  new_slot (m, ninst) es n y h absent =
      let nv = next_value m n 0 in
      let is_below = next_value-below m es n h.distinct h.ranks h.sorted in
      record {
        distinct = Distinct-put (shift m n) n nv (rw (keys-shift m n) h.distinct);
        ranks = λ i. ground (
          arith,
          get-put (shift m n) n i nv,
          get-shift m n i,
          h.ranks i,
          is_below,
          rank-insert_sorted es n i y h.sorted absent,
        );
        sorted = insert_sorted-IsSorted es n y h.sorted absent;
        items = ap₂ (λ l k. insert_at l k y) h.items is_below ∙ sym (values-insert_sorted es n y);
      }

  -- The list with the index `n`, which has the value `y` if it is new.
  abbrev pub with_index : List (ℕ × A) → ℕ → A → Option ℕ → List (ℕ × A)
  with_index es n y none = insert_sorted es n y
  with_index es n y (some k) = es

  find_slot-cases :
      (slots : Slots A) (es : List (ℕ × A)) (n : ℕ) (y : A) (o : Option ℕ)
      → Represents slots es
      → rank es n ≡ o
      → Represents (slot_or_new slots n y o).0 (with_index es n y o)
        × (rank (with_index es n y o) n ≡ some (slot_or_new slots n y o).1)
  find_slot-cases (m, ninst) es n y (some k) h e = (h, e)
  find_slot-cases (m, ninst) es n y none h e =
      let fresh = new_slot (m, ninst) es n y h e in (fresh, sym (fresh.ranks n) ∙ own_place m n)

  -- Whatever order the indexes come in, the slots represent a list that is sorted by index: a new
  -- index is inserted at its place in that order, one that is there leaves the list as it is, and
  -- the position that is returned is that of the index.
  pub find_slot-Represents :
      (slots : Slots A) (es : List (ℕ × A)) (n : ℕ) (y : A)
      → Represents slots es
      → Represents (find_slot slots n y).0 (with_index es n y (rank es n))
        × (rank (with_index es n y (rank es n)) n ≡ some (find_slot slots n y).1)
  unfolding find_slot
  find_slot-Represents slots es n y h =
      rw (h.ranks n) (find_slot-cases slots es n y (rank es n) h refl)
