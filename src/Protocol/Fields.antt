-- ===== src/Protocol/Fields.antt =====
-- `ProtocolMixin.sort_fields` of spyne/protocol/_base.py: the members of a class in the order in which
-- they are serialised. `list.sort` is a stable sort. A class is a number, a member's type any type.
pub mod Order
pub mod Places
pub mod Placed
use spyne.Prelude.{
  ℕ, nat_eq, ◌+◌, ◌-◌, String, string_eq, Option, none, some, List, [], ◌∷◌, length, Bool, true,
  false, if◌then◌else◌,
}
use spyne.Prelude.Int.{ℤ, pos, negsuc, sub_ℕ, leb_ℤ}
use spyne.Prelude.Dict
use spyne.Prelude.Dict.{Dict}

abbrev pub Items : Type 0 → Type 0
Items A = List (String × A)

-- `len(items) + order` if `order < 0`
abbrev from_end : ℕ → ℤ → ℤ
from_end len (pos n) = pos n
from_end len (negsuc n) = sub_ℕ len (n + 1)

-- `indexes[name]`, which is there for every item
abbrev pub or_zero : Option ℤ → ℤ
or_zero none = pos 0
or_zero (some i) = i

module _ {A : Type 0} (order : A → Option ℤ) where
  abbrev pub put_ordered : ℕ → String → Option ℤ → Dict String ℤ → Dict String ℤ
  put_ordered len k none indexes = indexes
  put_ordered len k (some i) indexes = Dict.put indexes k (from_end len i)

  -- the first loop
  unfoldable pub ordered : ℕ → Items A → Dict String ℤ → Dict String ℤ
  ordered len [] indexes = indexes
  ordered len ((k, v) ∷ items) indexes = ordered len items (put_ordered len k (order v) indexes)

  abbrev pub put_unordered : String → Option ℤ → Dict String ℤ → Dict String ℤ
  put_unordered k none indexes = Dict.put indexes k (pos (length indexes))
  put_unordered k (some i) indexes = indexes

  -- the second loop
  unfoldable pub unordered : Items A → Dict String ℤ → Dict String ℤ
  unordered [] indexes = indexes
  unordered ((k, v) ∷ items) indexes = unordered items (put_unordered k (order v) indexes)

  unfoldable pub indexes_of : Items A → Dict String ℤ
  unfolding ordered unordered
  indexes_of items = unordered items (ordered (length items) items [])

  -- `lambda x: indexes[x[0]]`
  abbrev pub index_in : Dict String ℤ → String × A → ℤ
  index_in indexes x = or_zero (Dict.get indexes x.0)

  -- `items.sort(key=...)`
  unfoldable pub place : Dict String ℤ → String × A → Items A → Items A
  place indexes x [] = x ∷ []
  place indexes x (y ∷ items) =
      let rest = place indexes x items in
      if leb_ℤ (index_in indexes x) (index_in indexes y) then x ∷ y ∷ items else y ∷ rest

  unfoldable pub sort : Dict String ℤ → Items A → Items A
  unfolding place
  sort indexes [] = []
  sort indexes (x ∷ items) = place indexes x (sort indexes items)

  abbrev pub or_items : Option (Items A) → Items A → Items A
  or_items none flat = flat
  or_items (some items) flat = items

  abbrev return_cached :
      Dict ℕ (Items A) → ℕ → Items A → Option (Items A) → Items A × Dict ℕ (Items A)
  return_cached cache cls items (some retval) = (retval, cache)
  return_cached cache cls items none =
      let sorted = sort (indexes_of items) items in (sorted, Dict.put cache cls sorted)

  -- `sort_fields` and the cache `_sortcache`; `flat` is `cls.get_flat_type_info(cls).items()`
  unfoldable pub sort_fields :
      (ℕ → Items A) → Dict ℕ (Items A) → ℕ → Option (Items A) → Items A × Dict ℕ (Items A)
  unfolding indexes_of sort
  sort_fields flat cache cls items =
      return_cached cache cls (or_items items (flat cls)) (Dict.get cache cls)
