-- ===== src/Model/Complex/Order.antt =====
-- The metaclass of spyne/model/complex.py: where `__init__` applies the order of fields.
pub mod Kept
use spyne.Prelude.{
  ℕ, suc, nat_eq, string_eq, String, Bool, Option, none, some, is_none, List, [], ◌∷◌, length, ◌-◌,
  ◌==◌, if◌then◌else◌,
}
use spyne.Prelude.Int.{ℤ, pos, negsuc}
use spyne.Prelude.Exec.{Result, ok, err}
use spyne.Util.Odict.{Odict, OdictError, assertion_error, items, insert_at}

-- `l.insert(i, x)`, which counts a negative place from the end, and stops at the beginning
unfoldable pub insert_int : List String → ℤ → String → List String
unfolding insert_at
insert_int l (pos n) x = insert_at l n x
insert_int l (negsuc n) x = insert_at l (length l - suc n) x

abbrev insert_ordered : List String → Option ℤ → String → List String
insert_ordered l none k = l
insert_ordered l (some i) k = insert_int l i k

module _ (order : ℕ → Option ℤ) where
  -- the first loop
  unfoldable pub without_order : List (String × ℕ) → List String
  without_order [] = []
  without_order ((k, v) ∷ l) =
      let rest = without_order l in if is_none (order v) then k ∷ rest else rest

  -- the second loop
  unfoldable pub place_ordered : List (String × ℕ) → List String → List String
  unfolding insert_int
  place_ordered [] new_type_info = new_type_info
  place_ordered ((k, v) ∷ l) new_type_info =
      place_ordered l (insert_ordered new_type_info (order v) k)

  -- the assertion, and the list of keys that is replaced
  abbrev replace_keys : Odict String ℕ → List String → Result OdictError (Odict String ℕ)
  replace_keys d new_type_info =
      if length d.list == length new_type_info
      then ok (record d { list = new_type_info })
      else err assertion_error

  abbrev order_items :
      Odict String ℕ → Result OdictError (List (String × ℕ)) → Result OdictError (Odict String ℕ)
  order_items d (err e) = err e
  order_items d (ok l) = replace_keys d (place_ordered l (without_order l))

  unfoldable pub apply_order : Odict String ℕ → Result OdictError (Odict String ℕ)
  unfolding without_order place_ordered items
  apply_order d = order_items d (items d d.list)
