-- ===== src/Protocol/Sparse.antt =====
-- spyne/protocol/dictdoc/simple.py: `_s2cmi`, by which the items of a flat document such as
-- `a[7].x=1&a[3].x=2` go to a list in the order of their indexes, whatever order they come in.
pub mod Ranks
pub mod Sorted
use spyne.Prelude.{
  ℕ, zero, suc, nat_eq, ltb, leb, Option, none, some, List, [], ◌∷◌, get_elem?, if◌then◌else◌,
}
use spyne.Prelude.Dict
use spyne.Prelude.Dict.{Dict}
use spyne.Util.Odict.{insert_at}

-- the loop, for the entries that are changed
unfoldable pub shift : Dict ℕ ℕ → ℕ → Dict ℕ ℕ
shift [] nidx = []
shift ((i, v) ∷ m) nidx = (i, if leb nidx i then suc v else v) ∷ shift m nidx

-- `nv + 1` after one round, which is 0 at first
abbrev pub after_entry : ℕ → ℕ → ℕ → ℕ → ℕ
after_entry nidx i v next = if leb nidx i then next else if ltb v next then next else suc v

-- the loop, for `nv + 1`
unfoldable pub next_value : Dict ℕ ℕ → ℕ → ℕ → ℕ
next_value [] nidx next = next
next_value ((i, v) ∷ m) nidx next = next_value m nidx (after_entry nidx i v next)

unfoldable pub s2cmi : Dict ℕ ℕ → ℕ → Dict ℕ ℕ × ℕ
unfolding shift next_value
s2cmi m nidx = let nv = next_value m nidx 0 in (Dict.put (shift m nidx) nidx nv, nv)

-- the map `idxmap[id(ninst)]` and the list `ninst`
abbrev pub Slots : Type 0 → Type 0
Slots A = Dict ℕ ℕ × List A

module _ {A : Type 0} where
  abbrev pub slot_or_new : Slots A → ℕ → A → Option ℕ → Slots A × ℕ
  slot_or_new (m, ninst) nidx newval (some cidx) = ((m, ninst), cidx)
  slot_or_new (m, ninst) nidx newval none =
      let (m', cidx) = s2cmi m nidx in ((m', insert_at ninst cidx newval), cidx)

  -- The branch of `simple_dict_to_object` for arrays that are not strict: the slots, and the
  -- position of the instance for the index `nidx`.
  unfoldable pub find_slot : Slots A → ℕ → A → Slots A × ℕ
  unfolding s2cmi insert_at
  find_slot slots nidx newval = slot_or_new slots nidx newval (Dict.get slots.0 nidx)
