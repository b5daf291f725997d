-- ===== src/Util/Odict.antt =====
-- spyne/util/odict.py: the ordered dictionary, a dict beside the list of its keys. An integer key
-- is a position, as in a list. Keys that are integers themselves are no names for this class.
pub mod Order
pub mod Laws
pub mod Merge
use spyne.Prelude.{
  ℕ, suc, zero, ◌+◌, ◌-◌, Bool, true, false, not, ◌&&◌, Option, none, some, is_none, List, [], ◌∷◌,
  ◌++◌, length, get_elem?, contains, Eq, ◌=?◌, ◌==◌, leb, if◌then◌else◌, arith,
}
use spyne.Prelude.Int.{ℤ, pos, negsuc}
use spyne.Prelude.Dict
use spyne.Prelude.Dict.{Dict}
use spyne.Prelude.Exec.{Result, ok, err}

pub record Odict (K V : Type 0) : Type 0 where
  pub list : List K
  pub dict : Dict K V

pub data OdictError : Type 0 where
  key_error index_error value_error assertion_error : OdictError

-- A key in brackets.
pub data Key (K : Type 0) : Type 0 where
  name : K → Key K
  index : ℤ → Key K

abbrev or_raise : {A : Type 0} → OdictError → Option A → Result OdictError A
or_raise e none = err e
or_raise e (some a) = ok a

abbrev or_default : {A : Type 0} → Option A → A → A
or_default none a = a
or_default (some a) _ = a

-- `l[i]` for an int i, which counts from the end if it is negative
unfoldable pub position : ℕ → ℤ → Option ℕ
position len (pos n) = if leb (suc n) len then some n else none
position len (negsuc n) = if leb (suc n) len then some (len - suc n) else none

module _ {A : Type 0} where
  -- `del l[i]`
  unfoldable pub delete_at : List A → ℕ → List A
  delete_at [] i = []
  delete_at (x ∷ l) zero = l
  delete_at (x ∷ l) (suc i) = x ∷ delete_at l i

  -- `l.insert(i, x)` with 0 ≤ i, which appends if i is past the end
  unfoldable pub insert_at : List A → ℕ → A → List A
  insert_at l zero x = x ∷ l
  insert_at [] (suc i) x = x ∷ []
  insert_at (y ∷ l) (suc i) x = y ∷ insert_at l i x

abbrev next : Option ℕ → Option ℕ
next none = none
next (some i) = some (suc i)

abbrev if_found : {V A : Type 0} → Option V → Result OdictError A → Result OdictError A
if_found none r = err key_error
if_found (some v) r = r

abbrev cons_item :
    {K V : Type 0}
    → K
    → Option V
    → Result OdictError (List (K × V))
    → Result OdictError (List (K × V))
cons_item k none r = err key_error
cons_item k (some v) (ok r) = ok ((k, v) ∷ r)
cons_item k (some v) (err x) = err x

module _ {K : Type 0} ⦃e : Eq K⦄ where
  -- `l.index(k)`, or ValueError
  unfoldable pub index_of : List K → K → Option ℕ
  index_of [] k = none
  index_of (j ∷ l) k = if j =? k then some 0 else next (index_of l k)

  -- the key at an index
  abbrev key_at : List K → Option ℕ → Option K
  key_at l none = none
  key_at l (some i) = get_elem? l i

  -- `del self.__list[self.__list.index(k)]` if `k in self`
  abbrev pub delete_if : List K → Bool → Option ℕ → Result OdictError (List K)
  delete_if l false i = ok l
  delete_if l true none = err value_error
  delete_if l true (some i) = ok (delete_at l i)

module _ {K V : Type 0} ⦃e : Eq K⦄ where
  -- the name that a key in brackets stands for
  unfoldable pub resolve : Odict K V → Key K → Result OdictError K
  unfolding position
  resolve d (name k) = ok k
  resolve d (index i) = or_raise index_error (key_at d.list (position (length d.list) i))

  abbrev value_of : Odict K V → Result OdictError K → Result OdictError V
  value_of d (ok k) = or_raise key_error (Dict.get d.dict k)
  value_of d (err x) = err x

  unfoldable pub getitem : Odict K V → Key K → Result OdictError V
  unfolding resolve
  getitem d key = value_of d (resolve d key)

  -- the assertion at the end of `__setitem__`
  unfoldable pub checked : Odict K V → Result OdictError (Odict K V)
  checked d = if length d.list == length d.dict then ok d else err assertion_error

  abbrev pub has : Odict K V → K → Bool
  has d k = not (is_none (Dict.get d.dict k))

  abbrev set_value : Odict K V → V → Result OdictError K → Result OdictError (Odict K V)
  set_value d v (ok k) = checked (record d { dict = Dict.put d.dict k v })
  set_value d v (err x) = err x

  unfoldable pub setitem : Odict K V → Key K → V → Result OdictError (Odict K V)
  unfolding resolve checked
  setitem d (index i) v = set_value d v (resolve d (index i))
  setitem d (name k) v =
      checked
        (record { list = if has d k then d.list else d.list ++ k ∷ []; dict = Dict.put d.dict k v })

  abbrev delete_key : Odict K V → K → Option ℕ → Result OdictError (Odict K V)
  delete_key d k none = err value_error
  delete_key d k (some i) = ok (record { list = delete_at d.list i; dict = Dict.remove d.dict k })

  abbrev delete_name : Odict K V → K → Option V → Result OdictError (Odict K V)
  delete_name d k none = err key_error
  delete_name d k (some v) = delete_key d k (index_of d.list k)

  abbrev delete_named : Odict K V → Option ℕ → Option K → Result OdictError (Odict K V)
  delete_named d i none = err index_error
  delete_named d i (some k) = if_found (Dict.get d.dict k) (delete_key d k i)

  unfoldable pub delitem : Odict K V → Key K → Result OdictError (Odict K V)
  unfolding delete_at position index_of
  delitem d (name k) = delete_name d k (Dict.get d.dict k)
  delitem d (index i) = let j = position (length d.list) i in delete_named d j (key_at d.list j)

  -- `items`, and what `iteritems` yields
  unfoldable pub items : Odict K V → List K → Result OdictError (List (K × V))
  items d [] = ok []
  items d (k ∷ l) = cons_item k (Dict.get d.dict k) (items d l)

  abbrev then_update :
      Result OdictError (Odict K V)
      → (Odict K V → Result OdictError (Odict K V))
      → Result OdictError (Odict K V)
  then_update (err x) f = err x
  then_update (ok d) f = f d

  -- `update` with a sequence of pairs
  unfoldable pub update : List (K × V) → Odict K V → Result OdictError (Odict K V)
  unfolding setitem
  update [] d = ok d
  update ((k, v) ∷ data') d = then_update (setitem d (name k) v) (update data')

  abbrev update_items : Result OdictError (List (K × V)) → Odict K V → Result OdictError (Odict K V)
  update_items (err x) d = err x
  update_items (ok data') d = update data' d

  -- `update` with a dictionary
  unfoldable pub merge : Odict K V → Odict K V → Result OdictError (Odict K V)
  unfolding update items
  merge a d = update_items (items a a.list) d

  -- `get` of a name
  unfoldable pub get : Odict K V → K → V → V
  get d key default = or_default (Dict.get d.dict key) default

  abbrev insert_key :
      Odict K V → ℕ → K → V → Result OdictError (List K) → Result OdictError (Odict K V)
  insert_key d i k v (err x) = err x
  insert_key d i k v (ok l) = ok (record { list = insert_at l i k; dict = Dict.put d.dict k v })

  unfoldable pub insert : Odict K V → ℕ → K → V → Result OdictError (Odict K V)
  unfolding delete_at insert_at index_of
  insert d i k v = insert_key d i k v (delete_if d.list (has d k) (index_of d.list k))
