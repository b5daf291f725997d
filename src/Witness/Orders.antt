-- ===== src/Witness/Orders.antt =====
-- Three members, of which the last one is to stand first.
use mathlib.Core.Path.{subst}
use spyne.Prelude.{
  ℕ, zero, suc, nat_eq, string_eq, ◌≡◌, refl, String, Bool, ◌=?◌, not, Option, none, some, List, [],
  ◌∷◌,
}
use spyne.Prelude.Int.{ℤ, pos}
use spyne.Prelude.Dict
use spyne.Prelude.Dict.{contains-keys}
use spyne.Prelude.Exec.{ok, ok_injective}
use spyne.Util.Odict.{Odict, items}
use spyne.Util.Odict.Laws.{IsValid}
use spyne.Model.Complex.Order.{apply_order}
use spyne.Model.Complex.Order.Kept.{Tells, keep, apply_order-IsValid}

abbrev three : Odict String ℕ
three = record { list = "a" ∷ "b" ∷ "c" ∷ []; dict = ("a", 0) ∷ ("b", 0) ∷ ("c", 1) ∷ [] }

three-IsValid : IsValid three
three-IsValid = record {
  distinct = (refl, (refl, (refl, tt)));
  unique = (refl, (refl, (refl, tt)));
  same_keys = contains-keys three.dict;
  same_size = refl;
}

-- type 1 has the order 0
abbrev order : ℕ → Option ℤ
order zero = none
order (suc t) = some (pos 0)

abbrev not_c : String → Bool
not_c k = not (k =? "c")

tells : (l : List (String × ℕ)) → items three three.list ≡ ok l → Tells order not_c l
unfolding items Dict.get
tells l e = subst (Tells order not_c) (ok_injective _ l e) (refl, (refl, (refl, tt)))

apply_order-IsValid_example :
    (d' : Odict String ℕ) × (apply_order order three ≡ ok d')
    × IsValid d'
    × (d'.dict ≡ three.dict)
    × (keep not_c d'.list ≡ keep not_c three.list)
apply_order-IsValid_example = apply_order-IsValid order not_c three three-IsValid tells
