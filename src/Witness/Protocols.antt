-- ===== src/Witness/Protocols.antt =====
-- Members with and without a declared order, and three classes.
use spyne.Prelude.{
  Distinct, ℕ, nat_eq, string_eq, ◌≡◌, refl, true, none, some, [], ◌∷◌, Option, ◌=?◌, ◌||◌,
}
use mathlib.Core.List.{Perm}
use spyne.Prelude.Int.{ℤ, pos, negsuc}
use spyne.Prelude.Dict
use spyne.Protocol.Fields.{Items, sort_fields}
use spyne.Protocol.Fields.Placed.{IsPlaced, sort_fields-IsPlaced}
use spyne.Protocol.Methods.{Classes}

-- A member's type is its order here: "b" comes last, and "c" first.
abbrev members : Items (Option ℤ)
members = ("b", some (negsuc 0)) ∷ ("a", none) ∷ ("c", some (pos 0)) ∷ []

members-Distinct : Distinct (Dict.keys members)
members-Distinct = (refl, (refl, (refl, tt)))

sort_fields-IsPlaced_example :
    Perm (sort_fields (λ o. o) (λ c. members) [] 1 none).0 members
    × IsPlaced (λ o. o) members (sort_fields (λ o. o) (λ c. members) [] 1 none).0
    × ((sort_fields (λ o. o) (λ c. []) (sort_fields (λ o. o) (λ c. members) [] 1 none).1 1 none).0
        ≡ (sort_fields (λ o. o) (λ c. members) [] 1 none).0)
unfolding Dict.get
sort_fields-IsPlaced_example =
    sort_fields-IsPlaced (λ o. o) (λ c. members) (λ c. []) [] 1 none none members members-Distinct
      refl refl

-- Class 2 derives from class 1, and class 3 from class 2, to which it is mapped.
abbrev classes : Classes
classes = record {
  orig = λ c. none;
  is_instance = λ c d. (d =? 1) || (c =? d);
  polymap = λ c. (3, 2) ∷ [];
}

polymap_sub : (c d : ℕ) → Dict.get (classes.polymap 1) c ≡ some d → classes.is_instance d 1 ≡ true
polymap_sub c d h = refl
