-- ===== src/Witness/Documents.antt =====
-- A flat document with the indexes 3 and 7, to which 5 comes, and a class with two members.
use spyne.Prelude.{ℕ, nat_eq, string_eq, String, ◌≡◌, refl, arith, none, some, List, [], ◌∷◌}
use spyne.Prelude.Dict
use spyne.Protocol.Sparse.{Slots, find_slot}
use spyne.Protocol.Sparse.Ranks.{rank}
use spyne.Protocol.Sparse.Sorted.{Represents, find_slot-Represents, with_index}
use spyne.Protocol.Frequencies.{MemberType}

abbrev entries : List (ℕ × String)
entries = (3, "x") ∷ (7, "y") ∷ []

abbrev slots : Slots String
slots = ((7, 1) ∷ (3, 0) ∷ [], "x" ∷ "y" ∷ [])

slots-Represents : Represents slots entries
unfolding Dict.get rank
slots-Represents = record {
  distinct = (refl, (refl, tt));
  ranks = λ i. ground arith;
  sorted = ((omega arith, tt), (tt, tt));
  items = refl;
}

find_slot-Represents_example :
    Represents (find_slot slots 5 "z").0 (with_index entries 5 "z" (rank entries 5))
    × (rank (with_index entries 5 "z" (rank entries 5)) 5 ≡ some (find_slot slots 5 "z").1)
find_slot-Represents_example = find_slot-Represents slots entries 5 "z" slots-Represents

abbrev members : List (String × MemberType)
members =
    (
      "id",
      record {
        attrs = record { min_occurs = 1; max_occurs = some 1 };
        own_max = some 1;
        item = none;
      },
    )
    ∷ (
      "tags",
      record {
        attrs = record { min_occurs = 0; max_occurs = some 1 };
        own_max = some 1;
        item = some (record { min_occurs = 0; max_occurs = some 2 });
      },
    )
    ∷ []
