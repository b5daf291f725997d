-- ===== src/Server/Http/Matching.antt =====
-- Which pattern of spyne/server/http.py a request is matched with, and the parameters it gets.
use text.Mathlib.Text.{◌==◌ as str_eq}
use spyne.Prelude.{
  nat_eq, string_eq, ◌≡◌, Bool, true, false, ◌&&◌, String, Option, none, some, List, [], ◌∷◌, ◌++◌,
  All, if◌then◌else◌,
}
use spyne.Prelude.Dict
use spyne.Prelude.Dict.{Dict}
use spyne.Server.Http.{Groups, Match, Texts, HttpPattern, is_whole}

module _ {R : Type 0} (texts : Texts R) where
  abbrev whole_match : Option Match → String → Bool
  whole_match none s = false
  whole_match (some m) s = is_whole texts m s

  abbrev groups_of : Option Match → Groups
  groups_of none = []
  groups_of (some m) = m.groupdict

  -- Whether a part matches all of its text; a part that is None matches any.
  abbrev pub passes : Option R → String → Bool
  passes none s = true
  passes (some r) s = whole_match (texts.match r s) s

  -- The groups of a part that passes.
  abbrev pub part_groups : Option R → String → Groups
  part_groups none s = []
  part_groups (some r) s =
      if whole_match (texts.match r s) s then groups_of (texts.match r s) else []

  abbrev pub address_passes : HttpPattern R → Option R → String → Bool
  address_passes patt none path' = str_eq (texts.last_part path') patt.name
  address_passes patt (some r) path' = passes (some r) path'

  -- A pattern fits if all of its parts do.
  abbrev pub fits : String → String → String → HttpPattern R → Bool
  fits method path' host patt =
      passes patt.verb method && (passes patt.host host && address_passes patt patt.address path')

  -- The groups that a pattern adds: those of its parts up to the first that does not pass.
  abbrev pub groups : String → String → String → HttpPattern R → Groups
  groups method path' host patt =
      part_groups patt.verb method
      ++ (if passes patt.verb method
          then part_groups patt.host host
            ++ (if passes patt.host host then part_groups patt.address path' else [])
          else [])

  abbrev pub all_groups : String → String → String → List (HttpPattern R) → Groups
  all_groups method path' host [] = []
  all_groups method path' host (patt ∷ patterns) =
      groups method path' host patt ++ all_groups method path' host patterns

  -- none of the patterns fits
  abbrev pub Unfit : String → String → String → List (HttpPattern R) → Type 0
  Unfit method path' host patterns = All (λ patt. fits method path' host patt ≡ false) patterns
