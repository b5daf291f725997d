-- ===== src/Witness/Queries.antt =====
-- The query string a=1&b&a=2.
use spyne.Prelude.{String, string_eq, ◌≡◌, none, some, [], ◌∷◌, ◌=?◌, if◌then◌else◌}
use spyne.Prelude.Dict
use spyne.Prelude.Exec.{ok}
use spyne.Util.Odict.Laws.{IsValid}
use spyne.Server.Wsgi.Query.{QueryTexts, Fields, parse_qs, split_all}
use spyne.Server.Wsgi.Query.Collected.{parse_qs-values, extended, values}

abbrev query_texts : QueryTexts
query_texts = record {
  split = λ s sep.
      if s =? "a=1&b&a=2"
      then (if sep =? "&" then "a=1" ∷ "b" ∷ "a=2" ∷ [] else s ∷ [])
      else s ∷ [];
  split_once = λ s.
      if s =? "a=1" then ("a", some "1") else if s =? "a=2" then ("a", some "2") else (s, none);
  decode = λ s. s;
}

parse_qs-values_example :
    (d : Fields) × (parse_qs query_texts "a=1&b&a=2" ≡ ok d)
    × IsValid d
    × ((j : String)
        → Dict.get d.dict j
          ≡ extended none (values (("a", some "1") ∷ ("b", none) ∷ ("a", some "2") ∷ []) j))
unfolding split_all
parse_qs-values_example = parse_qs-values query_texts "a=1&b&a=2"
