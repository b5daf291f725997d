-- ===== src/Server/Wsgi/Query/Collected.antt =====
-- What `_parse_qs` of spyne/server/wsgi.py collects for each name.
use mathlib.Core.List.{append_assoc}
use text.Mathlib.Text.{◌==◌ as str_eq}
use spyne.Prelude.{
  nat_eq, string_eq, ◌≡◌, refl, sym, ap, ◌∙◌, arith, Bool, true, false, String, Option, none, some,
  List, [], ◌∷◌, ◌++◌, ◌=?◌, if◌then◌else◌, Option-cases, Bool-cases, inl, inr, eq_of_beq,
}
use spyne.Prelude.Dict
use spyne.Prelude.Dict.{Dict, get-put, length-put, Distinct-put}
use spyne.Prelude.Exec.{Result, ok}
use spyne.Util.Odict.{OdictError, has}
use spyne.Util.Odict.Laws.{IsValid, assigned, setitem-IsValid}
use spyne.Server.Wsgi.Query.{
  QueryTexts, Fields, append_value, add_field, decode_pair, add_fields, split_all, parse_qs,
}

abbrev or_empty : Option (List (Option String)) → List (Option String)
or_empty none = []
or_empty (some l) = l

-- A list with more values behind it, which is there only if it was or if there are values.
abbrev pub extended :
    Option (List (Option String)) → List (Option String) → Option (List (Option String))
extended o [] = o
extended o (v ∷ vs) = some (or_empty o ++ v ∷ vs)

extended-one :
    (o : Option (List (Option String))) (v : Option String) (vs : List (Option String))
    → extended (some (or_empty o ++ v ∷ [])) vs ≡ some (or_empty o ++ v ∷ vs)
extended-one o v [] = refl
extended-one o v (w ∷ vs) = ap (λ l. some l) (append_assoc (or_empty o) (v ∷ []) (w ∷ vs))

-- What one more value for `key` makes of the values for `j`.
abbrev with_one :
    String → Option String → String → Option (List (Option String)) → Option (List (Option String))
with_one key value j o = if key =? j then some (or_empty o ++ value ∷ []) else o

at_key :
    (d : Dict String (List (Option String))) (key j : String) (value : Option String)
    (o : Option (List (Option String)))
    → Dict.get d key ≡ o
    → Dict.get (Dict.put d key (or_empty o ++ value ∷ [])) j ≡ with_one key value j (Dict.get d j)
at_key d key j value o e = elim (Bool-cases (key =? j)) [
  | inl same ↦
      let here : Dict.get d j ≡ o = ap (Dict.get d) (sym (eq_of_beq key j same)) ∙ e in
      rw (get-put d key j (or_empty o ++ value ∷ []), same, here) refl
  | inr other ↦ rw (get-put d key j (or_empty o ++ value ∷ []), other) refl
]

-- the same where the name is new, and gets an empty list first
at_new_key :
    (d : Dict String (List (Option String))) (key j : String) (value : Option String)
    → Dict.get d key ≡ none
    → Dict.get (Dict.put (Dict.put d key []) key (value ∷ [])) j
      ≡ with_one key value j (Dict.get d j)
at_new_key d key j value e =
    get-put (Dict.put d key []) key j (value ∷ [])
    ∙ ap (λ o. if key =? j then some (value ∷ []) else o) (get-put d key j [])
    ∙ twice (key =? j)
    ∙ sym (get-put d key j (value ∷ []))
    ∙ at_key d key j value none e
  where
    twice :
        (b : Bool)
        → (if b then some (value ∷ []) else if b then some [] else Dict.get d j)
          ≡ (if b then some (value ∷ []) else Dict.get d j)
    twice true = refl
    twice false = refl

append_value-IsValid :
    (d : Fields) (key : String) (l : List (Option String)) (value : Option String)
    → IsValid d
    → has d key ≡ true
    → IsValid (append_value key l value d)
unfolding append_value
append_value-IsValid d key l value h p = record {
  distinct = h.distinct;
  unique = Distinct-put d.dict key (l ++ value ∷ []) h.unique;
  same_keys = λ j.
      ground
        (arith, h.same_keys j, get-put d.dict key j (l ++ value ∷ []), string_eq.beq_iff key j);
  same_size = ground (arith, h.same_size, length-put d.dict key (l ++ value ∷ []));
}

-- The field is added, and nothing else changes.
abbrev Adds : Fields → String → Option String → Result OdictError Fields → Type 0
Adds d key value r =
    (d' : Fields) × (r ≡ ok d')
    × IsValid d'
    × ((j : String) → Dict.get d'.dict j ≡ with_one key value j (Dict.get d.dict j))

add_field-Adds :
    (d : Fields) (key : String) (value : Option String)
    → IsValid d
    → Adds d key value (add_field key value d)
unfolding add_field
add_field-Adds d key value h = elim (Option-cases (Dict.get d.dict key)) [
  | inl absent ↦
      let (made, valid) = setitem-IsValid d key [] h in
      rw (absent, made)
        (
          append_value key [] value (assigned d key []),
          refl,
          append_value-IsValid (assigned d key []) key [] value valid
              (ground (arith, get-put d.dict key key [], string_eq.beq_iff key key)),
          λ j. at_new_key d.dict key j value absent,
        )
  | inr (l, found) ↦ rw found (
    append_value key l value d,
    refl,
    append_value-IsValid d key l value h (ground (arith, found)),
    λ j. at_key d.dict key j value (some l) found,
  )
]

-- The values of a name, in their order.
abbrev pub values : List (String × Option String) → String → List (Option String)
values [] j = []
values ((key, value) ∷ l) j = if key =? j then value ∷ values l j else values l j

one_more :
    (key : String) (value : Option String) (j : String) (o : Option (List (Option String)))
    (l : List (String × Option String))
    → extended (with_one key value j o) (values l j) ≡ extended o (values ((key, value) ∷ l) j)
one_more key value j o l = go (key =? j)
  where
    go :
        (b : Bool)
        → extended (if b then some (or_empty o ++ value ∷ []) else o) (values l j)
          ≡ extended o (if b then value ∷ values l j else values l j)
    go true = extended-one o value (values l j)
    go false = refl

-- A dictionary that has, for each name, what `d` has with the values of `l` behind it.
abbrev Collects : Fields → List (String × Option String) → Result OdictError Fields → Type 0
Collects d l r =
    (d' : Fields) × (r ≡ ok d')
    × IsValid d'
    × ((j : String) → Dict.get d'.dict j ≡ extended (Dict.get d.dict j) (values l j))

module _ (texts : QueryTexts) where
  -- The names and values of all pairs but the empty ones, decoded.
  abbrev pub decoded : List String → List (String × Option String)
  decoded [] = []
  decoded (s ∷ pairs) = if str_eq s "" then decoded pairs else decode_pair texts s ∷ decoded pairs

  add_fields-Collects :
      (pairs : List String) (d : Fields)
      → IsValid d
      → Collects d (decoded pairs) (add_fields texts pairs d)
  unfolding add_fields
  add_fields-Collects [] d h = (d, refl, h, λ j. refl)
  add_fields-Collects (s ∷ pairs) d h = elim (Bool-cases (str_eq s "")) [
    | inl skipped ↦ rw skipped (add_fields-Collects pairs d h)
    | inr kept ↦
        let (key, value) = decode_pair texts s in
        let (d1, made, valid, has_it) = add_field-Adds d key value h in
        let (d2, rest, valid', all) = add_fields-Collects pairs d1 valid in
        rw (kept, made)
          (
            d2,
            rest,
            valid',
            λ j.
                all j
                ∙ ap (λ o. extended o (values (decoded pairs) j)) (has_it j)
                ∙ one_more key value j (Dict.get d.dict j) (decoded pairs),
          )
  ]

  empty_fields : IsValid {K = String} {V = List (Option String)} (record { list = []; dict = [] })
  unfolding Dict.get
  empty_fields = record { distinct = tt; unique = tt; same_keys = λ k. refl; same_size = refl }

  -- Parsing never fails. For each name of the query string, the dictionary that it leaves has the
  -- values that come with the name, decoded and in their order, and it has no other names.
  pub parse_qs-values :
      (qs : String)
      → (d : Fields) × (parse_qs texts qs ≡ ok d)
        × IsValid d
        × ((j : String)
            → Dict.get d.dict j
              ≡ extended none (values (decoded (split_all texts (texts.split qs "&"))) j))
  unfolding parse_qs Dict.get
  parse_qs-values qs =
      add_fields-Collects (split_all texts (texts.split qs "&")) (record { list = []; dict = [] })
        empty_fields
