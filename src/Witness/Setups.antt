-- ===== src/Witness/Setups.antt =====
-- Two services, one of which shares its auxiliary processor, and three classes in a chain.
use spyne.Prelude.{
  ℕ, zero, suc, nat_eq, string_eq, ◌≡◌, refl, String, Option, none, some, List, [], ◌∷◌, contains,
  Distinct, arith, All, ◌<◌,
}
use spyne.Prelude.Dict
use spyne.Prelude.Dict.{Dict}
use spyne.Prelude.Exec.{ok, modify}
use spyne.Application.Setup.{Descriptor, check_unique_method_keys, reinitialize, each, all_keys}
use spyne.Application.Setup.Once.{
  Verdict, check_unique_method_keys-Verdict, reinitialize-InitializesOnce, objects,
}
use spyne.Util.Cdict.{class_key, instance_key, getitem, reversed}
use spyne.Util.Cdict.Inherited.{
  IsInherited, IsCache, Answers, getitem-Answers, getitem_instance_lem, first_of, or_else,
}

abbrev methods : List Descriptor
methods =
    record { id = 1; internal_key = "a"; aux = some 7; service_class = some 9 }
    ∷ record { id = 2; internal_key = "b"; aux = some 7; service_class = none }
    ∷ []

check_unique_method_keys-Verdict_example :
    Verdict []
      (all_keys (methods ∷ methods ∷ []))
      (check_unique_method_keys (methods ∷ methods ∷ []))
check_unique_method_keys-Verdict_example = check_unique_method_keys-Verdict (methods ∷ methods ∷ [])

reinitialize-InitializesOnce_example :
    (l : List ℕ) × Distinct l
    × ((x : ℕ) → contains l x ≡ contains (objects methods) x)
    × ((s : List ℕ)
        → reinitialize {E = String} (λ x. modify λ done. x ∷ done) methods s
          ≡ each (λ x. modify λ done. x ∷ done) l s)
reinitialize-InitializesOnce_example =
    reinitialize-InitializesOnce (λ x. modify λ done. x ∷ done) methods

-- Class 2 derives from class 1, and class 1 from class 0.
abbrev bases : ℕ → List ℕ
bases zero = []
bases (suc c) = c ∷ []

abbrev entries : Dict ℕ String
entries = (0, "object") ∷ (1, "base") ∷ []

abbrev value : ℕ → Option String
value zero = some "object"
value (suc c) = some "base"

value_lem : (c : ℕ) → value c ≡ or_else (Dict.get entries c) (first_of value (reversed (bases c)))
unfolding Dict.get
value_lem zero = refl
value_lem (suc zero) = refl
value_lem (suc (suc c)) = ground arith

older : (c : ℕ) → All (λ b. b < c) (bases c)
older zero = tt
older (suc c) = (omega arith, tt)

entries-IsInherited : IsInherited bases entries value
entries-IsInherited = record { inherited = value_lem; older = older }

entries-value : (c : ℕ) (v : String) → Dict.get entries c ≡ some v → value c ≡ some v
unfolding Dict.get
entries-value zero v e = e
entries-value (suc zero) v e = e
entries-value (suc (suc c)) v e = absurd (ground (arith, e))

entries-IsCache : IsCache bases entries value entries
entries-IsCache = record { cached = entries-value; complete = λ c e. e }

getitem-Answers_example :
    Answers bases entries value (some "base") (getitem bases 3 (class_key 2) entries)
getitem-Answers_example =
    getitem-Answers bases entries value 2 entries entries-IsInherited entries-IsCache

getitem_instance_lem_example :
    ((getitem bases 1 (instance_key 1) entries).0 ≡ ok "object")
    × ((v : String)
        → some "object" ≡ some v
        → Dict.get (getitem bases 1 (instance_key 1) entries).1 1 ≡ some v)
getitem_instance_lem_example =
    getitem_instance_lem bases entries value 1 entries entries-IsInherited entries-IsCache
