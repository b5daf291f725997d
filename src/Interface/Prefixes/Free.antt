-- ===== src/Interface/Prefixes/Free.antt =====
-- The loop of `get_namespace_prefix` of spyne/interface/_base.py ends at a prefix that is free.
use spyne.Prelude.{
  ℕ, zero, suc, ◌≡◌, ◌≤◌, ◌<◌, refl, sym, ◌∙◌, arith, String, string_eq, true, false, some, is_none,
  [], ◌∷◌, length, Bool-cases, inl, inr,
}
use spyne.Prelude.Dict
use spyne.Prelude.Dict.{Dict, get-put, get-remove}
use spyne.Interface.Prefixes.{free_counter}

length-remove-le : (d : Dict String String) (k : String) → length (Dict.remove d k) ≤ length d
unfolding Dict.remove
length-remove-le [] k = omega arith
length-remove-le ((j, w) ∷ d) k = ground (arith, length-remove-le d k)

length-remove-lt :
    (d : Dict String String) (k : String)
    → is_none (Dict.get d k) ≡ false
    → length (Dict.remove d k) < length d
unfolding Dict.remove Dict.get
length-remove-lt [] k h = cc
length-remove-lt ((j, w) ∷ d) k h = ground (arith, length-remove-le d k, length-remove-lt d k)

module _ (prefix : ℕ → String) (prefix_injective : (a b : ℕ) → prefix a ≡ prefix b → a ≡ b) where
  -- The loop does not see a prefix below its counter.
  free_counter-remove :
      (fuel : ℕ) (d : Dict String String) (c b : ℕ)
      → b < c
      → free_counter prefix fuel (Dict.remove d (prefix b)) c ≡ free_counter prefix fuel d c
  unfolding free_counter
  free_counter-remove zero d c b h = refl
  free_counter-remove (suc fuel) d c b h = ground (
    arith,
    get-remove d (prefix b) (prefix c),
    string_eq.beq_iff (prefix b) (prefix c),
    prefix_injective b c,
    free_counter-remove fuel d (suc c) b,
  )

  -- With more fuel than the table has entries the loop finds a prefix that is free.
  pub free_counter_total :
      (fuel : ℕ) (d : Dict String String) (c : ℕ)
      → length d < fuel
      → (r : ℕ) × (free_counter prefix fuel d c ≡ some r)
  unfolding free_counter
  free_counter_total zero d c h = absurd (omega arith)
  free_counter_total (suc fuel) d c h = elim (Bool-cases (is_none (Dict.get d (prefix c)))) [
    | inl free ↦ (c, rw free)
    | inr taken ↦
        let (r, p) =
          free_counter_total fuel (Dict.remove d (prefix c)) (suc c)
            (omega (arith, length-remove-lt d (prefix c) taken)) in
        (r, rw taken (sym (free_counter-remove fuel d (suc c) c (omega arith)) ∙ p))
  ]

pub free_counter-is_none :
    (prefix : ℕ → String) (fuel : ℕ) (d : Dict String String) (c r : ℕ)
    → free_counter prefix fuel d c ≡ some r
    → is_none (Dict.get d (prefix r)) ≡ true
unfolding free_counter
free_counter-is_none prefix zero d c r h = cc
free_counter-is_none prefix (suc fuel) d c r h =
    elim (Bool-cases (is_none (Dict.get d (prefix c)))) [
      | inl free ↦ ground arith
      | inr taken ↦ free_counter-is_none prefix fuel d (suc c) r (ground arith)
    ]
