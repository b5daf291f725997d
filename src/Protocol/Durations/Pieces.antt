-- ===== src/Protocol/Durations/Pieces.antt =====
-- The parts of the texts that `duration_to_unicode` of spyne/protocol/_outbase.py prints.
use Prim.Native.String.{◌++◌ as ◌+s+◌}
use spyne.Prelude.{
  ℕ, zero, suc, nat_eq, ◌≡◌, ◌⊎◌, ◌<◌, refl, arith, ◌+◌, ◌/◌, ◌%◌, Bool, true, false, not, ◌||◌,
  ltb, ◌==◌, String, Option, none, some, List, [], ◌∷◌, ◌++◌, length, length-append, if◌then◌else◌,
  inl, inr,
}
use spyne.Protocol.Durations.{
  DurationMatch, positive_part, seconds_part, finish, date_part, time_part, or_zero,
}

abbrev pub when : Bool → ℕ → Option ℕ
when true n = some n
when false n = none

pub or_zero-when : (n : ℕ) → or_zero (when (ltb 0 n) n) ≡ n
or_zero-when n = ground arith

pub or_zero-when_days : (n : ℕ) → or_zero (when (not (n == 0)) n) ≡ n
or_zero-when_days n = ground arith

-- the group for a number of seconds without a fraction
abbrev pub whole : Option ℕ → Option (ℕ × Option String)
whole none = none
whole (some n) = some (n, none)

-- the groups that are there
abbrev pub days_of : ℕ → Option ℕ
days_of d = when (not (d == 0)) d

abbrev pub hours_of : ℕ → Option ℕ
hours_of s = when (ltb 0 (s / 60 / 60)) (s / 60 / 60)

abbrev pub minutes_of : ℕ → Option ℕ
minutes_of s = when (ltb 0 (s / 60 % 60)) (s / 60 % 60)

abbrev pub seconds_of : ℕ → Option ℕ
seconds_of s = when (ltb 0 (s % 60)) (s % 60)

abbrev pub matched : Bool → Option ℕ → Option ℕ → Option ℕ → Option ℕ → DurationMatch
matched negative d h m s = record {
  sign = negative;
  years = none;
  months = none;
  days = d;
  hours = h;
  minutes = m;
  seconds = whole s;
}

module _ (show : ℕ → String) where
  abbrev pub opt : Option ℕ → String → List String
  opt none unit = []
  opt (some n) unit = (show n +s+ unit) ∷ []

  abbrev pub opt_seconds : Option ℕ → List String
  opt_seconds none = []
  opt_seconds (some n) = show n ∷ "S" ∷ []

  abbrev pub date_text : Bool → Option ℕ → List String
  date_text negative days = (if negative then "-P" else "P") ∷ opt days "D"

  abbrev pub time_text : Option ℕ → Option ℕ → Option ℕ → List String
  time_text hours minutes seconds =
      "T" ∷ (opt hours "H" ++ (opt minutes "M" ++ opt_seconds seconds))

  pub positive_part_lem : (n : ℕ) (u : String) → positive_part show n u ≡ opt (when (ltb 0 n) n) u
  positive_part_lem n u = go (ltb 0 n)
    where
      go : (b : Bool) → (if b then (show n +s+ u) ∷ [] else []) ≡ opt (when b n) u
      go true = refl
      go false = refl

  pub seconds_part_lem : (n : ℕ) → seconds_part show n 0 ≡ opt_seconds (when (ltb 0 n) n)
  seconds_part_lem n = go (ltb 0 n)
    where
      go : (b : Bool) → (if b || false then show n ∷ "S" ∷ [] else []) ≡ opt_seconds (when b n)
      go true = refl
      go false = refl

  pub date_part_lem :
      (negative : Bool) (d : ℕ) → date_part show negative d ≡ date_text negative (days_of d)
  date_part_lem negative d = go (not (d == 0))
    where
      go :
          (b : Bool)
          → ◌≡◌ {A = List String}
              ((if negative then "-P" else "P") ∷ (if b then (show d +s+ "D") ∷ [] else []))
              (date_text negative (when b d))
      go true = refl
      go false = refl

  -- `finish` leaves a text as it is that has more than two parts.
  finish_long : (l : List String) → 2 < length l → finish show l ≡ l
  finish_long l h = ground arith

  length-positive_part : (n : ℕ) (u : String) → (n ≡ 0) ⊎ (0 < length (positive_part show n u))
  length-positive_part zero u = inl refl
  length-positive_part (suc n) u = inr (ground arith)

  length-seconds_part : (n : ℕ) → (n ≡ 0) ⊎ (0 < length (seconds_part show n 0))
  length-seconds_part zero = inl refl
  length-seconds_part (suc n) = inr (ground arith)

  length-date_part : (b : Bool) (d : ℕ) → (d ≡ 0) ⊎ (1 < length (date_part show b d))
  length-date_part b zero = inl refl
  length-date_part b (suc d) = inr (ground arith)

  one_part : (b : Bool) (d : ℕ) → 0 < length (date_part show b d)
  one_part b d = omega arith

  length-time_part : (s : ℕ) → s < 86400 → (s ≡ 0) ⊎ (0 < length (time_part show s 0))
  length-time_part s lt =
      let hours = positive_part show (s / 60 / 60) "H" in
      let minutes = positive_part show (s / 60 % 60) "M" in
      let seconds = seconds_part show (s % 60) 0 in
      let all_three = length-append hours (minutes ++ seconds) in
      let last_two = length-append minutes seconds in
      elim (length-positive_part (s / 60 / 60) "H") [
        | inr h ↦ inr (omega (arith, all_three, h))
        | inl no_hours ↦ elim (length-positive_part (s / 60 % 60) "M") [
          | inr m ↦ inr (omega (arith, all_three, last_two, m))
          | inl no_minutes ↦ elim (length-seconds_part (s % 60)) [
            | inr n ↦ inr (omega (arith, all_three, last_two, n))
            | inl no_seconds ↦ inl (omega (arith, no_hours, no_minutes, no_seconds))
          ]
        ]
      ]

  pub finish_lem :
      (negative : Bool) (d s : ℕ)
      → s < 86400
      → 0 < d + s
      → finish show (date_part show negative d ++ "T" ∷ time_part show s 0)
        ≡ (date_part show negative d ++ "T" ∷ time_part show s 0)
  finish_lem negative d s lt some' =
      let all = length-append (date_part show negative d) ("T" ∷ time_part show s 0) in
      elim (length-date_part negative d) [
        | inr days ↦ finish_long _ (omega (arith, all, days))
        | inl no_days ↦ elim (length-time_part s lt) [
          | inr time ↦ finish_long _ (omega (arith, all, time, one_part negative d))
          | inl no_time ↦ absurd (omega (arith, no_days, no_time, some'))
        ]
      ]
