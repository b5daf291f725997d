-- ===== src/Protocol/Durations/Roundtrip.antt =====
-- The durations that spyne/protocol prints are read back.
use mathlib.Core.Path.{ap₂}
use spyne.Prelude.{
  ℕ, nat_eq, ◌≡◌, ◌<◌, ap, ◌∙◌, arith, ◌+◌, ◌*◌, ◌/◌, ◌%◌, Bool, true, false, not, ◌&&◌, ltb, ◌==◌,
  String, Option, none, some, [], ◌∷◌, ◌++◌, if◌then◌else◌, Bool-cases, inl, inr, ltb→lt, ltb→le,
}
use spyne.Prelude.Int.{ℤ, pos, negsuc}
use spyne.Prelude.Exec.{ok}
use spyne.Protocol.Durations.{
  DurationMatch, is_negative, magnitude, join, finish, date_part, time_part, print_parts,
  duration_to_unicode, negated, seconds_value, delta, read_match, duration_from_unicode,
}
use spyne.Protocol.Durations.Pieces.{
  when, or_zero-when, or_zero-when_days, whole, days_of, hours_of, minutes_of, seconds_of, matched,
  date_text, time_text, positive_part_lem, seconds_part_lem, date_part_lem, finish_lem,
}

abbrev pub signed : Bool → ℕ → ℤ
signed negative n = if negative then negated n else pos n

module _ (show : ℕ → String) where
  -- What the regular expression makes of the texts for `d` days and `s` seconds: with and without a
  -- time, and of the text for nothing.
  pub record Reads (match : String → Option DurationMatch) (negative : Bool) (d s : ℕ)
      : Type 0 where
    pub date :
        match (join (date_text show negative (days_of d)))
        ≡ some (matched negative (days_of d) none none none)
    pub time :
        match (
          join (
            date_text show negative (days_of d)
            ++ time_text show (hours_of s) (minutes_of s) (seconds_of s)))
        ≡ some (matched negative (days_of d) (hours_of s) (minutes_of s) (seconds_of s))
    pub nothing : match "PT0S" ≡ some (matched false none none none (some 0))

module _ (show : ℕ → String) (fraction : String → ℕ) (match : String → Option DurationMatch) where
  seconds_value-whole : (n : ℕ) → seconds_value fraction (whole (when (ltb 0 n) n)) ≡ n * 1000000
  seconds_value-whole n = ground arith

  parts_lem :
      (negative : Bool) (d s : ℕ)
      → (date_part show negative d ++ "T" ∷ time_part show s 0) ≡ (
          date_text show negative (days_of d)
          ++ time_text show (hours_of s) (minutes_of s) (seconds_of s))
  parts_lem negative d s =
      let hours = positive_part_lem show (s / 60 / 60) "H" in
      let minutes = positive_part_lem show (s / 60 % 60) "M" in
      let seconds = seconds_part_lem show (s % 60) in
      ap₂ (λ a b. a ++ "T" ∷ b) (date_part_lem show negative d)
        (ap₂ ◌++◌ hours (ap₂ ◌++◌ minutes seconds))

  read_date :
      (negative : Bool) (d s : ℕ)
      → Reads show match negative d s
      → duration_from_unicode fraction match (join (date_part show negative d))
        ≡ ok (signed negative (d * 86400 * 1000000))
  unfolding duration_from_unicode delta
  read_date negative d s reads =
      ap (λ l. read_match fraction (match (join l))) (date_part_lem show negative d)
      ∙ ap (read_match fraction) reads.date
      ∙ ap (λ n. ok (signed negative n)) (omega (arith, or_zero-when_days d))

  read_time :
      (negative : Bool) (d s : ℕ)
      → Reads show match negative d s
      → duration_from_unicode fraction match
          (join (date_part show negative d ++ "T" ∷ time_part show s 0))
        ≡ ok (signed negative ((d * 86400 + s) * 1000000))
  unfolding duration_from_unicode delta
  read_time negative d s reads =
      ap (λ l. read_match fraction (match (join l))) (parts_lem negative d s)
      ∙ ap (read_match fraction) reads.time
      ∙ ap (λ n. ok (signed negative n))
          (omega (
            arith,
            or_zero-when_days d,
            or_zero-when (s / 60 / 60),
            or_zero-when (s / 60 % 60),
            seconds_value-whole (s % 60),
          ))

  read_zero :
      match "PT0S" ≡ some (matched false none none none (some 0))
      → duration_from_unicode fraction match (join ("P" ∷ "T" ∷ "0S" ∷ [])) ≡ ok (pos 0)
  unfolding duration_from_unicode delta
  read_zero nothing = ap (read_match fraction) nothing

  read_empty :
      (negative : Bool) (d s : ℕ)
      → d ≡ 0
      → s ≡ 0
      → negative ≡ false
      → Reads show match negative d s
      → duration_from_unicode fraction match
          (join (finish show (date_part show negative d ++ "T" ∷ time_part show s 0)))
        ≡ ok (signed negative ((d * 86400 + s) * 1000000))
  read_empty negative d s no_days no_secs positive reads =
      rw (no_days, no_secs, positive) (read_zero reads.nothing)

  read_finished :
      (negative : Bool) (d s : ℕ)
      → s < 86400
      → (negative ≡ true → 0 < d + s)
      → Reads show match negative d s
      → duration_from_unicode fraction match
          (join (finish show (date_part show negative d ++ "T" ∷ time_part show s 0)))
        ≡ ok (signed negative ((d * 86400 + s) * 1000000))
  read_finished negative d s lt nonzero reads = elim (Bool-cases (ltb 0 (d + s))) [
    | inl some' ↦
        ap (λ l. duration_from_unicode fraction match (join l))
          (finish_lem show negative d s lt (ltb→lt 0 (d + s) some'))
        ∙ read_time negative d s reads
    | inr none' ↦
        let nothing : d + s ≡ 0 = omega (arith, ltb→le 0 (d + s) none') in
        read_empty negative d s (omega (arith, nothing)) (omega (arith, nothing))
          (ground (arith, nonzero, nothing)) reads
  ]

  read_parts :
      (negative : Bool) (d s : ℕ)
      → s < 86400
      → (negative ≡ true → 0 < d + s)
      → Reads show match negative d s
      → duration_from_unicode fraction match (join (print_parts show negative d s 0))
        ≡ ok (signed negative ((d * 86400 + s) * 1000000))
  unfolding print_parts
  read_parts negative d s lt nonzero reads =
      elim (Bool-cases (not (d * 86400 + s == 0) && ((d * 86400 + s) % 86400 == 0 && true))) [
        | inl days_only ↦ rw days_only (
            read_date negative d s reads
            ∙ ap (λ n. ok (signed negative n)) (ground (arith, days_only, lt)))
        | inr other ↦ rw other (read_finished negative d s lt nonzero reads)
      ]

  signed_lem : (v : ℤ) (n : ℕ) → n ≡ magnitude v → signed (is_negative v) n ≡ v
  signed_lem (pos m) n e = ap pos e
  signed_lem (negsuc m) n e = ap negated e

  nonzero : (v : ℤ) → is_negative v ≡ true → 0 < magnitude v
  nonzero (pos n) e = cc
  nonzero (negsuc n) e = omega arith

  -- A duration of whole seconds is read back as it was printed, whatever its sign and size, if the
  -- regular expression matches its text by its groups.
  pub duration_from_unicode-duration_to_unicode :
      (v : ℤ)
      → magnitude v % 1000000 ≡ 0
      → Reads show match
          (is_negative v)
          (magnitude v / 1000000 / 86400)
          (magnitude v / 1000000 % 86400)
      → duration_from_unicode fraction match (duration_to_unicode show v) ≡ ok v
  unfolding duration_to_unicode
  duration_from_unicode-duration_to_unicode v e reads =
      let n = magnitude v in
      let d = n / 1000000 / 86400 in
      let s = n / 1000000 % 86400 in
      ap (λ u. duration_from_unicode fraction match (join (print_parts show (is_negative v) d s u)))
        e
      ∙ read_parts (is_negative v) d s (omega arith) (λ b. omega (arith, nonzero v b, e)) reads
      ∙ ap (λ w. ok w) (signed_lem v ((d * 86400 + s) * 1000000) (omega (arith, e)))
