-- ===== src/Protocol/Durations.antt =====
-- spyne/protocol/_outbase.py `duration_to_unicode` and spyne/protocol/_inbase.py
-- `duration_from_unicode`. A `timedelta` is its number of microseconds. `show n` stands for
-- `"%i" % n`, and the regular expression is a parameter, as is the reading of a fraction, which is a
-- float.
pub mod Pieces
pub mod Roundtrip
use Prim.Native.String.{◌++◌ as ◌+s+◌}
use spyne.Prelude.{
  ℕ, zero, suc, nat_eq, ◌+◌, ◌*◌, ◌/◌, ◌%◌, Bool, true, false, not, ◌&&◌, ◌||◌, ltb, ◌==◌, String,
  Option, none, some, List, [], ◌∷◌, ◌++◌, length, if◌then◌else◌,
}
use spyne.Prelude.Int.{ℤ, pos, negsuc}
use spyne.Prelude.Exec.{Result, ok, err}
use spyne.Fault.{Exn, other}

-- `value.days < 0`
abbrev pub is_negative : ℤ → Bool
is_negative (pos n) = false
is_negative (negsuc n) = true

-- the microseconds of `value`, or of `-value` if it is negative
abbrev pub magnitude : ℤ → ℕ
magnitude (pos n) = n
magnitude (negsuc n) = suc n

-- `''.join(retval)`
abbrev pub join : List String → String
join [] = ""
join (s ∷ l) = s +s+ join l

module _ (show : ℕ → String) where
  abbrev pub positive_part : ℕ → String → List String
  positive_part n unit = if ltb 0 n then (show n +s+ unit) ∷ [] else []

  abbrev pub seconds_part : ℕ → ℕ → List String
  seconds_part seconds useconds =
      if ltb 0 seconds || ltb 0 useconds
      then show seconds
        ∷ ((if ltb 0 useconds then ("." +s+ show useconds) ∷ [] else []) ++ "S" ∷ [])
      else []

  -- `if len(retval) == 2`
  abbrev pub finish : List String → List String
  finish retval = if length retval == 2 then retval ++ "0S" ∷ [] else retval

  abbrev pub date_part : Bool → ℕ → List String
  date_part negative days =
      (if negative then "-P" else "P") ∷ (if not (days == 0) then (show days +s+ "D") ∷ [] else [])

  abbrev pub time_part : ℕ → ℕ → List String
  time_part secs useconds =
      positive_part (secs / 60 / 60) "H"
      ++ (positive_part (secs / 60 % 60) "M" ++ seconds_part (secs % 60) useconds)

  -- the parts of the text, for `days`, `seconds` and `microseconds` of the duration
  unfoldable pub print_parts : Bool → ℕ → ℕ → ℕ → List String
  print_parts negative days secs useconds =
      let tot_sec = days * 86400 + secs in
      if not (tot_sec == 0) && ((tot_sec % 86400 == 0) && (useconds == 0))
      then date_part negative days
      else finish (date_part negative days ++ "T" ∷ time_part secs useconds)

  unfoldable pub duration_to_unicode : ℤ → String
  unfolding print_parts
  duration_to_unicode value =
      let n = magnitude value in
      join
        (print_parts (is_negative value) (n / 1000000 / 86400) (n / 1000000 % 86400) (n % 1000000))

-- The groups of `_duration_re`, None where one took no part; `seconds` with its fraction.
pub record DurationMatch : Type 0 where
  pub sign : Bool
  pub years : Option ℕ
  pub months : Option ℕ
  pub days : Option ℕ
  pub hours : Option ℕ
  pub minutes : Option ℕ
  pub seconds : Option (ℕ × Option String)

-- `groupdict(0)`
abbrev pub or_zero : Option ℕ → ℕ
or_zero none = 0
or_zero (some n) = n

-- `delta *= -1`
abbrev pub negated : ℕ → ℤ
negated zero = pos 0
negated (suc n) = negsuc n

module _ (fraction : String → ℕ) where
  -- the microseconds of the group `seconds`
  abbrev pub seconds_value : Option (ℕ × Option String) → ℕ
  seconds_value none = 0
  seconds_value (some (s, none)) = s * 1000000
  seconds_value (some (s, some f)) = s * 1000000 + fraction f

  unfoldable pub delta : DurationMatch → ℤ
  delta m =
      let day_count = or_zero m.days + or_zero m.months * 30 + or_zero m.years * 365 in
      let n =
        (day_count * 86400 + or_zero m.hours * 3600 + or_zero m.minutes * 60) * 1000000
        + seconds_value m.seconds in
      if m.sign then negated n else pos n

  -- `.groupdict` of None comes before the test for None.
  abbrev pub read_match : Option DurationMatch → Result Exn ℤ
  read_match none = err (other "AttributeError")
  read_match (some m) = ok (delta m)

  unfoldable pub duration_from_unicode : (String → Option DurationMatch) → String → Result Exn ℤ
  unfolding delta
  duration_from_unicode match string = read_match (match string)
