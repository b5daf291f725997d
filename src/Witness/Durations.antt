-- ===== src/Witness/Durations.antt =====
-- A day, an hour, a minute and a second, back in time.
use spyne.Prelude.{ℕ, string_eq, ◌≡◌, refl, String, true, false, none, some, [], ◌∷◌}
use spyne.Prelude.Int.{negsuc}
use spyne.Prelude.Dict
use spyne.Prelude.Dict.{Dict}
use spyne.Prelude.Exec.{ok}
use spyne.Protocol.Durations.{DurationMatch, duration_to_unicode, duration_from_unicode}
use spyne.Protocol.Durations.Pieces.{matched}
use spyne.Protocol.Durations.Roundtrip.{Reads, duration_from_unicode-duration_to_unicode}

-- The numbers that occur are 1.
abbrev show : ℕ → String
show n = "1"

abbrev matches : Dict String DurationMatch
matches =
    ("-P1D", matched true (some 1) none none none)
    ∷ ("-P1DT1H1M1S", matched true (some 1) (some 1) (some 1) (some 1))
    ∷ ("PT0S", matched false none none none (some 0))
    ∷ []

reads : Reads show (Dict.get matches) true 1 3661
unfolding Dict.get
reads = record { date = refl; time = refl; nothing = refl }

duration_from_unicode-duration_to_unicode_example :
    duration_from_unicode
      (λ f. 0)
      (Dict.get matches)
      (duration_to_unicode show (negsuc 90060999999))
    ≡ ok (negsuc 90060999999)
duration_from_unicode-duration_to_unicode_example =
    duration_from_unicode-duration_to_unicode show (λ f. 0) (Dict.get matches) (negsuc 90060999999)
      refl reads
