-- ===== src/Witness/Patterns.antt =====
-- Two patterns with the same verb, and a request for the second.
use Prim.Native.String.{len}
use spyne.Prelude.{String, string_eq, some, none, [], ◌∷◌, ◌=?◌, if◌then◌else◌}
use spyne.Server.Http.{Texts, HttpPattern}

-- A pattern matches itself, and has one group, which has the pattern's name.
abbrev literal : Texts String
literal = record {
  match = λ r s.
      if r =? s
      then some (record { span_start = 0; span_end = len s; groupdict = (r, some s) ∷ [] })
      else none;
  len = len;
  last_part = λ s. s;
}

abbrev first : HttpPattern String
first = record { verb = some "GET"; host = none; address = some "/a"; name = "a" }

abbrev second : HttpPattern String
second = record { verb = some "GET"; host = none; address = some "/b"; name = "b" }
