-- ===== src/Server/Http.antt =====
-- spyne/server/http.py: `HttpBase.match_pattern`, which finds the method for a verb, a path and a
-- host. The regular expressions of the standard library are a parameter.
pub mod Matching
use Prim.Native.String.{◌++◌ as ◌+s+◌}
use text.Mathlib.Text.{◌==◌ as str_eq, starts_with}
use spyne.Prelude.{
  ℕ, nat_eq, string_eq, Bool, true, false, not, ◌&&◌, String, Option, none, some, List, [], ◌∷◌,
  ◌++◌, ◌==◌, if◌then◌else◌,
}
use spyne.Prelude.Dict
use spyne.Prelude.Dict.{Dict}

-- The names of the groups with their texts, None for a group that took no part.
abbrev pub Groups : Type 0
Groups = List (String × Option String)

-- What `match` returns: `span()` and `groupdict()`.
pub record Match : Type 0 where
  pub span_start : ℕ
  pub span_end : ℕ
  pub groupdict : Groups

-- `r.match(s)`, `len(s)`, and `s.split('/')[-1]`
pub record Texts (R : Type 0) : Type 0 where
  pub match : R → String → Option Match
  pub len : String → ℕ
  pub last_part : String → String

-- The parts are None where the pattern has none; `name` is the name of its endpoint.
pub record HttpPattern (R : Type 0) : Type 0 where
  pub verb : Option R
  pub host : Option R
  pub address : Option R
  pub name : String

-- `params`, a `defaultdict(list)`
abbrev pub Params : Type 0
Params = Dict String (List (Option String))

abbrev pub or_empty : Option (List (Option String)) → List (Option String)
or_empty none = []
or_empty (some l) = l

-- `for k, v in groups: params[k].append(v)`
unfoldable pub add_groups : Params → Groups → Params
add_groups params [] = params
add_groups params ((k, v) ∷ groups) =
    add_groups (Dict.put params k (or_empty (Dict.get params k) ++ v ∷ [])) groups

-- The outcome of a part: whether the loop goes on with this pattern, and `params`.
abbrev pub Outcome : Type 0
Outcome = Bool × Params

abbrev pub and_then : Outcome → (Params → Outcome) → Outcome
and_then (true, params) f = f params
and_then (false, params) f = (false, params)

abbrev pub with_slash : String → String
with_slash path' = if starts_with path' "/" then path' else "/" +s+ path'

-- the method that the request is for, if one is found, and `params`
abbrev pub found_or :
    {R : Type 0}
    → HttpPattern R
    → Outcome
    → (Params → Option String × Params)
    → Option String × Params
found_or patt (true, params) rest = (some patt.name, params)
found_or patt (false, params) rest = rest params

module _ {R : Type 0} (texts : Texts R) where
  -- `match.span() == (0, len(s))`
  abbrev pub is_whole : Match → String → Bool
  is_whole m s = (m.span_start == 0) && (m.span_end == texts.len s)

  abbrev pub on_match : Option Match → String → Params → Outcome
  on_match none s params = (false, params)
  on_match (some m) s params =
      if is_whole m s then (true, add_groups params m.groupdict) else (false, params)

  -- one of the parts of a pattern
  abbrev pub match_part : Option R → String → Params → Outcome
  match_part none s params = (true, params)
  match_part (some r) s params = on_match (texts.match r s) s params

  abbrev pub match_address : HttpPattern R → Option R → String → Params → Outcome
  match_address patt none path' params = (str_eq (texts.last_part path') patt.name, params)
  match_address patt (some r) path' params = match_part (some r) path' params

  unfoldable pub try_pattern : String → String → String → HttpPattern R → Params → Outcome
  unfolding add_groups
  try_pattern method path' host patt params =
      and_then (match_part patt.verb method params) λ params'.
        and_then (match_part patt.host host params')
          λ params''. match_address patt patt.address path' params''

  unfoldable pub match_patterns :
      String → String → String → List (HttpPattern R) → Params → Option String × Params
  unfolding try_pattern
  match_patterns method path' host [] params = (none, params)
  match_patterns method path' host (patt ∷ patterns) params =
      found_or patt (try_pattern method path' host patt params)
        (match_patterns method path' host patterns)

  -- `match_pattern`; None leaves `ctx.method_request_string` as it is
  unfoldable pub match_pattern :
      List (HttpPattern R) → String → String → String → Option String × Params
  unfolding match_patterns
  match_pattern patterns method path' host =
      match_patterns method (with_slash path') host patterns []
