-- ===== src/HomeMcp/Jobs/Tokens.antt =====
-- compose/aws/home-mcp/jobs.py: `token_warnings`, the expiry of the token that the jobs use. GitHub's
-- answer is a parameter; times are in microseconds, of the clock and of one that never goes back.
pub mod Expiry
use nyc_pa_aws_gitops.Prelude.{
  ℕ, zero, suc, ◌+◌, ◌-◌, ◌*◌, ◌/◌, Char, code, String, ◌<>◌, Bool, true, false, not, ◌&&◌, ◌||◌,
  Option, none, some, List, [], ◌∷◌, ◌==◌, ltb, leb, eqb, if◌then◌else◌, is_digit, strip_prefix,
  take_chars, drop_chars, show, plural,
}
use nyc_pa_aws_gitops.HomeMcp.Jobs.{Settings}
use nyc_pa_aws_gitops.Prelude.Dates.{Date, date_of, ordinal}
use nyc_pa_aws_gitops.Prelude.Results.{Result, ok, err}

abbrev pub second : ℕ
second = 1000000

abbrev pub day : ℕ
day = 86400 * second

-- Two digits, and what follows them.
unfoldable two_digits : String → Option (ℕ × String)
two_digits String.[] = none
two_digits (String.◌∷◌ c String.[]) = none
two_digits (String.◌∷◌ c (String.◌∷◌ d s)) =
    if is_digit (code c) && is_digit (code d)
    then some ((code c - b'0') * 10 + (code d - b'0'), s)
    else none

-- A number below `bound` behind the text `front`.
abbrev below : ℕ → Option (ℕ × String) → Option (ℕ × String)
below bound none = none
below bound (some (n, s)) = if ltb n bound then some (n, s) else none

abbrev field_behind : String → ℕ → Option String → Option (ℕ × String)
field_behind front bound none = none
field_behind front bound (some s) = below bound (two_digits s)

abbrev seconds_of : ℕ → ℕ → ℕ → Option (ℕ × String) → Option ℕ
seconds_of d h m none = none
seconds_of d h m (some (s, rest)) =
    if rest == " UTC" then some ((d - 719163) * 86400 + h * 3600 + m * 60 + s) else none

abbrev minutes_of : ℕ → ℕ → Option (ℕ × String) → Option ℕ
minutes_of d h none = none
minutes_of d h (some (m, s)) = seconds_of d h m (field_behind ":" 62 (strip_prefix ":" s))

abbrev hours_of : ℕ → Option (ℕ × String) → Option ℕ
hours_of d none = none
hours_of d (some (h, s)) = minutes_of d h (field_behind ":" 60 (strip_prefix ":" s))

abbrev time_of : String → Option Date → Option ℕ
time_of s none = none
time_of s (some d) = hours_of (ordinal d) (field_behind " " 24 (strip_prefix " " s))

-- `calendar.timegm(time.strptime(exp, "%Y-%m-%d %H:%M:%S UTC"))`, for a text with two digits for each
-- part and four for the year, from 1970 on.
unfoldable pub timestamp : String → Option ℕ
unfolding two_digits date_of ordinal strip_prefix take_chars drop_chars
timestamp exp = time_of (drop_chars 10 exp) (date_of (take_chars 10 exp))

-- `_token_health`
pub record Health : Type 0 where
  pub at : ℕ
  pub warnings : List String

-- GitHub's answer: its status and the header on the expiry.
pub record Answer : Type 0 where
  pub status : ℕ
  pub expiration : Option String

-- What asking gives: an answer, `httpx.HTTPError`, or another exception by the name of its class.
pub data Asked : Type 0 where
  answered : Answer → Asked
  http_error : Asked
  raised : String → Asked

abbrev check_time : ℕ
check_time = 6 * 3600 * second

-- `TOKEN_WARN_DAYS`
abbrev pub warn_days : ℕ
warn_days = 21

-- What is said of a token that expires at the second `expires`.
unfoldable pub expiry_warnings : ℕ → ℕ → List String
unfolding show plural
expiry_warnings now expires =
    let days = (expires * second - now) / day in
    if ltb (expires * second) now
    then "the voice jobs GitHub token has expired" ∷ []
    else if leb days warn_days
    then ("the voice jobs GitHub token expires in " <> (show days <> (" day" <> plural days))) ∷ []
    else []

abbrev of_time : ℕ → Option ℕ → Result String (List String)
of_time now none = err "ValueError"
of_time now (some expires) = ok (expiry_warnings now expires)

abbrev of_header : ℕ → Option String → Result String (List String)
of_header now none = ok []
of_header now (some exp) = if exp == "" then ok [] else of_time now (timestamp exp)

-- The warnings that an answer gives.
unfoldable pub warnings_of : ℕ → Answer → Result String (List String)
unfolding timestamp expiry_warnings
warnings_of now a =
    if eqb a.status 401
    then ok ("the voice jobs GitHub token is being rejected" ∷ [])
    else of_header now a.expiration

abbrev kept : ℕ → Health → Result String (List String) → Result String (List String) × Health
kept clock h (ok warnings) = (ok warnings, record { at = clock; warnings = warnings })
kept clock h (err name) = (err name, h)

abbrev after_asking : ℕ → ℕ → Health → Asked → Result String (List String) × Health
after_asking clock now h (answered a) = kept clock h (warnings_of now a)
after_asking clock now h http_error = (ok h.warnings, h)
after_asking clock now h (raised name) = (err name, h)

abbrev pub is_recent : ℕ → Health → Bool
is_recent clock h = ltb (clock - h.at) check_time && not (eqb h.at 0)

-- `token_warnings` at the time `now`, which is `clock` on the other clock.
unfoldable pub token_warnings :
    Settings → ℕ → ℕ → Asked → Health → Result String (List String) × Health
unfolding warnings_of
token_warnings s clock now asked h =
    if not s.enabled || s.token == ""
    then (ok [], h)
    else if is_recent clock h
    then (ok h.warnings, h)
    else after_asking clock now h asked
