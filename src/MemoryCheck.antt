-- ===== src/MemoryCheck.antt =====
-- scripts/hub/compose-mem-check.py: no service of an app without a memory limit. Python's numbers, floats
-- among them, are a parameter, and texts are in ASCII.
pub mod Written
pub mod Sizes
pub mod Limits
pub mod Limited
mod Tests
use nyc_pa_aws_gitops.Prelude.{
  ℕ, zero, suc, ◌+◌, ◌-◌, ◌*◌, ◌/◌, ◌^◌, Char, code, String, ◌<>◌, Bool, true, false, not, ◌&&◌,
  ◌||◌, Option, none, some, List, [], ◌∷◌, ◌++◌, ◌==◌, leb, eqb, if◌then◌else◌, is_digit, is_lower,
  is_upper, lstrip, is_space, sorted, join, show, all_chars,
}
use nyc_pa_aws_gitops.Prelude.Letters.{lower}
use nyc_pa_aws_gitops.Prelude.Results.{Result, ok, err, ◌>>=◌}
use nyc_pa_aws_gitops.Prelude.Dict.{Dict, get}
use nyc_pa_aws_gitops.Prelude.Json.{Json, null, bool, num, str, arr, obj, to_dict, truthy}

-- A whole number: `below n` is `-n - 1`.
pub data Size : Type 0 where
  size : ℕ → Size
  below : ℕ → Size

-- An exception that ends the script, by the name of its class.
abbrev pub Step {ℓ} : Type ℓ → Type ℓ
Step A = Result String A

-- `int(n)` of a number of JSON, which fails when it is infinite or NaN; `int(float(t) * unit)` for a text
-- `t` of the digits of a number, of which so many are behind the point, which is rounded as floats are and
-- fails when the float is infinite; and `json.load` of the input.
pub record Input : Type 0 where
  pub int_of : String → Step Size
  pub scale : ℕ → ℕ → ℕ → Step Size
  pub json : Option Json

-- `UNITS`, by the lower case of a unit.
abbrev pub unit_of : String → Option ℕ
unit_of u =
    if u == "" || u == "b"
    then some 1
    else if u == "k" || u == "kb"
    then some 1024
    else if u == "m" || u == "mb"
    then some (1024 * 1024)
    else if u == "g" || u == "gb"
    then some (1024 * 1024 * 1024)
    else none

-- Digits from within a number `n`: how many there were, the number and what follows.
unfoldable pub digits_from : ℕ → ℕ → String → ℕ × ℕ × String
digits_from k n String.[] = (k, n, String.[])
digits_from k n (String.◌∷◌ c s) =
    let rest = digits_from (k + 1) (n * 10 + (code c - b'0')) s in
    if is_digit (code c) then rest else (k, n, String.◌∷◌ c s)

-- `([a-zA-Z]*)\s*`, in lower case
unfoldable pub letters_from : String → String × String
letters_from String.[] = (String.[], String.[])
letters_from (String.◌∷◌ c s) =
    let rest = letters_from s in
    if is_lower (code c) || is_upper (code c)
    then (String.◌∷◌ c rest.0, rest.1)
    else (String.[], String.◌∷◌ c s)

-- A text is no size when its unit is not known.
abbrev pub scaled : Input → ℕ → ℕ → Option ℕ → Step (Option Size)
scaled i n k none = ok none
scaled i n k (some unit) = do s ← i.scale n k unit; ok (some s)

abbrev pub with_unit : Input → ℕ → ℕ → String × String → Step (Option Size)
with_unit i n k (unit, rest) =
    if lstrip rest == "" then scaled i n k (unit_of (lower unit)) else ok none

-- The unit behind a number.
abbrev pub behind_number : Input → ℕ → ℕ → String → Step (Option Size)
behind_number i n k s = with_unit i n k (letters_from (lstrip s))

-- The digits behind the point: without one of them, the point is no part of the number, and no unit.
abbrev pub behind_point : Input → ℕ × ℕ × String → Step (Option Size)
behind_point i (zero, m, s) = ok none
behind_point i (suc k, m, s) = behind_number i m (suc k) s

abbrev pub behind_digits : Input → ℕ × ℕ × String → Step (Option Size)
behind_digits i (zero, n, s) = ok none
behind_digits i (suc k, n, String.[]) = behind_number i n 0 String.[]
behind_digits i (suc k, n, String.◌∷◌ c s) =
    if eqb (code c) b'.'
    then behind_point i (digits_from 0 n s)
    else behind_number i n 0 (String.◌∷◌ c s)

-- The size that a text stands for.
unfoldable pub text_size : Input → String → Step (Option Size)
unfolding digits_from letters_from lstrip lower is_space
text_size i s = behind_digits i (digits_from 0 0 (lstrip s))

-- `size_bytes`: `str` of a list or a dict is no size.
unfoldable pub size_bytes : Input → Json → Step (Option Size)
unfolding text_size
size_bytes i null = ok none
size_bytes i (bool b) = ok none
size_bytes i (num t) = do n ← i.int_of t; ok (some n)
size_bytes i (str t) = text_size i t
size_bytes i (arr xs) = ok none
size_bytes i (obj fs) = ok none

-- Python's truth value of a size or none.
abbrev pub is_set : Option Size → Bool
is_set none = false
is_set (some (size zero)) = false
is_set (some (size (suc n))) = true
is_set (some (below n)) = true

abbrev pub or_null : Option Json → Json
or_null none = null
or_null (some v) = v

-- `(v or {}).get(key)`
unfoldable pub get_in : String → Json → Step Json
unfolding get truthy
get_in key (obj fs) = ok (or_null (get key (to_dict fs)))
get_in key v = if truthy v then err "AttributeError" else ok null

-- `limit_of` of `svc or {}`
unfoldable pub limit_of : Input → Json → Step (Option Size)
unfolding get_in size_bytes
limit_of i svc = do
  deploy ← get_in "deploy" svc
  resources ← get_in "resources" deploy
  limits ← get_in "limits" resources
  memory ← get_in "memory" limits
  own ← get_in "mem_limit" svc
  limit ← size_bytes i own
  if is_set limit then ok limit else size_bytes i memory

-- The names of the services without a limit.
unfoldable pub missing : Input → Dict Json → Step (List String)
unfolding limit_of
missing i [] = ok []
missing i ((name, svc) ∷ services) = do
  limit ← limit_of i svc
  rest ← missing i services
  ok (if is_set limit then rest else name ∷ rest)

-- How the script ends: what it prints, and its exit code.
pub data Ending : Type 0 where
  fine : Dict Json → Ending
  offenders : List String → Ending
  unreadable : Ending

abbrev pub exit_code : Ending → ℕ
exit_code (fine services) = 0
exit_code (offenders names) = 1
exit_code unreadable = 1

abbrev pub decided : Dict Json → List String → Ending
decided services [] = fine services
decided services (n ∷ ns) = offenders (sorted (n ∷ ns))

-- `services.items()` of `services or {}`
abbrev pub items_of : Json → Step (Dict Json)
items_of (obj fs) = ok (to_dict fs)
items_of v = if truthy v then err "AttributeError" else ok []

abbrev pub checked : Input → Json → Step Ending
checked i table = do
  services ← items_of table
  names ← missing i services
  ok (decided services names)

abbrev pub loaded : Input → Option Json → Step Ending
loaded i none = ok unreadable
loaded i (some (obj fs)) = checked i (or_null (get "services" (to_dict fs)))
loaded i (some v) = ok unreadable

-- `main`
unfoldable pub main : Input → Step Ending
unfolding get truthy missing sorted
main i = loaded i i.json
