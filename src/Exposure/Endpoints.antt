-- ===== src/Exposure/Endpoints.antt =====
-- compose/aws/host/exposure-check.py: what the scan asks of its surroundings, and `site_endpoints`. The
-- network, WireGuard and nmap are parameters; times are in microseconds.
use nyc_pa_aws_gitops.Prelude.{
  ℕ, zero, suc, ◌+◌, ◌-◌, ◌*◌, code, String, Bool, ◌&&◌, ◌||◌, Option, none, some, List, [], ◌∷◌,
  ◌==◌, eqb, if◌then◌else◌, contains, rsplit, is_digit,
}
use nyc_pa_aws_gitops.Prelude.Results.{Result, ok, err, ◌>>=◌}
use nyc_pa_aws_gitops.Prelude.Dict.{Dict, set}
use nyc_pa_aws_gitops.Prelude.Paths.{split_on}

-- An exception: `type(exc).__name__` and `str(exc)`.
pub record Trouble : Type 0 where
  pub name : String
  pub text : String

abbrev pub Step {ℓ} : Type ℓ → Type ℓ
Step A = Result Trouble A

-- A `<port>` of nmap's XML: its number, its state and the name of its service, if it has one.
pub record PortElement : Type 0 where
  pub portid : ℕ
  pub state : String
  pub service : Option String

pub record Port : Type 0 where
  pub port : ℕ
  pub service : String

-- nmap's exit code and ports for some arguments, the dump of WireGuard and the public address.
pub record Outside : Type 0 where
  pub run_nmap : List String → Step (ℕ × List PortElement)
  pub wg_dump : Step String
  pub public_ip : Step String
  pub now : ℕ

abbrev pub second : ℕ
second = 1000000

-- `STALE_HANDSHAKE_SECONDS`
abbrev pub stale_age : ℕ
stale_age = 15 * 60 * second

-- `s.strip("[]")`
abbrev is_bracket : ℕ → Bool
is_bracket c = eqb c b'[' || eqb c b']'

unfoldable drop_brackets : String → String
drop_brackets String.[] = String.[]
drop_brackets (String.◌∷◌ c s) =
    let rest = drop_brackets s in if is_bracket (code c) then rest else String.◌∷◌ c s

unfoldable drop_last_brackets : String → String
drop_last_brackets String.[] = String.[]
drop_last_brackets (String.◌∷◌ c s) =
    let rest = drop_last_brackets s in
    if rest == "" && is_bracket (code c) then String.[] else String.◌∷◌ c rest

abbrev before_last : ℕ → String → String
before_last sep s = elim (rsplit sep s) [ none ↦ s | some (before, behind) ↦ before ]

-- `int(s or 0)` for a text of digits, the only one that WireGuard prints.
unfoldable read_int : ℕ → String → Option ℕ
read_int n String.[] = some n
read_int n (String.◌∷◌ c s) =
    let rest = read_int (n * 10 + (code c - b'0')) s in if is_digit (code c) then rest else none

abbrev int_of : Option ℕ → Step ℕ
int_of none = err (record { name = "ValueError"; text = "invalid literal for int()" })
int_of (some n) = ok n

-- A site's address and the age of its last handshake, if there was one.
abbrev pub Endpoint : Type 0
Endpoint = String × Option ℕ

abbrev pub age_of : ℕ → ℕ → Option ℕ
age_of now zero = none
age_of now (suc n) = some (now - suc n * second)

abbrev lan_of : String → String
lan_of site = if site == "nyc" then "10.0.1.0/24" else "10.0.2.0/24"

abbrev put_site : ℕ → String → String → Dict Endpoint → Step ℕ → Step (Dict Endpoint)
put_site now site ip sites (err e) = err e
put_site now site ip sites (ok n) = ok (set site (ip, age_of now n) sites)

-- One entry of `SITE_BY_LAN` for a peer.
unfoldable add_site :
    ℕ → String → String → List String → String → Dict Endpoint → Step (Dict Endpoint)
unfolding set rsplit drop_brackets drop_last_brackets read_int
add_site now endpoint handshake allowed site sites =
    if contains allowed (lan_of site)
    then put_site now site (drop_last_brackets (drop_brackets (before_last b':' endpoint))) sites
        (int_of (read_int 0 handshake))
    else ok sites

-- One line of the dump: only a peer with an endpoint has nine fields and a fourth that is given.
unfoldable add_line : ℕ → List String → Dict Endpoint → Step (Dict Endpoint)
unfolding add_site split_on
add_line now (iface ∷ key ∷ psk ∷ endpoint ∷ ips ∷ handshake ∷ rx ∷ tx ∷ alive ∷ []) sites =
    if endpoint == "(none)" || endpoint == ""
    then ok sites
    else add_site now endpoint handshake (split_on b',' ips) "nyc" sites
      >>= add_site now endpoint handshake (split_on b',' ips) "rambles"
add_line now fields sites = ok sites

unfoldable add_lines : ℕ → List String → Dict Endpoint → Step (Dict Endpoint)
unfolding add_line split_on
add_lines now [] sites = ok sites
add_lines now (l ∷ ls) sites = do more ← add_line now (split_on 9 l) sites; add_lines now ls more

-- `site_endpoints`
unfoldable pub site_endpoints : Outside → Step (Dict Endpoint)
unfolding add_lines split_on
site_endpoints o = do out ← o.wg_dump; add_lines o.now (split_on 10 out) []
