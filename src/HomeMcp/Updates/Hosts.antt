-- ===== src/HomeMcp/Updates/Hosts.antt =====
-- compose/aws/home-mcp/updates.py: `_hosts`, the packages and the systems of the hub and the NUCs. What
-- Prometheus answers is given.
pub mod Quiet
mod Tests
use nyc_pa_aws_gitops.Prelude.{
  ℕ, zero, suc, ◌*◌, ◌/◌, String, ◌<>◌, Bool, true, false, not, ◌&&◌, ◌||◌, Option, none, some,
  List, [], ◌∷◌, ◌++◌, ◌==◌, ltb, leb, eqb, if◌then◌else◌, contains, join, show, plural,
  split_first,
}
use nyc_pa_aws_gitops.Prelude.Results.{Result, ok, err, ◌>>=◌}
use nyc_pa_aws_gitops.Prelude.Dict.{Dict, get, set}
use nyc_pa_aws_gitops.Prelude.Json.{Json}
use nyc_pa_aws_gitops.HomeMcp.Updates.Images.{
  Failure, http_error, yaml_error, value_error, key_error, crash, Step, add_new,
}
use nyc_pa_aws_gitops.HomeMcp.Updates.Checks.{Lines, no_lines, both_lines, Lookups, eol_line}

-- A result of a query: its labels and its value.
pub record Sample : Type 0 where
  pub metric : Dict String
  pub value : String

-- The five answers; `int(float(s))`, and the microseconds since the time in a text, none of them when it
-- lies ahead; and the month.
pub record HostProbes : Type 0 where
  pub pending : List Sample
  pub reboot : List Sample
  pub release : List Sample
  pub last : List Sample
  pub osinfo : List Sample
  pub whole : String → ℕ
  pub since : String → ℕ
  pub month : ℕ

abbrev label_in : Option String → Step String
label_in none = err key_error
label_in (some v) = ok v

-- `r["metric"][key]`
unfoldable pub label_at : String → Sample → Step String
unfolding get
label_at key r = label_in (get key r.metric)

abbrev pub or_text : String → Option String → String
or_text other none = other
or_text other (some v) = v

-- `m.get(key, other)`, and `m.get(key)` in a text with `None` as the other.
unfoldable pub label_or : String → String → Sample → String
unfolding get
label_or other key r = or_text other (get key r.metric)

abbrev pub counts_of : Option (Dict ℕ) → Dict ℕ
counts_of none = []
counts_of (some d) = d

-- `by_host`
unfoldable pub by_host : HostProbes → List Sample → Dict (Dict ℕ) → Step (Dict (Dict ℕ))
unfolding label_at get set
by_host p [] d = ok d
by_host p (r ∷ rs) d = do
  host ← label_at "instance" r
  type ← label_at "type" r
  by_host p rs (set host (set type (p.whole r.value) (counts_of (get host d))) d)

-- `reboots`
unfoldable pub reboots : List Sample → Step (List String)
unfolding label_at
reboots [] = ok []
reboots (r ∷ rs) = do
  rest ← reboots rs
  name ← (if r.value == "1" then label_at "instance" r else ok "")
  ok (if r.value == "1" then add_new name rest else rest)

-- `checked`
unfoldable pub checked_at : List Sample → Dict String → Step (Dict String)
unfolding label_at set
checked_at [] d = ok d
checked_at (r ∷ rs) d = do host ← label_at "instance" r; checked_at rs (set host r.value d)

abbrev pub off_season : ℕ → Bool
off_season month = leb 11 month || leb month 4

abbrev pub name_of : String → String
name_of host = if host == "aws-hub" then "hub" else host

abbrev pub number_or : Option ℕ → ℕ
number_or none = 0
number_or (some n) = n

-- `c.get(key, 0)`
unfoldable pub count_at : String → Dict ℕ → ℕ
unfolding get
count_at key c = number_or (get key c)

abbrev pub is_some : ℕ → Bool
is_some n = not (eqb n 0)

abbrev pub part_if : Bool → String → List String
part_if true part = part ∷ []
part_if false part = []

-- `parts`
unfoldable pub parts_of : Dict ℕ → Bool → List String
unfolding count_at show plural
parts_of c reboot =
    let all = count_at "all" c in
    let sec = count_at "security" c in
    part_if (is_some all) (show all <> (" package update" <> (plural all <> " pending")))
    ++ (part_if (is_some sec) (
          show sec
          <> (" security ("
              <> (show (count_at "critical" c)
                  <> (" critical, " <> (show (count_at "important" c) <> " important)")))))
        ++ part_if reboot "needs a reboot to finish installing updates")

abbrev pub line_of : String → List String → String
line_of name [] = ""
line_of name (p ∷ ps) = name <> (": " <> join ", " (p ∷ ps))

-- Whether a host's updates are urgent.
abbrev pub is_urgent : Dict ℕ → Bool → Bool
is_urgent c reboot = is_some (count_at "critical" c) || (is_some (count_at "important" c) || reboot)

abbrev pub sorted_line : Bool → String → Lines
sorted_line true line = record { urgent = line ∷ []; other = []; couldnt = [] }
sorted_line false line = record {
  urgent = [];
  other = (if line == "" then [] else line ∷ []);
  couldnt = [];
}

abbrev pub day : ℕ
day = 24 * 3600 * 1000000

abbrev pub is_late : ℕ → Bool
is_late age = ltb day age

abbrev pub late_lines : String → ℕ → Lines
late_lines host age = record {
  urgent = [];
  other = [];
  couldnt = part_if (is_late age) (
      name_of host
      <> (": update check hasn't run for " <> (show (age / (3600 * 1000000)) <> " hours")));
}

abbrev pub unchecked : String → Lines
unchecked host = record {
  urgent = [];
  other = [];
  couldnt = (name_of host <> ": no update data yet (its update check hasn't reported)") ∷ [];
}

-- What is said of a host, with the time of its last check if there is one.
unfoldable pub host_lines : HostProbes → String → Option String → Dict ℕ → Bool → Lines
unfolding parts_of count_at show both_lines join
host_lines p host none c reboot =
    if host == "nuc5" && off_season p.month then no_lines else unchecked host
host_lines p host (some at) c reboot =
    both_lines (late_lines host (p.since at))
      (sorted_line (is_urgent c reboot) (line_of (name_of host) (parts_of c reboot)))

-- One turn of the loop over the hosts.
unfoldable pub lines_for : HostProbes → Dict (Dict ℕ) → List String → Dict String → String → Lines
unfolding get host_lines
lines_for p pending again checked host =
    host_lines p host (get host checked) (counts_of (get host pending)) (contains again host)

abbrev release_line : Sample → String
release_line r =
    "hub: Amazon Linux "
    <> (label_or "None" "latest" r
        <> (" is available (running "
            <> (label_or "None" "current" r
                <> "); dnf upgrade won't pick it up on its own, it needs dnf upgrade --releasever")))

unfoldable pub release_lines : List Sample → List String
unfolding label_or
release_lines [] = []
release_lines (r ∷ rs) =
    let rest = release_lines rs in if r.value == "1" then release_line r ∷ rest else rest

-- `OS_EOL_PRODUCTS`
abbrev product_of : String → Option String
product_of id =
    if id == "rocky" then some "rocky-linux" else if id == "amzn" then some "amazon-linux" else none

abbrev before_dot : String → String
before_dot s = elim (split_first b'.' s) [ none ↦ s | some (before, behind) ↦ before ]

abbrev rated_line : String → Bool → Lines
rated_line line true = record { urgent = line ∷ []; other = []; couldnt = [] }
rated_line line false = record { urgent = []; other = line ∷ []; couldnt = [] }

abbrev os_hit : Sample → String → Option (String × Bool) → Step Lines
os_hit r product none = ok no_lines
os_hit r product (some (phrase, urgent)) = do
  host ← label_at "instance" r
  ok (rated_line (host <> (": " <> (label_or product "pretty_name" r <> (" " <> phrase)))) urgent)

abbrev os_eol : Lookups → Sample → String → Step (List (Dict Json)) → Step Lines
os_eol w r product (ok releases) = do
  hit ← eol_line w.python releases (before_dot (label_or "" "version_id" r)) w.today
  os_hit r product hit
os_eol w r product (err (http_error name)) = ok (record {
  urgent = [];
  other = [];
  couldnt = ("end-of-life dates for " <> label_or product "name" r) ∷ [];
})
os_eol w r product (err yaml_error) = err yaml_error
os_eol w r product (err (value_error name)) = err (value_error name)
os_eol w r product (err key_error) = err key_error
os_eol w r product (err (crash name)) = err (crash name)

abbrev os_product : Lookups → Sample → Option String → Step Lines
os_product w r none = ok no_lines
os_product w r (some product) = os_eol w r product (w.eol product)

-- The loop over the systems.
unfoldable pub os_lines : Lookups → List Sample → Step Lines
unfolding label_or label_at eol_line split_first both_lines
os_lines w [] = ok no_lines
os_lines w (r ∷ rs) = do
  here ← os_product w r (product_of (label_or "" "id" r))
  rest ← os_lines w rs
  ok (both_lines here rest)

-- The lines on the three hosts.
unfoldable pub three_hosts : HostProbes → Dict (Dict ℕ) → List String → Dict String → Lines
unfolding lines_for both_lines
three_hosts p pending again checked = both_lines (lines_for p pending again checked "aws-hub") (
    both_lines (lines_for p pending again checked "nuc4")
      (lines_for p pending again checked "nuc5"))

-- `_hosts`
unfoldable pub hosts : Lookups → HostProbes → Step Lines
unfolding by_host reboots checked_at three_hosts release_lines os_lines both_lines
hosts w p = do
  pending ← by_host p p.pending []
  again ← reboots p.reboot
  checked ← checked_at p.last []
  systems ← os_lines w p.osinfo
  ok (
      both_lines (three_hosts p pending again checked) (
        both_lines (record { urgent = []; other = release_lines p.release; couldnt = [] }) systems))
