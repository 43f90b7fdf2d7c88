-- ===== src/Exposure/Answer.antt =====
-- compose/aws/home-mcp/exposure.py: what is told of the last scan and of the certificates. The file has
-- what `exposure-check.py` writes; times are in microseconds. The network is a parameter.
use nyc_pa_aws_gitops.Prelude.{
  ℕ, ◌+◌, ◌-◌, ◌*◌, ◌/◌, ◌%◌, min, String, ◌<>◌, Bool, not, ◌&&◌, ◌||◌, Option, none, some, List,
  [], ◌∷◌, ◌++◌, ◌==◌, ltb, eqb, if◌then◌else◌, length, show, plural, keep, join, has_text,
}
use nyc_pa_aws_gitops.Exposure.Endpoints.{Port}
use nyc_pa_aws_gitops.Exposure.Scan.{Latest, Entry, Finding, failed, scanned, port_text}

abbrev pub day : ℕ
day = 86400 * 1000000

-- The time that is left to a certificate, or why it can't be told: a certificate that does not verify,
-- or another exception.
pub data Cert : Type 0 where
  left : ℕ → Cert
  invalid : String → Cert
  unknown : String → Cert

-- The file of the last scan: as it was written, not there, or not readable.
pub data File : Type 0 where
  written : Latest → File
  absent : File
  unreadable : String → File

-- The texts that are told: problems, information and what couldn't be checked.
pub record Told : Type 0 where
  pub problems : List String
  pub info : List String
  pub couldnt : List String

-- `_certs`: the problems, what couldn't be checked and the shortest time left.
pub record Certs : Type 0 where
  pub problems : List String
  pub couldnt : List String
  pub soonest : Option ℕ

abbrev warn_time : ℕ
warn_time = 14 * day

-- `f"{res:.0f}"` of a count of days, which rounds a half to the even number.
abbrev rounded : ℕ → ℕ
rounded t =
    let q = t / day in
    let twice = 2 * (t % day) in
    if ltb day twice || (eqb twice day && eqb (q % 2) 1) then q + 1 else q

abbrev sooner : Option ℕ → ℕ → ℕ
sooner none t = t
sooner (some s) t = min s t

abbrev pub is_short : ℕ → Bool
is_short t = ltb t warn_time

abbrev expiry_line : String → ℕ → List String
expiry_line host t =
    if is_short t
    then (host
        <> (" certificate expires in " <> (show (rounded t) <> " days (renewal may be failing)")))
      ∷ []
    else []

unfoldable pub add_cert : String → Cert → Certs → Certs
unfolding show
add_cert host (invalid why) c = record {
  problems = c.problems ++ ((host <> (" has an invalid certificate (" <> (why <> ")"))) ∷ []);
  couldnt = c.couldnt;
  soonest = c.soonest;
}
add_cert host (unknown name) c = record {
  problems = c.problems;
  couldnt = c.couldnt ++ ((host <> (" (" <> (name <> ")"))) ∷ []);
  soonest = c.soonest;
}
add_cert host (left t) c = record {
  problems = c.problems ++ expiry_line host t;
  couldnt = c.couldnt;
  soonest = some (sooner c.soonest t);
}

-- The loop over the hosts with their results.
unfoldable pub certs : List (String × Cert) → Certs → Certs
unfolding add_cert
certs [] c = c
certs ((host, res) ∷ more) c = certs more (add_cert host res c)

abbrev pub no_certs : Certs
no_certs = record { problems = []; couldnt = []; soonest = none }

abbrev stale_days : ℕ
stale_days = 8

unfoldable pub port_texts : String → List Port → List String
unfolding show
port_texts kind [] = []
port_texts kind (p ∷ ps) = port_text kind p.port ∷ port_texts kind ps

abbrev pub or_none : String → String
or_none s = if s == "" then "none" else s

abbrev pub unexpected_line : String → List String → String
unexpected_line name ports = name <> (" has unexpected open ports: " <> join ", " ports)

abbrev pub fine_line : String → List Port → List Port → String
fine_line name tcp udp =
    name
    <> (": only expected ports open ("
        <> (or_none (join ", " (port_texts "tcp" tcp ++ port_texts "udp" udp)) <> ")"))

abbrev pub told_ports : String → List Port → List Port → List String → Told → Told
told_ports name tcp udp [] t = record {
  problems = t.problems;
  info = t.info ++ (fine_line name tcp udp ∷ []);
  couldnt = t.couldnt;
}
told_ports name tcp udp (p ∷ ps) t = record {
  problems = t.problems ++ (unexpected_line name (p ∷ ps) ∷ []);
  info = t.info;
  couldnt = t.couldnt;
}

unfoldable pub add_target : String → Finding → Told → Told
unfolding port_texts show join
add_target name (failed why) t = record {
  problems = t.problems;
  info = t.info;
  couldnt = t.couldnt ++ ((name <> (" scan (" <> (why <> ")"))) ∷ []);
}
add_target name (scanned tcp udp unexpected) t = told_ports name tcp udp unexpected t

-- The loop over the targets.
unfoldable pub add_targets : List Entry → Told → Told
unfolding add_target
add_targets [] t = t
add_targets (e ∷ es) t = add_targets es (add_target e.name e.finding t)

abbrev is_skip : String → Bool
is_skip e = has_text " skipped:" e

abbrev not_scanned : List String → List String
not_scanned [] = []
not_scanned (e ∷ es) = ("not scanned: " <> join ", " (e ∷ es)) ∷ []

-- The scan's errors: the sites skipped, and the rest.
abbrev add_errors : List String → Told → Told
add_errors errors t = record {
  problems = t.problems;
  info = t.info ++ not_scanned (keep is_skip errors);
  couldnt = t.couldnt ++ keep (λ e. not (is_skip e)) errors;
}

-- What is told of the scan's age, which is of `n` days.
abbrev aged : String → ℕ → Told
aged when n = record {
  problems =
      (if ltb stale_days n
        then ("the weekly port scan hasn't run for " <> (show n <> " days")) ∷ []
        else []);
  info =
      ("port scan from " <> (when <> (" (" <> (show n <> (" day" <> (plural n <> " ago)")))))) ∷ [];
  couldnt = [];
}

-- `_scan`, at the time `now`, with the text of the day of a time.
unfoldable pub scan_told : (ℕ → String) → ℕ → File → Told
unfolding add_targets has_text join show plural
scan_told day_text now absent = record {
  problems = [];
  info = [];
  couldnt =
      "port scan (no results yet; it runs Friday late afternoon, or ask to run the exposure check now)"
      ∷ [];
}
scan_told day_text now (unreadable name) = record {
  problems = [];
  info = [];
  couldnt = ("port scan results (" <> (name <> ")")) ∷ [];
}
scan_told day_text now (written l) =
    add_errors l.errors
      (add_targets l.targets (aged (day_text l.scanned_at) ((now - l.scanned_at) / day)))

abbrev pub reassurance : String
reassurance = "Nothing unexpected is reachable from the internet, and all certificates are current."

abbrev pub head : List String → String
head [] = reassurance
head (p ∷ ps) =
    let n = length (p ∷ ps) in
    show n <> (" exposure issue" <> (plural n <> (": " <> (join "; " (p ∷ ps) <> "."))))

abbrev listing : String → List String → List String
listing front [] = []
listing front (x ∷ xs) = (front <> (join "; " (x ∷ xs) <> ".")) ∷ []

abbrev soonest_line : ℕ → Option ℕ → List String
soonest_line hosts none = []
soonest_line hosts (some t) =
    ("Certificates: "
      <> (show hosts
          <> (" public hostnames checked; the soonest expires in "
              <> (show (t / day) <> " days."))))
    ∷ []

abbrev caveat : String
caveat =
    "Caveats: the hub scans its own public IP through AWS's gateway, and the site routers trust the hub, so a port opened only to the hub would show up here too."

-- The lines of the answer, from what the scan and the certificates give.
unfoldable pub answer_lines : ℕ → Told → Certs → List String
unfolding join show plural
answer_lines hosts t c =
    head (t.problems ++ c.problems)
    ∷ (listing "Scan: " t.info
        ++ (soonest_line hosts c.soonest
            ++ (caveat ∷ listing "Couldn't check: " (t.couldnt ++ c.couldnt))))

-- `exposure_check`
unfoldable pub exposure_check : (ℕ → String) → ℕ → File → List (String × Cert) → String
unfolding answer_lines scan_told certs join
exposure_check day_text now file hosts =
    join "\n" (answer_lines (length hosts) (scan_told day_text now file) (certs hosts no_certs))
