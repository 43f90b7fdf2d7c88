-- ===== src/Exposure/Scan.antt =====
-- compose/aws/host/exposure-check.py: which hosts are scanned, and which of their open ports are not
-- expected.
use nyc_pa_aws_gitops.Prelude.{
  ℕ, code, String, ◌<>◌, Bool, true, false, ◌||◌, Option, none, some, List, [], ◌∷◌, ◌++◌, ◌==◌,
  ltb, eqb, if◌then◌else◌, length, show, str_le, join,
}
use nyc_pa_aws_gitops.Prelude.Results.{ok, err, ◌>>=◌}
use nyc_pa_aws_gitops.Prelude.Dict.{Dict, get}
use nyc_pa_aws_gitops.Exposure.Endpoints.{
  Step, PortElement, Port, Outside, stale_age, Endpoint, site_endpoints,
}

abbrev udp_ports : String
udp_ports = "53,123,161,500,1900,4500,5353,51820"

abbrev service_name : Option String → String
service_name none = ""
service_name (some s) = s

-- The ports whose state is `open`.
unfoldable pub open_ports : List PortElement → List Port
open_ports [] = []
open_ports (p ∷ ps) =
    let rest = open_ports ps in
    if p.state == "open"
    then record { port = p.portid; service = service_name p.service } ∷ rest
    else rest

abbrev exited : ℕ × List PortElement → Step (List Port)
exited (code, ports) =
    if eqb code 0
    then ok (open_ports ports)
    else err (record { name = "RuntimeError"; text = "nmap exited " <> show code })

-- `nmap`
unfoldable pub nmap : Outside → List String → Step (List Port)
unfolding open_ports show
nmap o args = o.run_nmap ("-Pn" ∷ "-n" ∷ "-oX" ∷ "-" ∷ args) >>= exited

-- `scan`
unfoldable pub scan : Outside → String → Step (List Port × List Port)
unfolding nmap
scan o ip = do
  tcp ← nmap o ("-sS" ∷ "-T3" ∷ "--top-ports" ∷ "1000" ∷ "--open" ∷ ip ∷ [])
  udp ← nmap o ("-sU" ∷ "-T3" ∷ "-p" ∷ udp_ports ∷ ip ∷ [])
  ok (tcp, udp)

-- A target's ports that are expected to be open.
pub record Wanted : Type 0 where
  pub tcp : List ℕ
  pub udp : List ℕ

-- What is known of a target: that its scan failed, or its ports and the unexpected ones.
pub data Finding : Type 0 where
  failed : String → Finding
  scanned : List Port → List Port → List String → Finding

pub record Entry : Type 0 where
  pub name : String
  pub ip : String
  pub finding : Finding

abbrev pub is_listed : List ℕ → ℕ → Bool
is_listed [] p = false
is_listed (n ∷ ns) p = eqb n p || is_listed ns p

abbrev pub port_text : String → ℕ → String
port_text kind p = kind <> ("/" <> show p)

-- `[f"{kind}/{p['port']}" for p in ports if p["port"] not in want]`
unfoldable pub not_wanted : String → List ℕ → List Port → List String
unfolding show
not_wanted kind want [] = []
not_wanted kind want (p ∷ ps) =
    let rest = not_wanted kind want ps in
    if is_listed want p.port then rest else port_text kind p.port ∷ rest

abbrev pub wanted_for : Option Wanted → Wanted
wanted_for none = record { tcp = []; udp = [] }
wanted_for (some w) = w

-- The entry of a target, from the result of its scan.
abbrev pub finding_of : Wanted → Step (List Port × List Port) → Finding
finding_of want (err e) = failed ("scan failed: " <> e.text)
finding_of want (ok (tcp, udp)) =
    scanned tcp udp (not_wanted "tcp" want.tcp tcp ++ not_wanted "udp" want.udp udp)

-- The loop over the targets.
unfoldable pub entries : Outside → Dict Wanted → List (String × String) → List Entry
unfolding get scan not_wanted
entries o expected [] = []
entries o expected ((name, ip) ∷ targets) =
    record {
      name = name;
      ip = ip;
      finding = finding_of (wanted_for (get name expected)) (scan o ip);
    }
    ∷ entries o expected targets

unfoldable pub insert_site : String × Endpoint → Dict Endpoint → Dict Endpoint
insert_site (site, e) [] = (site, e) ∷ []
insert_site (site, e) ((other, f) ∷ sites) =
    let rest = (other, f) ∷ insert_site (site, e) sites in
    if str_le site other then (site, e) ∷ (other, f) ∷ sites else rest

-- `sorted(sites.items())`: the sites differ.
unfoldable pub sorted_sites : Dict Endpoint → Dict Endpoint
unfolding insert_site
sorted_sites [] = []
sorted_sites (s ∷ sites) = insert_site s (sorted_sites sites)

-- `age is None or age > STALE_HANDSHAKE_SECONDS`
abbrev pub is_stale : Option ℕ → Bool
is_stale none = true
is_stale (some age) = ltb stale_age age

-- What is found before the scans: the targets and the errors.
pub record Plan : Type 0 where
  pub targets : List (String × String)
  pub errors : List String

unfoldable pub plan_sites : Dict Endpoint → Plan → Plan
plan_sites [] p = p
plan_sites ((site, (ip, age)) ∷ sites) p =
    let skipped = plan_sites sites (record {
      targets = p.targets;
      errors = p.errors ++ ((site <> " skipped: no recent WireGuard handshake") ∷ []);
    }) in
    let added =
      plan_sites sites (record { targets = p.targets ++ ((site, ip) ∷ []); errors = p.errors }) in
    if is_stale age then skipped else added

abbrev pub plan_hub : Step String → Plan
plan_hub (ok ip) = record { targets = ("hub", ip) ∷ []; errors = [] }
plan_hub (err e) = record {
  targets = [];
  errors = ("hub public IP lookup failed: " <> e.name) ∷ [];
}

abbrev pub plan_lookup : Step (Dict Endpoint) → Plan → Plan
plan_lookup (ok sites) p = plan_sites (sorted_sites sites) p
plan_lookup (err e) p = record {
  targets = p.targets;
  errors = p.errors ++ (("WireGuard endpoint lookup failed: " <> e.name) ∷ []);
}

-- The first half of `main`, up to the scans.
unfoldable pub plan : Outside → Plan
unfolding plan_sites sorted_sites site_endpoints
plan o = plan_lookup (site_endpoints o) (plan_hub o.public_ip)

-- What is written to `latest.json`.
pub record Latest : Type 0 where
  pub scanned_at : ℕ
  pub targets : List Entry
  pub errors : List String

-- `main`, up to the file that it writes.
unfoldable pub latest : Outside → Dict Wanted → Latest
unfolding plan entries
latest o expected = record {
  scanned_at = o.now;
  targets = entries o expected (plan o).targets;
  errors = (plan o).errors;
}

abbrev metric : Entry → List String
metric t = elim t.finding [
  | failed e ↦ []
  | scanned tcp udp unexpected ↦
      ("exposure_unexpected_open_ports{target=\""
        <> (t.name <> ("\"} " <> show (length unexpected))))
      ∷ []
]

unfoldable metrics : List Entry → List String
unfolding show
metrics [] = []
metrics (t ∷ ts) = metric t ++ metrics ts

-- The file of metrics that `main` writes at the second `done`.
unfoldable pub textfile : Latest → ℕ → String
unfolding metrics join show
textfile l done =
    join "\n" (
      "# HELP exposure_unexpected_open_ports Ports open to the internet that aren't on the expected list."
      ∷ "# TYPE exposure_unexpected_open_ports gauge"
      ∷ (metrics l.targets
          ++ ("# HELP exposure_last_scan_timestamp_seconds When the exposure check last finished."
              ∷ "# TYPE exposure_last_scan_timestamp_seconds gauge"
              ∷ ("exposure_last_scan_timestamp_seconds " <> show done)
              ∷ [])))
    <> "\n"
