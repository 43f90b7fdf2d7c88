-- ===== src/HomeMcp/Updates/Network.antt =====
-- compose/aws/home-mcp/updates.py: `_network`, the firmware of the network devices. What Prometheus
-- answers is given, and MikroTik's newest release for a major version is a parameter. A sample without
-- the label `device` is kept under the empty text, which is no label's value.
mod Tests
use nyc_pa_aws_gitops.Prelude.{
  ℕ, zero, suc, ◌+◌, ◌-◌, ◌*◌, Char, code, String, ◌<>◌, Bool, true, false, not, ◌&&◌, ◌||◌, Option,
  none, some, List, [], ◌∷◌, ◌++◌, ◌==◌, if◌then◌else◌, contains, take, join, sorted, is_digit,
  split_first,
}
use nyc_pa_aws_gitops.Prelude.Results.{Result, ok, err, ◌>>=◌, traverse}
use nyc_pa_aws_gitops.Prelude.Dict.{Dict, get, set}
use nyc_pa_aws_gitops.HomeMcp.Updates.Images.{
  Failure, http_error, yaml_error, value_error, key_error, crash, Step, union_of,
}
use nyc_pa_aws_gitops.HomeMcp.Updates.Tags.{lt_nums}
use nyc_pa_aws_gitops.HomeMcp.Updates.Checks.{Lines, no_lines, both_lines}
use nyc_pa_aws_gitops.HomeMcp.Updates.Hosts.{Sample, label_or, off_season}

-- The six answers, the lookup at MikroTik and the month.
pub record NetworkProbes : Type 0 where
  pub ros : List Sample
  pub boot : List Sample
  pub boot_up : List Sample
  pub dsm : List Sample
  pub dsm_up : List Sample
  pub cisco : List Sample
  pub latest : String → Step String
  pub month : ℕ

-- `_vtuple`: the numbers of a text, where `inside` says that one has begun, which is `n` so far.
unfoldable pub numbers_from : Bool → ℕ → String → List ℕ
numbers_from false n String.[] = []
numbers_from true n String.[] = n ∷ []
numbers_from false n (String.◌∷◌ c s) =
    let begun = numbers_from true (code c - b'0') s in
    let skipped = numbers_from false 0 s in if is_digit (code c) then begun else skipped
numbers_from true n (String.◌∷◌ c s) =
    let longer = numbers_from true (n * 10 + (code c - b'0')) s in
    let ended = n ∷ numbers_from false 0 s in if is_digit (code c) then longer else ended

unfoldable pub vtuple : String → List ℕ
unfolding numbers_from
vtuple v = numbers_from false 0 v

abbrev told_device : Sample → String
told_device r = label_or "None" "device" r

-- `seen`
unfoldable pub devices : List Sample → List String
unfolding label_or
devices [] = []
devices (r ∷ rs) = label_or "" "device" r ∷ devices rs

abbrev unreported : NetworkProbes → String → List String
unreported p dev =
    if not (contains (devices p.ros) dev) && not (dev == "rt-rambles" && off_season p.month)
    then (dev <> ": RouterOS version not reported over SNMP") ∷ []
    else []

-- `{r["metric"].get("device"): r["metric"].get(key, "") for r in samples}`
unfoldable pub by_device : String → List Sample → Dict String → Dict String
unfolding label_or set
by_device key [] d = d
by_device key (r ∷ rs) d = by_device key rs (set (label_or "" "device" r) (label_or "" key r) d)

abbrev text_or : Option String → String
text_or none = ""
text_or (some t) = t

-- Whether the first two numbers differ.
abbrev pub is_jump : List ℕ → List ℕ → Bool
is_jump a b = lt_nums (take 2 a) (take 2 b) || lt_nums (take 2 b) (take 2 a)

-- What is said of a router with the version `ver`, where `latest` is the newest release.
unfoldable pub release_lines : String → String → String → Lines
unfolding vtuple lt_nums
release_lines dev ver latest =
    let line = dev <> (": RouterOS " <> (ver <> (", " <> (latest <> " is the current stable")))) in
    if lt_nums (vtuple ver) (vtuple latest)
    then (if is_jump (vtuple latest) (vtuple ver)
        then record { urgent = line ∷ []; other = []; couldnt = [] }
        else record { urgent = []; other = line ∷ []; couldnt = [] })
    else no_lines

abbrev boot_lines : String → String → String → Lines
boot_lines dev boot up =
    if not (boot == "") && (not (up == "") && not (boot == up))
    then record {
      urgent = [];
      other =
          (dev
            <> (": RouterBOOT "
                <> (boot
                    <> (" is behind the installed RouterOS ("
                        <> (up <> "); /system routerboard upgrade, then reboot")))))
          ∷ [];
      couldnt = [];
    }
    else no_lines

abbrev before_dot : String → String
before_dot s = elim (split_first b'.' s) [ none ↦ s | some (before, behind) ↦ before ]

abbrev router_answer : String → String → String → String → Step String → Step Lines
router_answer dev ver boot up (ok latest) =
    ok (both_lines (release_lines dev ver latest) (boot_lines dev boot up))
router_answer dev ver boot up (err (http_error name)) =
    ok (record { urgent = []; other = []; couldnt = "MikroTik's latest RouterOS release" ∷ [] })
router_answer dev ver boot up (err yaml_error) = err yaml_error
router_answer dev ver boot up (err (value_error name)) = err (value_error name)
router_answer dev ver boot up (err key_error) = err key_error
router_answer dev ver boot up (err (crash name)) = err (crash name)

abbrev router_lines : NetworkProbes → Sample → Step Lines
router_lines p r =
    let dev = label_or "" "device" r in
    let ver = label_or "" "mtxrLicVersion" r in
    router_answer (told_device r) ver
      (text_or (get dev (by_device "mtxrFirmwareVersion" p.boot [])))
      (text_or (get dev (by_device "mtxrFirmwareUpgradeVersion" p.boot_up [])))
      (p.latest (before_dot ver))

-- The loop over the routers.
unfoldable pub all_routers : NetworkProbes → List Sample → Step Lines
unfolding label_or get by_device release_lines both_lines split_first
all_routers p [] = ok no_lines
all_routers p (r ∷ rs) = do
  here ← router_lines p r
  rest ← all_routers p rs
  ok (both_lines here rest)

-- `dsm_status`
unfoldable pub dsm_states : List Sample → Dict String → Dict String
unfolding label_or set
dsm_states [] d = d
dsm_states (r ∷ rs) d = dsm_states rs (set (label_or "" "device" r) r.value d)

abbrev state_or : Option String → String
state_or none = "5"
state_or (some st) = st

abbrev dsm_said : String → Sample → Lines
dsm_said st r =
    if st == "1"
    then record {
      urgent =
          (told_device r
            <> (": DSM " <> (label_or "" "synoDsmVersion" r <> ", an update is available")))
          ∷ [];
      other = [];
      couldnt = [];
    }
    else if st == "4"
    then record {
      urgent = [];
      other = [];
      couldnt = (told_device r <> ": DSM says can't reach Synology's update server") ∷ [];
    }
    else if st == "5"
    then record { urgent = []; other = []; couldnt = (told_device r <> ": DSM says unknown") ∷ [] }
    else no_lines

unfoldable dsm_lines : Dict String → List Sample → Lines
unfolding label_or get both_lines
dsm_lines states [] = no_lines
dsm_lines states (r ∷ rs) =
    both_lines (dsm_said (state_or (get (label_or "" "device" r) states)) r) (dsm_lines states rs)

abbrev no_dsm : List Sample → List String
no_dsm [] = "nas2: DSM version not reported over SNMP" ∷ []
no_dsm (r ∷ rs) = []

abbrev named : Option String → Step String
named none = err (crash "TypeError")
named (some dev) = ok dev

unfoldable firmwares : List Sample → List String
unfolding label_or
firmwares [] = []
firmwares (r ∷ rs) = label_or "" "rlPhdUnitGenParamSoftwareVersion" r ∷ firmwares rs

abbrev cisco_line : List String → List String → String
cisco_line devs vers =
    join " and " (sorted (union_of devs []))
    <> (" (firmware "
        <> (join ", " (sorted (union_of vers []))
            <> "): Cisco SG300 switches are end of life; no more firmware will come, so replacing them is the only fix for future vulnerabilities"))

abbrev cisco_lines : List Sample → Step (List String)
cisco_lines [] = ok []
cisco_lines (r ∷ rs) = do
  devs ← traverse (λ s. named (get "device" s.metric)) (r ∷ rs)
  ok (cisco_line devs (firmwares (r ∷ rs)) ∷ [])

-- `_network`
unfoldable pub network : NetworkProbes → Step Lines
unfolding devices all_routers dsm_states dsm_lines firmwares traverse get sorted union_of join
    both_lines
network p = do
  routers ← all_routers p p.ros
  switches ← cisco_lines p.cisco
  ok (
      both_lines
        (record {
          urgent = [];
          other = [];
          couldnt = unreported p "rt-nyc" ++ (unreported p "rt-rambles" ++ unreported p "sw-10g");
        })
        (both_lines routers (
          both_lines (dsm_lines (dsm_states p.dsm_up []) p.dsm)
            (record { urgent = []; other = switches; couldnt = no_dsm p.dsm }))))
