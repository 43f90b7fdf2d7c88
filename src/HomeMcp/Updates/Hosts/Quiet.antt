-- ===== src/HomeMcp/Updates/Hosts/Quiet.antt =====
-- What it means that nothing urgent and nothing unchecked is told of the hosts.
use nyc_pa_aws_gitops.Prelude.{
  ℕ, String, ◌≡◌, refl, sym, subst, Bool, true, false, ◌&&◌, Option, none, some, List, [], ◌==◌,
  arith, if◌then◌else◌, contains,
}
use nyc_pa_aws_gitops.Prelude.Results.{ok, >>=-eq-ok, ok_inj}
use nyc_pa_aws_gitops.Prelude.Members.{both_empty}
use nyc_pa_aws_gitops.Prelude.Dict.{Dict, get}
use nyc_pa_aws_gitops.HomeMcp.Updates.Checks.{Lines, no_lines, both_lines, Lookups}
use nyc_pa_aws_gitops.HomeMcp.Updates.Hosts.{
  HostProbes, by_host, reboots, checked_at, off_season, counts_of, is_urgent, is_late, late_lines,
  unchecked, sorted_line, part_if, line_of, parts_of, name_of, host_lines, lines_for, os_lines,
  three_hosts, hosts,
}

-- Nothing urgent and nothing unchecked.
pub record IsQuiet (l : Lines) : Type 0 where
  pub urgent : l.urgent ≡ []
  pub couldnt : l.couldnt ≡ []

IsQuiet-both_lines : (a b : Lines) → IsQuiet (both_lines a b) → IsQuiet a × IsQuiet b
unfolding both_lines
IsQuiet-both_lines a b q =
    let (u, v) = both_empty a.urgent b.urgent q.urgent in
    let (c, d) = both_empty a.couldnt b.couldnt q.couldnt in
    (record { urgent = u; couldnt = c }, record { urgent = v; couldnt = d })

-- The host has its last check within a day, and neither critical nor important updates nor a reboot to
-- come; or it is nuc5 in its closed season, without a check.
pub data HostFine (p : HostProbes) (pending : Dict (Dict ℕ)) (again : List String)
    (checked : Dict String) (host : String) : Type 0 where
  closed :
      get host checked ≡ none
      → host == "nuc5" ≡ true
      → off_season p.month ≡ true
      → HostFine p pending again checked host
  current :
      (at : String)
      → get host checked ≡ some at
      → is_late (p.since at) ≡ false
      → is_urgent (counts_of (get host pending)) (contains again host) ≡ false
      → HostFine p pending again checked host

no_part : (b : Bool) (x : String) → part_if b x ≡ [] → b ≡ false
no_part true x h = cc
no_part false x h = refl

not_urgent : (b : Bool) (line : String) → IsQuiet (sorted_line b line) → b ≡ false
not_urgent true line q = let e = q.urgent in cc
not_urgent false line q = refl

excused : (b : Bool) (host : String) → IsQuiet (if b then no_lines else unchecked host) → b ≡ true
excused true host q = refl
excused false host q = let e = q.couldnt in cc

HostFine-IsQuiet :
    (p : HostProbes) (pending : Dict (Dict ℕ)) (again : List String) (checked : Dict String)
    (host : String) (o : Option String)
    → get host checked ≡ o
    → IsQuiet (host_lines p host o (counts_of (get host pending)) (contains again host))
    → HostFine p pending again checked host
unfolding host_lines
HostFine-IsQuiet p pending again checked host none e q =
    let b = excused (host == "nuc5" && off_season p.month) host q in
    closed e (ground arith) (ground arith)
HostFine-IsQuiet p pending again checked host (some at) e q =
    let c = counts_of (get host pending) in
    let r = contains again host in
    let (late, told) =
      IsQuiet-both_lines (late_lines host (p.since at))
        (sorted_line (is_urgent c r) (line_of (name_of host) (parts_of c r))) q in
    current at e (no_part (is_late (p.since at)) _ late.couldnt) (not_urgent (is_urgent c r) _ told)

-- The three hosts are fine, by what the section has read.
pub data AllFine (p : HostProbes) : Type 0 where
  all_fine :
      (pending : Dict (Dict ℕ)) (again : List String) (checked : Dict String)
      → by_host p p.pending [] ≡ ok pending
      → reboots p.reboot ≡ ok again
      → checked_at p.last [] ≡ ok checked
      → HostFine p pending again checked "aws-hub"
      → HostFine p pending again checked "nuc4"
      → HostFine p pending again checked "nuc5"
      → AllFine p

-- When the section on the hosts ends well, with nothing urgent and nothing unchecked, then for each of the
-- hub and the two NUCs: its last update check is at most 24 hours old, and it has neither critical nor
-- important updates nor a reboot to come; or it is nuc5 from November to April, and has reported no check.
pub hosts-AllFine :
    (w : Lookups) (p : HostProbes) (l : Lines) → hosts w p ≡ ok l → IsQuiet l → AllFine p
unfolding hosts three_hosts lines_for
hosts-AllFine w p l h q =
    let (pending, e1, h1) = >>=-eq-ok (by_host p p.pending []) _ h in
    let (again, e2, h2) = >>=-eq-ok (reboots p.reboot) _ h1 in
    let (checked, e3, h3) = >>=-eq-ok (checked_at p.last []) _ h2 in
    let (systems, e4, h4) = >>=-eq-ok (os_lines w p.osinfo) _ h3 in
    let (three, rest) =
      IsQuiet-both_lines (three_hosts p pending again checked) _
        (subst (λ z. IsQuiet z) (sym (ok_inj h4)) q) in
    let (hub, nucs) = IsQuiet-both_lines (lines_for p pending again checked "aws-hub") _ three in
    let (nuc4, nuc5) = IsQuiet-both_lines (lines_for p pending again checked "nuc4") _ nucs in
    all_fine pending again checked e1 e2 e3
      (HostFine-IsQuiet p pending again checked "aws-hub" (get "aws-hub" checked) refl hub)
      (HostFine-IsQuiet p pending again checked "nuc4" (get "nuc4" checked) refl nuc4)
      (HostFine-IsQuiet p pending again checked "nuc5" (get "nuc5" checked) refl nuc5)
