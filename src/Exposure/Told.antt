-- ===== src/Exposure/Told.antt =====
-- An open port that is not expected is told, and no site is scanned at an old address.
use nyc_pa_aws_gitops.Prelude.{
  ℕ, String, ◌≡◌, true, false, List, [], ◌∷◌, ◌++◌, arith, contains, eq_iff,
}
use nyc_pa_aws_gitops.Prelude.Members.{in_front, behind}
use nyc_pa_aws_gitops.Prelude.Results.{ok}
use nyc_pa_aws_gitops.Prelude.Dict.{Dict, get}
use nyc_pa_aws_gitops.Exposure.Endpoints.{Outside, Port}
use nyc_pa_aws_gitops.Exposure.Scan.{
  Wanted, Finding, failed, scanned, Entry, is_listed, port_text, not_wanted, wanted_for, finding_of,
  entries, scan, plan, latest,
}
use nyc_pa_aws_gitops.Exposure.Answer.{
  Told, written, unexpected_line, told_ports, add_target, add_targets, scan_told,
}

-- The port `p` is one of the ports.
pub data HasPort (p : ℕ) : List Port → Type 0 where
  this_port :
      (service : String) (ps : List Port) → HasPort p (record { port = p; service = service } ∷ ps)
  later_port : (other : Port) (ps : List Port) → HasPort p ps → HasPort p (other ∷ ps)

-- The host `name` at the address `ip` is one of the targets.
pub data HasTarget (name ip : String) : List (String × String) → Type 0 where
  this_target : (ts : List (String × String)) → HasTarget name ip ((name, ip) ∷ ts)
  later_target :
      (other : String × String) (ts : List (String × String))
      → HasTarget name ip ts
      → HasTarget name ip (other ∷ ts)

not_wanted-HasPort :
    (kind : String) (want : List ℕ) (p : ℕ) (ps : List Port)
    → is_listed want p ≡ false
    → HasPort p ps
    → contains (not_wanted kind want ps) (port_text kind p) ≡ true
unfolding not_wanted
not_wanted-HasPort kind want p _ h (this_port service ps) =
    rw h (ground (arith, eq_iff (port_text kind p) (port_text kind p)))
not_wanted-HasPort kind want p _ h (later_port other ps m) =
    ground (arith, not_wanted-HasPort kind want p ps h m)

told_ports-keeps :
    (name : String) (tcp udp : List Port) (ports : List String) (t : Told) (x : String)
    → contains t.problems x ≡ true
    → contains (told_ports name tcp udp ports t).problems x ≡ true
told_ports-keeps name tcp udp [] t x h = h
told_ports-keeps name tcp udp (p ∷ ps) t x h = in_front t.problems _ x h

add_target-keeps :
    (name : String) (f : Finding) (t : Told) (x : String)
    → contains t.problems x ≡ true
    → contains (add_target name f t).problems x ≡ true
unfolding add_target
add_target-keeps name (failed why) t x h = h
add_target-keeps name (scanned tcp udp ports) t x h = told_ports-keeps name tcp udp ports t x h

add_targets-keeps :
    (es : List Entry) (t : Told) (x : String)
    → contains t.problems x ≡ true
    → contains (add_targets es t).problems x ≡ true
unfolding add_targets
add_targets-keeps [] t x h = h
add_targets-keeps (e ∷ es) t x h =
    add_targets-keeps es (add_target e.name e.finding t) x (add_target-keeps e.name e.finding t x h)

-- One of the problems is that `name` has unexpected ports open, `port` among them.
pub data Reported (name port : String) (t : Told) : Type 0 where
  reported :
      (ports : List String)
      → contains ports port ≡ true
      → contains t.problems (unexpected_line name ports) ≡ true
      → Reported name port t

told_ports-Reported :
    (name port : String) (tcp udp : List Port) (ports : List String) (t : Told)
    → contains ports port ≡ true
    → Reported name port (told_ports name tcp udp ports t)
told_ports-Reported name port tcp udp [] t h = cc
told_ports-Reported name port tcp udp (p ∷ ps) t h = reported (p ∷ ps) h (
    behind t.problems _ (unexpected_line name (p ∷ ps))
      (ground (arith, eq_iff (unexpected_line name (p ∷ ps)) (unexpected_line name (p ∷ ps)))))

Reported-later :
    (name port : String) (es : List Entry) (t : Told)
    → Reported name port t
    → Reported name port (add_targets es t)
Reported-later name port es t (reported ports h m) =
    reported ports h (add_targets-keeps es t (unexpected_line name ports) m)

entries-Reported :
    (o : Outside) (expected : Dict Wanted) (name ip : String) (tcp udp : List Port) (port : String)
    → scan o ip ≡ ok (tcp, udp)
    → contains
        (not_wanted "tcp" (wanted_for (get name expected)).tcp tcp
          ++ not_wanted "udp" (wanted_for (get name expected)).udp udp)
        port
      ≡ true
    → (targets : List (String × String)) (t : Told) → HasTarget name ip targets
    → Reported name port (add_targets (entries o expected targets) t)
unfolding entries add_targets add_target
entries-Reported o expected name ip tcp udp port e h _ t (this_target ts) = rw e (
    Reported-later name port (entries o expected ts) _
      (told_ports-Reported name port tcp udp _ t h))
entries-Reported o expected name ip tcp udp port e h _ t (later_target (other, at) ts m) =
    entries-Reported o expected name ip tcp udp port e h ts
      (add_target other (finding_of (wanted_for (get other expected)) (scan o at)) t) m

-- The problems are all that counts.
after_errors :
    {name port : String} {t : Told} {info couldnt : List String}
    → Reported name port t
    → Reported name port (record { problems = t.problems; info = info; couldnt = couldnt })
after_errors (reported ports h m) = reported ports h m

-- A TCP port that the scan of a target finds open, and that is not on the target's list of expected
-- ports, is told by the answer on the file that the scan writes: one of the problems names the target
-- and lists the port.
pub open_tcp-Reported :
    (o : Outside) (expected : Dict Wanted) (name ip : String) (tcp udp : List Port) (p : ℕ)
    (day_text : ℕ → String) (now : ℕ)
    → HasTarget name ip (plan o).targets
    → scan o ip ≡ ok (tcp, udp)
    → HasPort p tcp
    → is_listed (wanted_for (get name expected)).tcp p ≡ false
    → Reported name (port_text "tcp" p) (scan_told day_text now (written (latest o expected)))
unfolding scan_told latest
open_tcp-Reported o expected name ip tcp udp p day_text now m e found unlisted = after_errors (
    entries-Reported o expected name ip tcp udp (port_text "tcp" p) e
      (in_front _ _ (port_text "tcp" p)
        (not_wanted-HasPort "tcp" (wanted_for (get name expected)).tcp p tcp unlisted found))
      (plan o).targets _ m)
