-- ===== src/Exposure/Tests.antt =====
-- A scan of two sites, of which one is stale, with an unexpected port, and what is told of it.
use nyc_pa_aws_gitops.Prelude.{
  ℕ, String, ◌<>◌, ◌≡◌, refl, Bool, true, false, Option, none, some, List, [], ◌∷◌, ◌++◌, ◌==◌,
  if◌then◌else◌, contains, arith,
}
use nyc_pa_aws_gitops.Prelude.Results.{ok, err}
use nyc_pa_aws_gitops.Prelude.Dict.{Dict}
use nyc_pa_aws_gitops.Exposure.Endpoints.{PortElement, Outside}
use nyc_pa_aws_gitops.Exposure.Scan.{scanned, plan, latest, scan, port_text}
use nyc_pa_aws_gitops.Exposure.Answer.{written, left, scan_told, exposure_check}
use nyc_pa_aws_gitops.Exposure.Told.{this_target, this_port, Reported, open_tcp-Reported}
use nyc_pa_aws_gitops.Exposure.Fresh.{IsFresh, plan-IsFresh}

abbrev dump : String
dump =
    "wg0\tk\tp\t51820\toff\nwg0\ta\tp\t[1.2.3.4]:51820\t10.0.1.0/24,10.9.0.2/32\t1000\t1\t2\t25\nwg0\tb\tp\t5.6.7.8:51820\t10.0.2.0/24\t99\t1\t2\toff\n"

abbrev ssh : PortElement
ssh = record { portid = 22; state = "open"; service = some "ssh" }

abbrev shut : PortElement
shut = record { portid = 23; state = "closed"; service = none }

abbrev outside : Outside
outside = record {
  run_nmap = λ args. ok (0, if contains args "-sS" then ssh ∷ shut ∷ [] else []);
  wg_dump = ok dump;
  public_ip = err (record { name = "URLError"; text = "timed out" });
  now = 1060000000;
}

nyc_planned : plan outside ≡ record {
  targets = ("nyc", "1.2.3.4") ∷ [];
  errors =
      "hub public IP lookup failed: URLError" ∷ "rambles skipped: no recent WireGuard handshake"
      ∷ [];
}
unfolding plan
nyc_planned = refl

ssh_told :
    (scan_told (λ t. "Wed Nov 25") 1060000000 (written (latest outside []))).problems
    ≡ "nyc has unexpected open ports: tcp/22" ∷ []
unfolding scan_told latest
ssh_told = refl

fine_told :
    exposure_check
      (λ t. "Wed Nov 25")
      1060000000
      (written (record {
        scanned_at = 0;
        targets = record { name = "hub"; ip = "9.9.9.9"; finding = scanned [] [] [] } ∷ [];
        errors = [];
      }))
      (("a.example", left 2592000000000) ∷ [])
    ≡ "Nothing unexpected is reachable from the internet, and all certificates are current.\nScan: port scan from Wed Nov 25 (0 days ago); hub: only expected ports open (none).\nCertificates: 1 public hostnames checked; the soonest expires in 30 days.\nCaveats: the hub scans its own public IP through AWS's gateway, and the site routers trust the hub, so a port opened only to the hub would show up here too."
unfolding exposure_check
fine_told = refl

open_tcp-Reported_example :
    Reported "nyc"
      (port_text "tcp" 22)
      (scan_told (λ t. "Wed Nov 25") 1060000000 (written (latest outside [])))
unfolding plan scan nyc_pa_aws_gitops.Prelude.Dict.get
open_tcp-Reported_example =
    open_tcp-Reported outside [] "nyc" "1.2.3.4" (record { port = 22; service = "ssh" } ∷ []) [] 22
      (λ t. "Wed Nov 25") 1060000000 (this_target []) refl (this_port "ssh" []) refl

plan-IsFresh_example : IsFresh outside "nyc" "1.2.3.4"
unfolding plan
plan-IsFresh_example = plan-IsFresh outside "nyc" "1.2.3.4" (this_target [])
