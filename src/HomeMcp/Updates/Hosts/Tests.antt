-- ===== src/HomeMcp/Updates/Hosts/Tests.antt =====
-- The hosts on a winter day.
use nyc_pa_aws_gitops.Prelude.{String, ◌≡◌, refl, false, [], ◌∷◌, ◌==◌, if◌then◌else◌}
use nyc_pa_aws_gitops.Prelude.Results.{ok, err}
use nyc_pa_aws_gitops.HomeMcp.Updates.Images.{http_error}
use nyc_pa_aws_gitops.HomeMcp.Updates.Checks.{Lines, Lookups}
use nyc_pa_aws_gitops.HomeMcp.Updates.Hosts.{Sample, HostProbes, hosts}
use nyc_pa_aws_gitops.HomeMcp.Updates.Hosts.Quiet.{AllFine, hosts-AllFine}

abbrev lookups : Lookups
lookups = record {
  python = record { wide_digit = λ c. false; container_text = λ v. "?" };
  tags = λ r i. ok [];
  eol = λ product. err (http_error "ConnectError");
  today = record { year = 2026; month = 12; day = 1 };
}

abbrev of_host : String → String → Sample
of_host host value = record { metric = ("instance", host) ∷ []; value = value }

abbrev calm : HostProbes
calm = record {
  pending = record { metric = ("instance", "nuc4") ∷ ("type", "all") ∷ []; value = "2" } ∷ [];
  reboot = of_host "nuc4" "0" ∷ [];
  release = [];
  last = of_host "aws-hub" "100" ∷ of_host "nuc4" "100" ∷ [];
  osinfo = [];
  whole = λ t. (if t == "2" then 2 else 1);
  since = λ t. 3600;
  month = 12;
}

abbrev calm_lines : Lines
calm_lines = record { urgent = []; other = "nuc4: 2 package updates pending" ∷ []; couldnt = [] }

calm_told : hosts lookups calm ≡ ok calm_lines
unfolding hosts
calm_told = refl

busy_told :
    hosts lookups (record {
      pending =
          record { metric = ("instance", "aws-hub") ∷ ("type", "critical") ∷ []; value = "1" } ∷ [];
      reboot = of_host "aws-hub" "1" ∷ [];
      release = [];
      last = of_host "aws-hub" "100" ∷ [];
      osinfo = record { metric = ("id", "rocky") ∷ ("name", "Rocky Linux") ∷ []; value = "1" } ∷ [];
      whole = λ t. 1;
      since = λ t. 90000000000;
      month = 7;
    })
    ≡ ok (record {
      urgent = "hub: needs a reboot to finish installing updates" ∷ [];
      other = [];
      couldnt =
          "hub: update check hasn't run for 25 hours"
          ∷ "nuc4: no update data yet (its update check hasn't reported)"
          ∷ "nuc5: no update data yet (its update check hasn't reported)"
          ∷ "end-of-life dates for Rocky Linux" ∷ [];
    })
unfolding hosts
busy_told = refl

hosts-AllFine_example : AllFine calm
unfolding hosts
hosts-AllFine_example =
    hosts-AllFine lookups calm calm_lines refl (record { urgent = refl; couldnt = refl })
