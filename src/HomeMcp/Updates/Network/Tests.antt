-- ===== src/HomeMcp/Updates/Network/Tests.antt =====
-- The network devices on a summer day.
use nyc_pa_aws_gitops.Prelude.{String, ◌≡◌, refl, [], ◌∷◌}
use nyc_pa_aws_gitops.Prelude.Results.{ok}
use nyc_pa_aws_gitops.HomeMcp.Updates.Hosts.{Sample}
use nyc_pa_aws_gitops.HomeMcp.Updates.Network.{NetworkProbes, vtuple, network}

abbrev router : String → String → Sample
router dev ver = record { metric = ("device", dev) ∷ ("mtxrLicVersion", ver) ∷ []; value = "1" }

abbrev summer : NetworkProbes
summer = record {
  ros = router "rt-nyc" "7.19.2" ∷ router "sw-10g" "7.20" ∷ [];
  boot =
      record { metric = ("device", "sw-10g") ∷ ("mtxrFirmwareVersion", "7.19") ∷ []; value = "1" }
      ∷ [];
  boot_up =
      record {
        metric = ("device", "sw-10g") ∷ ("mtxrFirmwareUpgradeVersion", "7.20") ∷ [];
        value = "1";
      }
      ∷ [];
  dsm = record { metric = ("device", "nas2") ∷ []; value = "1" } ∷ [];
  dsm_up = record { metric = ("device", "nas2") ∷ []; value = "2" } ∷ [];
  cisco = [];
  latest = λ major. ok "7.20.1";
  month = 7;
}

versions_read : vtuple "7.20.1 (stable)" ≡ 7 ∷ 20 ∷ 1 ∷ []
unfolding vtuple
versions_read = refl

summer_told :
    network summer
    ≡ ok (record {
      urgent = "rt-nyc: RouterOS 7.19.2, 7.20.1 is the current stable" ∷ [];
      other =
          "sw-10g: RouterOS 7.20, 7.20.1 is the current stable"
          ∷ "sw-10g: RouterBOOT 7.19 is behind the installed RouterOS (7.20); /system routerboard upgrade, then reboot"
          ∷ [];
      couldnt = "rt-rambles: RouterOS version not reported over SNMP" ∷ [];
    })
unfolding network
summer_told = refl
