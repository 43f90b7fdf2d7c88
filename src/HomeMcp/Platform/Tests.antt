-- ===== src/HomeMcp/Platform/Tests.antt =====
-- The platform on a summer day and on a winter day.
use nyc_pa_aws_gitops.Prelude.{String, ◌≡◌, refl, true, false, none, some, [], ◌∷◌, ◌==◌}
use nyc_pa_aws_gitops.HomeMcp.Platform.{Sample, Floats, Probes, problems, platform_status}
use nyc_pa_aws_gitops.HomeMcp.Platform.Good.{IsGood, problems-IsGood}

abbrev up : String → Sample
up label = record { label = label; value = "1" }

abbrev down : String → Sample
down label = record { label = label; value = "0" }

abbrev floats : Floats
floats = record { whole = λ t. 8; is_above = λ t n. t == "99"; rounded = λ t. t }

abbrev winter : Probes
winter = record {
  internet = up "nyc" ∷ [];
  routers = up "rt-nyc" ∷ down "rt-rambles" ∷ [];
  nodes = up "nuc4" ∷ down "nuc5" ∷ [];
  load = record { label = "nuc4"; value = "2" } ∷ [];
  cores = record { label = "nuc4"; value = "8" } ∷ [];
  hub = up "postgres" ∷ [];
  month_to_date = record { label = ""; value = "41" } ∷ [];
  forecast = [];
  apps = ("hue", true) ∷ [];
  token_problems = [];
  job_token_problems = [];
  approvals = some [];
  month = 12;
}

abbrev summer : Probes
summer = record {
  internet = up "nyc" ∷ down "rambles" ∷ [];
  routers = up "rt-nyc" ∷ [];
  nodes = down "nuc5" ∷ [];
  load = record { label = "nuc4"; value = "99" } ∷ [];
  cores = [];
  hub = [];
  month_to_date = [];
  forecast = [];
  apps = ("hue", false) ∷ [];
  token_problems = [];
  job_token_problems = [];
  approvals = none;
  month = 7;
}

winter_told :
    platform_status floats winter
    ≡ "All good: sites online, NUCs healthy, 1 of 1 apps up. AWS is at $41 this month. Rambles is in its closed season, so it isn't counted."
unfolding platform_status
winter_told = refl

summer_told :
    platform_status floats summer
    ≡ "4 issues: Rambles looks offline; nuc5 is not reporting; nuc4 load is 99 on 1 cores, likely stuck; hue is down. I couldn't check GitHub for pending approvals."
unfolding platform_status
summer_told = refl

problems-IsGood_example : IsGood floats winter
unfolding problems
problems-IsGood_example = problems-IsGood floats winter refl
