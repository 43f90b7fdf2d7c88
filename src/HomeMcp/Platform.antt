-- ===== src/HomeMcp/Platform.antt =====
-- compose/aws/home-mcp/status.py: the state of the platform in one sentence. What Prometheus answers, the
-- probes of the apps and the warnings on tokens are given.
pub mod Sites
pub mod Good
mod Tests
use nyc_pa_aws_gitops.Prelude.{
  ℕ, ◌+◌, ◌*◌, String, ◌<>◌, Bool, true, false, not, ◌&&◌, ◌||◌, Option, none, some, List, [], ◌∷◌,
  ◌++◌, ◌==◌, ltb, leb, if◌then◌else◌, length, join, show,
}
use nyc_pa_aws_gitops.Prelude.Dict.{Dict, get, set}

-- A result of a query: the label that is read, and the value as a text.
pub record Sample : Type 0 where
  pub label : String
  pub value : String

-- Python's floats, as far as they are read here: `int(float(s))`, whether `float(s) / n` is above 4, and
-- `f"{float(s):.0f}"`.
pub record Floats : Type 0 where
  pub whole : String → ℕ
  pub is_above : String → ℕ → Bool
  pub rounded : String → String

-- The eight answers, the probes of the apps, the warnings and the month.
pub record Probes : Type 0 where
  pub internet : List Sample
  pub routers : List Sample
  pub nodes : List Sample
  pub load : List Sample
  pub cores : List Sample
  pub hub : List Sample
  pub month_to_date : List Sample
  pub forecast : List Sample
  pub apps : List (String × Bool)
  pub token_problems : List String
  pub job_token_problems : List String
  pub approvals : Option (List String)
  pub month : ℕ

abbrev pub is_up : Sample → Bool
is_up r = r.value == "1"

-- `_rambles_off_season`
abbrev pub off_season : ℕ → Bool
off_season month = leb 11 month || leb month 4

-- `{r["metric"]["site"]: r["value"][1] == "1" for r in internet}`
unfoldable pub internet_sites : List Sample → Dict Bool → Dict Bool
unfolding set
internet_sites [] d = d
internet_sites (r ∷ rs) d = internet_sites rs (set r.label (is_up r) d)

abbrev pub site_of : String → String
site_of device = if device == "rt-nyc" then "nyc" else "rambles"

abbrev pub ok_or : Bool → Option Bool → Bool
ok_or other none = other
ok_or other (some b) = b

-- The loop over the routers.
unfoldable pub router_sites : List Sample → Dict Bool → Dict Bool
unfolding get set
router_sites [] d = d
router_sites (r ∷ rs) d =
    let site = site_of r.label in router_sites rs (set site (ok_or true (get site d) && is_up r) d)

-- `site_ok`
unfoldable pub site_states : Probes → Dict Bool
unfolding internet_sites router_sites
site_states p = router_sites p.routers (internet_sites p.internet [])

abbrev pub is_offline : Probes → String → Bool
is_offline p site = not (ok_or false (get site (site_states p)))

-- The loop over the two sites.
unfoldable pub site_problems : Probes → List String
unfolding site_states get
site_problems p =
    (if is_offline p "nyc" then "NYC looks offline" ∷ [] else [])
    ++ (if is_offline p "rambles" && not (off_season p.month)
        then "Rambles looks offline" ∷ []
        else [])

abbrev pub is_excused : ℕ → String → Bool
is_excused month inst = inst == "nuc5" && off_season month

unfoldable pub node_problems : ℕ → List Sample → List String
node_problems month [] = []
node_problems month (r ∷ rs) =
    let rest = node_problems month rs in
    if not (is_up r) && not (is_excused month r.label)
    then (r.label <> " is not reporting") ∷ rest
    else rest

-- `core_count`
unfoldable pub core_counts : Floats → List Sample → Dict ℕ → Dict ℕ
unfolding set
core_counts f [] d = d
core_counts f (r ∷ rs) d = core_counts f rs (set r.label (f.whole r.value) d)

abbrev pub cores_of : Option ℕ → ℕ
cores_of none = 1
cores_of (some n) = n

unfoldable pub load_problems : Floats → Dict ℕ → List Sample → List String
unfolding get show
load_problems f counts [] = []
load_problems f counts (r ∷ rs) =
    let n = cores_of (get r.label counts) in
    let rest = load_problems f counts rs in
    if f.is_above r.value n
    then (r.label
        <> (" load is " <> (f.rounded r.value <> (" on " <> (show n <> " cores, likely stuck")))))
      ∷ rest
    else rest

unfoldable pub hub_problems : List Sample → List String
hub_problems [] = []
hub_problems (r ∷ rs) =
    let rest = hub_problems rs in
    if is_up r then rest else ("hub service " <> (r.label <> " is down")) ∷ rest

unfoldable pub app_problems : List (String × Bool) → List String
app_problems [] = []
app_problems ((name, up) ∷ apps) =
    let rest = app_problems apps in if up then rest else (name <> " is down") ∷ rest

unfoldable pub apps_up : List (String × Bool) → ℕ
apps_up [] = 0
apps_up ((name, up) ∷ apps) = let rest = apps_up apps in if up then rest + 1 else rest

-- `problems`
unfoldable pub problems : Floats → Probes → List String
unfolding site_problems node_problems core_counts load_problems hub_problems app_problems
problems f p =
    site_problems p
    ++ (node_problems p.month p.nodes
        ++ (load_problems f (core_counts f p.cores []) p.load
            ++ (hub_problems p.hub
                ++ (app_problems p.apps ++ (p.token_problems ++ p.job_token_problems)))))

abbrev many : List String → String → String → String
many xs one more = if ltb 1 (length xs) then more else one

-- The first sentence.
abbrev pub head_of : List String → List (String × Bool) → String
head_of [] apps =
    "All good: sites online, NUCs healthy, "
    <> (show (apps_up apps) <> (" of " <> (show (length apps) <> " apps up.")))
head_of (x ∷ xs) apps =
    show (length (x ∷ xs))
    <> (" issue" <> (many (x ∷ xs) "" "s" <> (": " <> (join "; " (x ∷ xs) <> "."))))

abbrev approvals_line : Option (List String) → List String
approvals_line none = "I couldn't check GitHub for pending approvals." ∷ []
approvals_line (some []) = []
approvals_line (some (x ∷ xs)) =
    (show (length (x ∷ xs))
      <> (" deploy"
          <> (many (x ∷ xs) " is" "s are"
              <> (" waiting for your approval: " <> (join "; " (x ∷ xs) <> ".")))))
    ∷ []

abbrev forecast_part : Floats → List Sample → String
forecast_part f [] = ""
forecast_part f (r ∷ rs) = ", forecast $" <> f.rounded r.value

abbrev cost_line : Floats → List Sample → List Sample → List String
cost_line f [] forecast = []
cost_line f (r ∷ rs) forecast =
    ("AWS is at $" <> (f.rounded r.value <> (" this month" <> (forecast_part f forecast <> "."))))
    ∷ []

abbrev season_line : ℕ → List String
season_line month =
    if off_season month then "Rambles is in its closed season, so it isn't counted." ∷ [] else []

-- `platform_status`
unfoldable pub platform_status : Floats → Probes → String
unfolding problems apps_up join show
platform_status f p = join " " (
    head_of (problems f p) p.apps
    ∷ (approvals_line p.approvals
        ++ (cost_line f p.month_to_date p.forecast ++ season_line p.month)))
