-- ===== src/HomeMcp/Platform/Good.antt =====
-- When no problem is told of the samples that were read.
use nyc_pa_aws_gitops.HomeMcp.Platform.Sites.{IsOnline, is_offline-IsOnline}
use nyc_pa_aws_gitops.Prelude.{
  ℕ, String, ◌≡◌, ◌⊎◌, inl, inr, refl, Bool, true, false, not, ◌&&◌, List, [], ◌∷◌, if◌then◌else◌,
  All, ◌==◌, Bool-cases,
}
use nyc_pa_aws_gitops.Prelude.Members.{both_empty}
use nyc_pa_aws_gitops.Prelude.Dict.{Dict, get}
use nyc_pa_aws_gitops.HomeMcp.Platform.{
  Sample, Floats, Probes, is_up, site_of, off_season, is_offline, is_excused, cores_of, core_counts,
  site_problems, node_problems, load_problems, hub_problems, app_problems, problems,
}

-- Each site is online by its samples, or it is Rambles in its closed season; of the samples of the NUCs,
-- each is up or is that of nuc5 in that season; no load is above its limit; each sample of a service of the
-- hub and each probe of an app is up; and there is no warning on a token.
pub record IsGood (f : Floats) (p : Probes) : Type 0 where
  pub nyc : IsOnline p "nyc" (λ device. device == "rt-nyc")
  pub rambles :
      IsOnline p "rambles" (λ device. not (device == "rt-nyc")) ⊎ (off_season p.month ≡ true)
  pub nodes : All (λ r. (is_up r ≡ true) ⊎ (is_excused p.month r.label ≡ true)) p.nodes
  pub load :
      All
        (λ r. f.is_above r.value (cores_of (get r.label (core_counts f p.cores []))) ≡ false)
        p.load
  pub hub : All (λ r. is_up r ≡ true) p.hub
  pub apps : All (λ a. a.1 ≡ true) p.apps
  pub tokens : p.token_problems ≡ []
  pub job_tokens : p.job_token_problems ≡ []

no_line : (b : Bool) (x : String) → (if b then x ∷ [] else []) ≡ [] → b ≡ false
no_line true x h = cc
no_line false x h = refl

no_rest :
    (b : Bool) (x : String) (xs : List String)
    → (if b then x ∷ xs else xs) ≡ []
    → (b ≡ false) × (xs ≡ [])
no_rest true x xs h = cc
no_rest false x xs h = (refl, h)

up_or_excused : (a b : Bool) → not a && not b ≡ false → (a ≡ true) ⊎ (b ≡ true)
up_or_excused true b h = inl refl
up_or_excused false true h = inr refl
up_or_excused false false h = cc

online_or_closed : (a b : Bool) → a && not b ≡ false → (a ≡ false) ⊎ (b ≡ true)
online_or_closed false b h = inl refl
online_or_closed true true h = inr refl
online_or_closed true false h = cc

nyc_router : (d : String) → ("nyc" == site_of d) ≡ (d == "rt-nyc")
nyc_router d = elim (Bool-cases (d == "rt-nyc")) [ inl e ↦ rw e refl | inr e ↦ rw e refl ]

rambles_router : (d : String) → ("rambles" == site_of d) ≡ not (d == "rt-nyc")
rambles_router d = elim (Bool-cases (d == "rt-nyc")) [ inl e ↦ rw e refl | inr e ↦ rw e refl ]

rambles-IsOnline :
    (p : Probes)
    → is_offline p "rambles" && not (off_season p.month) ≡ false
    → IsOnline p "rambles" (λ device. not (device == "rt-nyc")) ⊎ (off_season p.month ≡ true)
rambles-IsOnline p h = elim (online_or_closed (is_offline p "rambles") (off_season p.month) h) [
  | inl e ↦ inl (is_offline-IsOnline p "rambles" _ rambles_router e)
  | inr e ↦ inr e
]

no_nodes :
    (month : ℕ) (rs : List Sample)
    → node_problems month rs ≡ []
    → All (λ r. (is_up r ≡ true) ⊎ (is_excused month r.label ≡ true)) rs
unfolding node_problems
no_nodes month [] h = tt
no_nodes month (r ∷ rs) h =
    let (b, e) =
      no_rest (not (is_up r) && not (is_excused month r.label)) _ (node_problems month rs) h in
    (up_or_excused (is_up r) (is_excused month r.label) b, no_nodes month rs e)

no_load :
    (f : Floats) (counts : Dict ℕ) (rs : List Sample)
    → load_problems f counts rs ≡ []
    → All (λ r. f.is_above r.value (cores_of (get r.label counts)) ≡ false) rs
unfolding load_problems
no_load f counts [] h = tt
no_load f counts (r ∷ rs) h =
    let (b, e) =
      no_rest (f.is_above r.value (cores_of (get r.label counts))) _ (load_problems f counts rs)
        h in
    (b, no_load f counts rs e)

no_down :
    (b : Bool) (x : String) (xs : List String)
    → (if b then xs else x ∷ xs) ≡ []
    → (b ≡ true) × (xs ≡ [])
no_down true x xs h = (refl, h)
no_down false x xs h = cc

no_hub : (rs : List Sample) → hub_problems rs ≡ [] → All (λ r. is_up r ≡ true) rs
unfolding hub_problems
no_hub [] h = tt
no_hub (r ∷ rs) h = let (b, e) = no_down (is_up r) _ (hub_problems rs) h in (b, no_hub rs e)

no_apps : (apps : List (String × Bool)) → app_problems apps ≡ [] → All (λ a. a.1 ≡ true) apps
unfolding app_problems
no_apps [] h = tt
no_apps ((name, up) ∷ apps) h =
    let (b, e) = no_down up _ (app_problems apps) h in (b, no_apps apps e)

-- There is no problem to tell only if NYC is online, and Rambles unless it is its closed season: some sample
-- of the site's internet or of one of its routers was read, the last one of its internet is up, if there is
-- one, and so is each of its routers. Of the other samples that were read, each NUC's is up or is that of
-- nuc5 in the closed season, no load is above its limit, and each of a service of the hub is up; each probe of
-- an app is up, and there is no warning on a token. A NUC or service without a sample is not told.
pub problems-IsGood : (f : Floats) (p : Probes) → problems f p ≡ [] → IsGood f p
unfolding problems site_problems
problems-IsGood f p h =
    let (sites, h1) = both_empty (site_problems p) _ h in
    let (nodes, h2) = both_empty (node_problems p.month p.nodes) _ h1 in
    let (load, h3) = both_empty (load_problems f (core_counts f p.cores []) p.load) _ h2 in
    let (hub, h4) = both_empty (hub_problems p.hub) _ h3 in
    let (apps, h5) = both_empty (app_problems p.apps) _ h4 in
    let (tokens, jobs) = both_empty p.token_problems p.job_token_problems h5 in
    let (n, r) = both_empty _ _ sites in
    record {
      nyc = is_offline-IsOnline p "nyc" _ nyc_router (no_line (is_offline p "nyc") _ n);
      rambles = rambles-IsOnline p (no_line _ _ r);
      nodes = no_nodes p.month p.nodes nodes;
      load = no_load f (core_counts f p.cores []) p.load load;
      hub = no_hub p.hub hub;
      apps = no_apps p.apps apps;
      tokens = tokens;
      job_tokens = jobs;
    }
