-- ===== src/Exposure/Fresh.antt =====
-- A site is scanned only at the address of a recent handshake.
use nyc_pa_aws_gitops.Prelude.{
  ℕ, ◌≤◌, String, ◌≡◌, refl, false, Option, none, some, List, [], ◌∷◌, ◌++◌, arith, Bool-cases,
  str_le, ◌⊎◌, inl, inr,
}
use nyc_pa_aws_gitops.Prelude.Results.{ok, err}
use nyc_pa_aws_gitops.Prelude.Dict.{Dict}
use nyc_pa_aws_gitops.Exposure.Endpoints.{Outside, Step, Endpoint, stale_age, site_endpoints}
use nyc_pa_aws_gitops.Exposure.Scan.{
  Plan, is_stale, insert_site, sorted_sites, plan_sites, plan_hub, plan_lookup, plan,
}
use nyc_pa_aws_gitops.Exposure.Told.{HasTarget, this_target, later_target}

-- The site `name` is one of the sites, with the address `ip` and the age `age`.
pub data HasSite (name ip : String) (age : Option ℕ) : Dict Endpoint → Type 0 where
  this_site : (sites : Dict Endpoint) → HasSite name ip age ((name, (ip, age)) ∷ sites)
  later_site :
      (other : String × Endpoint) (sites : Dict Endpoint)
      → HasSite name ip age sites
      → HasSite name ip age (other ∷ sites)

-- When the rest may have taken `s` in, it stands in front of the whole.
swapped :
    (name ip : String) (age : Option ℕ) (s f : String × Endpoint) (sites : Dict Endpoint)
    → HasSite name ip age (s ∷ sites)
    → HasSite name ip age (s ∷ f ∷ sites)
swapped name ip age _ f sites (this_site _) = this_site (f ∷ sites)
swapped name ip age s f sites (later_site _ _ m) = later_site s (f ∷ sites) (later_site f sites m)

inserted :
    (name ip : String) (age : Option ℕ) (s f : String × Endpoint) (sites rest : Dict Endpoint)
    → (HasSite name ip age rest → HasSite name ip age (s ∷ sites))
    → HasSite name ip age (f ∷ rest)
    → HasSite name ip age (s ∷ f ∷ sites)
inserted name ip age s _ sites rest back (this_site _) = later_site s _ (this_site sites)
inserted name ip age s f sites rest back (later_site _ _ m) = swapped name ip age s f sites (back m)

insert_site-HasSite :
    (name ip : String) (age : Option ℕ) (s : String × Endpoint) (sites : Dict Endpoint)
    → HasSite name ip age (insert_site s sites)
    → HasSite name ip age (s ∷ sites)
unfolding insert_site
insert_site-HasSite name ip age (site, e) [] h = h
insert_site-HasSite name ip age (site, e) ((other, f) ∷ sites) h =
    elim (Bool-cases (str_le site other)) [
      | inl b ↦ rw b at h
      | inr b ↦
          inserted name ip age (site, e) (other, f) sites (insert_site (site, e) sites)
            (λ m. insert_site-HasSite name ip age (site, e) sites m) (rw b at h)
    ]

kept_in :
    (name ip : String) (age : Option ℕ) (s : String × Endpoint) (sites sorted : Dict Endpoint)
    → (HasSite name ip age sorted → HasSite name ip age sites)
    → HasSite name ip age (s ∷ sorted)
    → HasSite name ip age (s ∷ sites)
kept_in name ip age _ sites sorted back (this_site _) = this_site sites
kept_in name ip age s sites sorted back (later_site _ _ m) = later_site s sites (back m)

sorted_sites-HasSite :
    (name ip : String) (age : Option ℕ) (sites : Dict Endpoint)
    → HasSite name ip age (sorted_sites sites)
    → HasSite name ip age sites
unfolding sorted_sites
sorted_sites-HasSite name ip age [] h = h
sorted_sites-HasSite name ip age (s ∷ sites) h =
    kept_in name ip age s sites (sorted_sites sites) (λ m. sorted_sites-HasSite name ip age sites m)
      (insert_site-HasSite name ip age s (sorted_sites sites) h)

-- Why a host is a target: it is the hub, or a site with a handshake in the last 15 minutes.
pub data IsFresh (o : Outside) (name ip : String) : Type 0 where
  at_hub : o.public_ip ≡ ok ip → name ≡ "hub" → IsFresh o name ip
  at_site :
      (sites : Dict Endpoint) (age : ℕ)
      → site_endpoints o ≡ ok sites
      → HasSite name ip (some age) sites
      → age ≤ stale_age
      → IsFresh o name ip

-- Where a target of the loop over the sites comes from.
data From (name ip : String) (sites : Dict Endpoint) (before : List (String × String))
    : Type 0 where
  already : HasTarget name ip before → From name ip sites before
  fresh : (age : ℕ) → HasSite name ip (some age) sites → age ≤ stale_age → From name ip sites before

From-later :
    (name ip : String) (s : String × Endpoint) (sites : Dict Endpoint)
    (before : List (String × String))
    → From name ip sites before
    → From name ip (s ∷ sites) before
From-later name ip s sites before (already h) = already h
From-later name ip s sites before (fresh age h b) = fresh age (later_site s sites h) b

last_target :
    (name ip : String) (ts : List (String × String)) (t : String × String)
    → HasTarget name ip (ts ++ (t ∷ []))
    → HasTarget name ip ts ⊎ HasTarget name ip (t ∷ [])
last_target name ip [] t h = inr h
last_target name ip (_ ∷ ts) t (this_target _) = inl (this_target ts)
last_target name ip (x ∷ ts) t (later_target _ _ h) = elim (last_target name ip ts t h) [
  | inl m ↦ inl (later_target x ts m)
  | inr m ↦ inr m
]

fresh_target :
    (name ip site at : String) (age : ℕ) (sites : Dict Endpoint) (before : List (String × String))
    → age ≤ stale_age
    → HasTarget name ip ((site, at) ∷ [])
    → From name ip ((site, (at, some age)) ∷ sites) before
fresh_target name ip _ _ age sites before b (this_target _) = fresh age (this_site sites) b
fresh_target name ip _ _ age sites before b (later_target _ _ m) = elim m [ ]

with_site :
    (name ip site at : String) (age : Option ℕ) (sites : Dict Endpoint)
    (before : List (String × String))
    → is_stale age ≡ false
    → From name ip sites (before ++ ((site, at) ∷ []))
    → From name ip ((site, (at, age)) ∷ sites) before
with_site name ip site at none sites before b from = cc
with_site name ip site at (some age) sites before b (fresh n h c) = fresh n (later_site _ sites h) c
with_site name ip site at (some age) sites before b (already h) =
    elim (last_target name ip before (site, at) h) [
      | inl m ↦ already m
      | inr m ↦ fresh_target name ip site at age sites before (ground (arith, b)) m
    ]

plan_sites-From :
    (name ip : String) (sites : Dict Endpoint) (p : Plan)
    → HasTarget name ip (plan_sites sites p).targets
    → From name ip sites p.targets
unfolding plan_sites
plan_sites-From name ip [] p h = already h
plan_sites-From name ip ((s, (at, age)) ∷ sites) p h = elim (Bool-cases (is_stale age)) [
  | inl b ↦
      From-later name ip (s, (at, age)) sites p.targets
        (plan_sites-From name ip sites _ (rw b at h))
  | inr b ↦
      with_site name ip s at age sites p.targets b (plan_sites-From name ip sites _ (rw b at h))
]

hub_target :
    (o : Outside) (name ip : String) (r : Step String)
    → o.public_ip ≡ r
    → HasTarget name ip (plan_hub r).targets
    → IsFresh o name ip
hub_target o name ip (ok _) e (this_target _) = at_hub e refl
hub_target o name ip (ok _) e (later_target _ _ m) = elim m [ ]
hub_target o name ip (err _) e h = elim h [ ]

planned :
    (o : Outside) (name ip : String) (r : Step (Dict Endpoint))
    → site_endpoints o ≡ r
    → HasTarget name ip (plan_lookup r (plan_hub o.public_ip)).targets
    → IsFresh o name ip
planned o name ip (err e) found h = hub_target o name ip o.public_ip refl h
planned o name ip (ok sites) found h =
    elim (plan_sites-From name ip (sorted_sites sites) (plan_hub o.public_ip) h) [
      | already m ↦ hub_target o name ip o.public_ip refl m
      | fresh age m b ↦ at_site sites age found (sorted_sites-HasSite name ip (some age) sites m) b
    ]

-- A host that is scanned is the hub at its public address, or a site at the address of its WireGuard
-- peer, when the last handshake is at most 15 minutes old.
pub plan-IsFresh :
    (o : Outside) (name ip : String) → HasTarget name ip (plan o).targets → IsFresh o name ip
unfolding plan
plan-IsFresh o name ip h = planned o name ip (site_endpoints o) refl h
