-- ===== src/HomeMcp/Platform/Sites.antt =====
-- What it takes for a site to be taken as online.
use nyc_pa_aws_gitops.Prelude.{
  String, ◌≡◌, ◌⊎◌, inl, inr, refl, sym, subst, ◌∙◌, Bool, true, false, not, ◌&&◌, ◌||◌, Option,
  none, some, List, [], ◌∷◌, ◌==◌, All, arith, eq_iff, Bool-cases,
}
use nyc_pa_aws_gitops.Prelude.Dict.{Dict, get, set}
use nyc_pa_aws_gitops.Prelude.DictLaws.{get-set}
use nyc_pa_aws_gitops.HomeMcp.Platform.{
  Sample, Probes, is_up, site_of, ok_or, internet_sites, router_sites, site_states, is_offline,
}

-- A sample passes the test.
abbrev pub has_sample : (Sample → Bool) → List Sample → Bool
has_sample test [] = false
has_sample test (r ∷ rs) = test r || has_sample test rs

-- Of the samples that pass the test, the last one is up.
abbrev pub IsLastUp : (Sample → Bool) → List Sample → Type 0
IsLastUp test [] = Unit
IsLastUp test (r ∷ rs) =
    ((has_sample test rs ≡ true) ⊎ ((test r ≡ false) ⊎ (is_up r ≡ true))) × IsLastUp test rs

-- A site with the routers `mine`: there is a sample of its internet or of one of its routers, the last
-- sample of its internet is up, if there is one, and so is each of its routers.
pub record IsOnline (p : Probes) (site : String) (mine : String → Bool) : Type 0 where
  pub known :
      (has_sample (λ r. r.label == site) p.internet ≡ true)
      ⊎ (has_sample (λ r. mine r.label) p.routers ≡ true)
  pub internet_up : IsLastUp (λ r. r.label == site) p.internet
  pub routers_up : All (λ r. (mine r.label ≡ false) ⊎ (is_up r ≡ true)) p.routers

-- What the samples of routers leave of a state that says online.
abbrev Left : Option Bool → Bool → Type 0
Left o seen = (o ≡ some true) ⊎ ((o ≡ none) × (seen ≡ true))

some_inj : {a b : Bool} → some a ≡ some b → a ≡ b
some_inj h = cc

none_some : {A : Type 0} {b : Bool} → none ≡ some b → A
none_some h = cc

both_true : (a b : Bool) → a && b ≡ true → (a ≡ true) × (b ≡ true)
both_true true true h = (refl, refl)
both_true true false h = cc
both_true false b h = cc

ok_or-true : (o : Option Bool) → ok_or true o ≡ true → (o ≡ some true) ⊎ (o ≡ none)
ok_or-true none h = inr refl
ok_or-true (some true) h = inl refl
ok_or-true (some false) h = cc

start_Left : (o : Option Bool) (seen : Bool) → ok_or true o ≡ true → Left o (true || seen)
start_Left none seen h = inr (refl, refl)
start_Left (some true) seen h = inl refl
start_Left (some false) seen h = cc

of_Left : {b seen : Bool} → Left (some b) seen → b ≡ true
of_Left (inl h) = some_inj h
of_Left (inr h) = none_some (sym h.0)

skip_Left : (o : Option Bool) (a seen : Bool) → Left o seen → Left o (a || seen)
skip_Left o a seen (inl h) = inl h
skip_Left o a seen (inr (h, k)) = inr (h, ground arith)

module _ (site : String) (mine : String → Bool)
    (same : (d : String) → (site == site_of d) ≡ mine d) where
  routers-Left :
      (rs : List Sample) (d : Dict Bool)
      → get site (router_sites rs d) ≡ some true
      → All (λ r. (mine r.label ≡ false) ⊎ (is_up r ≡ true)) rs
        × Left (get site d) (has_sample (λ r. mine r.label) rs)
  unfolding router_sites
  routers-Left [] d h = (tt, inl h)
  routers-Left (r ∷ rs) d h =
      let k = site_of r.label in
      let v = ok_or true (get k d) && is_up r in
      let (ups, left) = routers-Left rs (set k v d) h in
      elim (Bool-cases (site == k)) [
        | inl e ↦
            let named : k ≡ site = sym ((eq_iff site k).0 e) in
            let (before, up) =
              both_true (ok_or true (get k d)) (is_up r) (of_Left (rw (get-set, e) at left)) in
            (
              (inr up, ups),
              rw (sym (same r.label) ∙ e) (
                  start_Left (get site d) (has_sample (λ r. mine r.label) rs)
                    (subst (λ z. ok_or true (get z d) ≡ true) named before)),
            )
        | inr e ↦ (
          (inl (sym (same r.label) ∙ e), ups),
          skip_Left (get site d) (mine r.label) _ (rw (get-set, e) at left),
        )
      ]

module _ (site : String) where
  abbrev own : Sample → Bool
  own = λ r. r.label == site

  get-internet_sites :
      (rs : List Sample) (d : Dict Bool)
      → has_sample own rs ≡ false
      → get site (internet_sites rs d) ≡ get site d
  unfolding internet_sites
  get-internet_sites [] d h = refl
  get-internet_sites (r ∷ rs) d h = ground (
    arith,
    get-internet_sites rs (set r.label (is_up r) d),
    get-set site r.label (is_up r) d,
    eq_iff site r.label,
    eq_iff r.label site,
  )

  up_of : (b : Bool) (o : Option Bool) → o ≡ some b → (o ≡ some true) ⊎ (o ≡ none) → b ≡ true
  up_of b o e (inl h) = some_inj (sym e ∙ h)
  up_of b o e (inr h) = none_some (sym h ∙ e)

  internet-IsLastUp :
      (rs : List Sample) (d : Dict Bool)
      → (get site (internet_sites rs d) ≡ some true) ⊎ (get site (internet_sites rs d) ≡ none)
      → IsLastUp own rs
  unfolding internet_sites
  internet-IsLastUp [] d h = tt
  internet-IsLastUp (r ∷ rs) d h =
      let last = get site (internet_sites rs (set r.label (is_up r) d)) in
      (
        elim (Bool-cases (has_sample own rs)) [
          | inl e ↦ inl e
          | inr e ↦ elim (Bool-cases (r.label == site)) [
            | inr other ↦ inr (inl other)
            | inl named ↦
                let kept : last ≡ some (is_up r) =
                  get-internet_sites rs (set r.label (is_up r) d) e
                  ∙ ground (
                    arith,
                    get-set site r.label (is_up r) d,
                    eq_iff site r.label,
                    eq_iff r.label site,
                  ) in
                inr (inr (up_of (is_up r) last kept h))
          ]
        ],
        internet-IsLastUp rs (set r.label (is_up r) d) h,
      )

  internet_known :
      (rs : List Sample) → get site (internet_sites rs []) ≡ some true → has_sample own rs ≡ true
  unfolding get
  internet_known rs h = elim (Bool-cases (has_sample own rs)) [
    | inl e ↦ e
    | inr e ↦ none_some (sym (get-internet_sites rs [] e) ∙ h)
  ]

online : (o : Option Bool) → not (ok_or false o) ≡ false → o ≡ some true
online none h = cc
online (some true) h = refl
online (some false) h = cc

-- A site that is not offline for the code.
pub is_offline-IsOnline :
    (p : Probes) (site : String) (mine : String → Bool)
    → ((d : String) → (site == site_of d) ≡ mine d)
    → is_offline p site ≡ false
    → IsOnline p site mine
unfolding site_states
is_offline-IsOnline p site mine same h =
    let before = internet_sites p.internet [] in
    let (ups, left) =
      routers-Left site mine same p.routers before
        (online (get site (router_sites p.routers before)) h) in
    record {
      known = elim left [ inl e ↦ inl (internet_known site p.internet e) | inr e ↦ inr e.1 ];
      internet_up =
          internet-IsLastUp site p.internet [] (elim left [ inl e ↦ inl e | inr e ↦ inr e.0 ]);
      routers_up = ups;
    }
