-- ===== src/Preview/Loop.antt =====
-- The loop over the services: every service comes out clean, and a second loop over what came out
-- finds the same route and changes nothing.
use nyc_pa_aws_gitops.Prelude.{
  String, ◌≡◌, refl, sym, ap, ◌∙◌, ◌⊎◌, inl, inr, true, Option, none, some, List, [], ◌∷◌, eq_iff,
  arith, subst, Option-cases, Bool-cases,
}
use nyc_pa_aws_gitops.Prelude.Dict.{Dict, get, keys, has}
use nyc_pa_aws_gitops.Prelude.Json.{Json}
use nyc_pa_aws_gitops.Prelude.Results.{ok, >>=-eq-ok}
use nyc_pa_aws_gitops.Preview.Fragment.{Python, Scan, scan_labels}
use nyc_pa_aws_gitops.Preview.Fragment.Router.{IsPort}
use nyc_pa_aws_gitops.Preview.Fragment.Ports.{IsPortIfAny, scan_labels-IsPort}
use nyc_pa_aws_gitops.Preview.Service.{Options, rewrite_service}
use nyc_pa_aws_gitops.Preview.Service.Clean.{IsClean, rewrite_service-IsClean}
use nyc_pa_aws_gitops.Preview.{Service, Progress, service_of, route, rewrite_all}

module _ (py : Python) (o : Options) (names : List String) where
  -- Every service is clean.
  abbrev pub AllClean : Dict Service → Type 0
  AllClean [] = Unit
  AllClean ((name, svc) ∷ d) = IsClean py o names svc × AllClean d

  -- A route leads to one of the services, with a port of digits.
  abbrev pub IsRoute : Option (String × String) → Dict Service → Type 0
  IsRoute none d = Unit
  IsRoute (some (name, port)) d = (has name d ≡ true) × IsPort py port

  pub record Loop (routed : Option (String × String)) (entries : Dict Json) (p : Progress)
      : Type 0 where
    pub same_keys : keys p.services ≡ keys entries
    pub clean : AllClean p.services
    pub route_kept : (p.routed ≡ routed) ⊎ ((routed ≡ none) × IsRoute p.routed p.services)

  -- What `route` does to the route that it is given.
  abbrev Routes :
      String → Option String → Option (String × String) → Option (String × String) → Type 0
  Routes name port routed out =
      (out ≡ routed) ⊎ ((routed ≡ none) × ((q : String) × (port ≡ some q) × (out ≡ some (name, q))))

  route_cases :
      (name : String) (s : Scan) (routed out : Option (String × String))
      → route name s routed ≡ ok out
      → Routes name s.port routed out
  unfolding route
  route_cases name s (some r) out h = elim (Bool-cases s.enabled) [
    | inl e ↦ cc (rw (e, route) at h)
    | inr e ↦ inl (cc (rw (e, route) at h))
  ]
  route_cases name s none out h = elim (Bool-cases s.enabled) [
    | inl e ↦ elim (Option-cases s.port) [
      | inl missing ↦ cc (rw (e, missing, route) at h)
      | inr (q, at_port) ↦ inr (refl, (q, at_port, cc (rw (e, at_port, route) at h)))
    ]
    | inr e ↦ inl (cc (rw (e, route) at h))
  ]

  IsRoute-later :
      (x : String) (svc : Service) (r : Option (String × String)) (d : Dict Service)
      → IsRoute r d
      → IsRoute r ((x, svc) ∷ d)
  unfolding has
  IsRoute-later x svc none d h = tt
  IsRoute-later x svc (some (name, port)) d h = (ground (arith, h.0), h.1)

  module _ (name : String) (svc : Service) (s : Scan) (ports : IsPortIfAny py s.port) where
    IsRoute-step :
        (routed mid out : Option (String × String)) (d : Dict Service)
        → Routes name s.port routed mid
        → (out ≡ mid) ⊎ ((mid ≡ none) × IsRoute out d)
        → (out ≡ routed) ⊎ ((routed ≡ none) × IsRoute out ((name, svc) ∷ d))
    unfolding has
    IsRoute-step routed mid out d (inl e) (inl f) = inl (f ∙ e)
    IsRoute-step routed mid out d (inl e) (inr (n, r)) =
        inr (sym e ∙ n, IsRoute-later name svc out d r)
    IsRoute-step routed mid out d (inr (n, (q, at_port, e))) (inl f) = inr (
      n,
      subst (λ x. IsRoute x ((name, svc) ∷ d)) (sym (f ∙ e))
          (ground (arith, eq_iff name name), rw at_port at ports),
    )
    IsRoute-step routed mid out d (inr (n, (q, at_port, e))) (inr (m, r)) = cc

  Loop-step :
      {routed : Option (String × String)} {rest : Dict Json} (name : String) (v : Json)
      (svc : Service) (s : Scan) (mid : Option (String × String)) (out : Service) (q : Progress)
      → IsPortIfAny py s.port
      → Routes name s.port routed mid
      → IsClean py o names out
      → Loop mid rest q
      → (p : Progress) → q.routed ≡ p.routed
      → (name, out) ∷ q.services ≡ p.services
      → Loop routed ((name, v) ∷ rest) p
  unfolding keys
  Loop-step {routed} {rest} name v svc s mid out q ports routes clean ih p e f = record {
    same_keys = subst (λ x. keys x ≡ name ∷ keys rest) f (ap (λ ks. name ∷ ks) ih.same_keys);
    clean = subst AllClean f (clean, ih.clean);
    route_kept =
        subst (λ x. (x ≡ routed) ⊎ ((routed ≡ none) × IsRoute x p.services)) e
          (subst (λ x. (q.routed ≡ routed) ⊎ ((routed ≡ none) × IsRoute q.routed x)) f
            (IsRoute-step name out s ports routed mid q.routed q.services routes ih.route_kept));
  }

  -- Whatever the fragment, the services that come out are clean.
  pub rewrite_all-Loop :
      (routed : Option (String × String)) (entries : Dict Json) (p : Progress)
      → rewrite_all py o names routed entries ≡ ok p
      → Loop routed entries p
  unfolding rewrite_all keys
  rewrite_all-Loop routed [] p h =
      let e : record { routed = routed; services = []; dropped = [] } ≡ p = cc in
      subst (Loop routed []) e (record { same_keys = refl; clean = tt; route_kept = inl refl })
  rewrite_all-Loop routed ((name, v) ∷ rest) p h =
      let (svc, _, h1) = >>=-eq-ok (service_of v) _ h in
      let (s, scanned, h2) = >>=-eq-ok (scan_labels py (get "labels" svc)) _ h1 in
      let (mid, went, h3) = >>=-eq-ok (route name s routed) _ h2 in
      let (r, rewritten, h4) = >>=-eq-ok (rewrite_service py o names svc) _ h3 in
      let (q, looped, h5) = >>=-eq-ok (rewrite_all py o names mid rest) _ h4 in
      let ih = rewrite_all-Loop mid rest q looped in
      Loop-step name v svc s mid r.service q (scan_labels-IsPort py _ s scanned)
        (route_cases name s routed mid went) (rewrite_service-IsClean py o names svc r rewritten) ih
        p (cc) (cc)
