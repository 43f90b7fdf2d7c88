-- ===== src/Preview/Run.antt =====
-- A successful run of the script, taken apart.
use nyc_pa_aws_gitops.Prelude.{
  String, ◌<>◌, ◌≡◌, ◌⊎◌, refl, true, false, not, ◌&&◌, ◌||◌, Option, none, some, eqb, arith, subst,
  inl, inr, all_chars, all_chars-append, all_chars_mono, is_nonempty, is_nonempty-append, is_lower,
  is_digit,
}
use nyc_pa_aws_gitops.Prelude.Dict.{Dict, keys, has}
use nyc_pa_aws_gitops.Prelude.Json.{Json, strs}
use nyc_pa_aws_gitops.Prelude.Results.{ok, reject_if, >>=-eq-ok, reject_if-eq-ok}
use nyc_pa_aws_gitops.Preview.Fragment.{Python, exit}
use nyc_pa_aws_gitops.Preview.Fragment.Router.{router_labels, IsPort}
use nyc_pa_aws_gitops.Preview.Service.{Options, project}
use nyc_pa_aws_gitops.Preview.Loop.{AllClean, IsRoute, Loop, rewrite_all-Loop}
use nyc_pa_aws_gitops.Preview.{
  Service, Preview, Progress, is_app_name, is_pr_number, is_str, set_in, get_in, preview_host,
  services_of, rewrite_all, finish_at, preview,
}

-- The router's name has no dot, so that the script reads its own labels back.
pub project_no_dot :
    (o : Options)
    → is_app_name o.app ≡ true
    → is_pr_number o.pr ≡ true
    → (is_nonempty (project o) ≡ true) × (all_chars (λ c. not (eqb c b'.')) (project o) ≡ true)
unfolding is_app_name is_pr_number all_chars
project_no_dot o a n = (
  is_nonempty-append o.app _ (ground arith),
  rw (all_chars-append, all_chars-append)
      (ground (
        arith,
        all_chars_mono (λ c. is_lower c || (is_digit c || eqb c b'-')) (λ c. not (eqb c b'.')) o.app
            (λ c h. ground arith),
        all_chars_mono is_digit (λ c. not (eqb c b'.')) o.pr (λ c h. ground arith),
      )),
)

module _ (py : Python) (o : Options) where
  -- A run that succeeds, taken apart.
  pub record Run (src : Json) (p : Preview) : Type 0 where
    pub entries : Dict Json
    pub read : services_of src ≡ ok entries
    pub app : is_app_name o.app ≡ true
    pub pr : is_pr_number o.pr ≡ true
    pub rewritten : Dict Service
    pub same_keys : keys rewritten ≡ keys entries
    pub clean : AllClean py o (keys entries) rewritten
    pub there : has p.service rewritten ≡ true
    pub port : IsPort py p.port
    pub strict : (o.strict && not (is_str o.image (get_in p.service "image" rewritten))) ≡ false
    pub host : p.host ≡ preview_host o
    pub written :
        p.services
        ≡ set_in p.service "labels"
            (strs (router_labels (project o) (preview_host o) p.port))
            rewritten

  finish_at-Run :
      (src : Json) (p : Preview) (q : Progress) (entries : Dict Json)
      (routed : Option (String × String))
      → q.routed ≡ routed
      → finish_at o q routed ≡ ok p
      → services_of src ≡ ok entries
      → (not (is_app_name o.app) || not (is_pr_number o.pr)) ≡ false
      → Loop py o (keys entries) none entries q
      → Run src p
  unfolding finish_at
  finish_at-Run src p q entries none e h read args l = cc
  finish_at-Run src p q entries (some (name, port)) e h read args l =
      let b = o.strict && not (is_str o.image (get_in name "image" q.services)) in
      let message = exit ("routed service " <> (name <> " doesn't run the PR's image")) in
      let (_, checked, h1) = >>=-eq-ok (reject_if b message) _ h in
      let at_name : name ≡ p.service = cc in
      let at_port : port ≡ p.port = cc in
      let route : IsRoute py o (keys entries) (some (name, port)) q.services =
        route_of q.routed q.services e l.route_kept in
      record {
        entries = entries;
        read = read;
        app = ground arith;
        pr = ground arith;
        rewritten = q.services;
        same_keys = l.same_keys;
        clean = l.clean;
        there = rw (← at_name) route.0;
        port = rw (← at_port) route.1;
        strict = rw (← at_name) (reject_if-eq-ok b message checked);
        host = cc;
        written = rw (← at_name, ← at_port) (cc);
      }
    where
      route_of :
          (r : Option (String × String)) (d : Dict Service)
          → r ≡ some (name, port)
          → (r ≡ none)
            ⊎ (◌≡◌ {A = Option (String × String)} none none × IsRoute py o (keys entries) r d)
          → IsRoute py o (keys entries) (some (name, port)) d
      route_of r d e (inl n) = cc
      route_of r d e (inr (_, there)) = subst (λ x. IsRoute py o (keys entries) x d) e there

  pub preview-Run : (src : Json) (p : Preview) → preview py o src ≡ ok p → Run src p
  unfolding preview
  preview-Run src p h =
      let (_, args, h1) = >>=-eq-ok (reject_if _ _) _ h in
      let (entries, read, h2) = >>=-eq-ok (services_of src) _ h1 in
      let (q, looped, h3) = >>=-eq-ok (rewrite_all py o (keys entries) none entries) _ h2 in
      finish_at-Run src p q entries q.routed refl h3 read (reject_if-eq-ok _ _ args)
        (rewrite_all-Loop py o (keys entries) none entries q looped)
