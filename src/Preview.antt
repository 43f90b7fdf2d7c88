-- ===== src/Preview.antt =====
-- scripts/hub/preview-compose.py: a production Compose fragment becomes a per-PR preview.
-- `Fragment` reads the parts of a service, `Service` rewrites one service, and `preview` here is
-- the script from the check of its arguments to the document that it writes.
pub mod Fragment
pub mod Service
pub mod Loop
pub mod Again
pub mod Run
pub mod Output
pub mod Idempotent
pub mod Isolation
mod Tests
use nyc_pa_aws_gitops.Prelude.{
  String, ◌<>◌, Bool, true, false, not, ◌&&◌, ◌||◌, Option, none, some, List, [], ◌∷◌, ◌==◌, eqb,
  if◌then◌else◌, all_chars, is_nonempty, is_lower, is_digit,
}
use nyc_pa_aws_gitops.Prelude.Dict.{Dict, get, set, keys}
use nyc_pa_aws_gitops.Prelude.Json.{
  Json, bool, str, obj, Fields, end, field, strs, to_dict, of_dict, truthy,
}
use nyc_pa_aws_gitops.Prelude.Results.{Result, ok, err, ◌>>=◌, ◌>>◌, reject_if}
use Fragment.{Python, Failure, exit, crash, Scan, scan_labels}
use nyc_pa_aws_gitops.Preview.Fragment.Router.{router_labels}
use Service.{Options, Rewritten, project, rewrite_service}

-- `re.fullmatch(r"[a-z0-9-]+", a.app)`
unfoldable pub is_app_name : String → Bool
is_app_name s = is_nonempty s && all_chars (λ c. is_lower c || (is_digit c || eqb c b'-')) s

-- `re.fullmatch(r"[0-9]+", a.pr)`
unfoldable pub is_pr_number : String → Bool
is_pr_number s = is_nonempty s && all_chars is_digit s

abbrev pub Service : Type 0
Service = Dict Json

-- `dict(svc)`. A list of pairs, which `dict` would take too, is no Compose service.
unfoldable pub service_of : Json → Result Failure Service
service_of (obj fs) = ok (to_dict fs)
service_of v = err crash

-- The routed service with its port, the rewritten services, and what was dropped from each.
pub record Progress : Type 0 where
  pub routed : Option (String × String)
  pub services : Dict Service
  pub dropped : Dict (List String)

-- The checks behind the loop over the labels.
unfoldable pub route :
    String → Scan → Option (String × String) → Result Failure (Option (String × String))
route name s routed =
    if s.enabled
    then elim routed [
      | some _ ↦ err (exit "more than one Traefik-routed service; previews support one")
      | none ↦ elim s.port [
        | none ↦ err (exit ("service " <> (name <> " has no loadbalancer.server.port label")))
        | some port ↦ ok (some (name, port))
      ]
    ]
    else ok routed

module _ (py : Python) (o : Options) where
  -- The loop over the services; `names` are the keys of the whole fragment.
  unfoldable pub rewrite_all :
      List String → Option (String × String) → Dict Json → Result Failure Progress
  unfolding service_of
  rewrite_all names routed [] = ok (record { routed = routed; services = []; dropped = [] })
  rewrite_all names routed ((name, v) ∷ rest) = do
    svc ← service_of v
    scan ← scan_labels py (get "labels" svc)
    routed' ← route name scan routed
    r ← rewrite_service py o names svc
    p ← rewrite_all names routed' rest
    ok (record p {
      services = (name, r.service) ∷ p.services;
      dropped = elim r.extra [ [] ↦ p.dropped | k ∷ ks ↦ (name, k ∷ ks) ∷ p.dropped ];
    })

-- `host`
abbrev pub preview_host : Options → String
preview_host o = project o <> ".preview.billandjessie.com"

-- `out_services[name][key] = v`
unfoldable pub set_in : String → String → Json → Dict Service → Dict Service
set_in name key v [] = []
set_in name key v ((j, svc) ∷ d) =
    if name == j then (j, set key v svc) ∷ d else (j, svc) ∷ set_in name key v d

-- `out_services[name].get(key)`
unfoldable pub get_in : String → String → Dict Service → Option Json
get_in name key [] = none
get_in name key ((j, svc) ∷ d) = if name == j then get key svc else get_in name key d

unfoldable pub is_str : String → Option Json → Bool
is_str s (some (str t)) = t == s
is_str s _ = false

-- `out_services` as a JSON object.
unfoldable pub services_json : Dict Service → Dict Json
services_json [] = []
services_json ((name, svc) ∷ d) = (name, obj (of_dict svc)) ∷ services_json d

-- The document that `json.dump` writes.
unfoldable pub document : Dict Service → Json
unfolding services_json
document services = obj (
    field "services" (obj (of_dict (services_json services)))
      (field "networks" (obj (field "preview" (obj (field "external" (bool true) end)) end)) end))

-- What a run leaves: the document, the lines for `GITHUB_OUTPUT`, and the dropped keys.
pub record Preview : Type 0 where
  pub services : Dict Service
  pub service : String
  pub port : String
  pub host : String
  pub dropped : Dict (List String)

-- `src.get("services") or {}`, which must have something to iterate over
unfoldable pub services_of : Json → Result Failure (Dict Json)
unfolding truthy
services_of (obj fs) = elim (get "services" (to_dict fs)) [
  | none ↦ err (exit "fragment has no services")
  | some v ↦ elim (truthy v) [
    | false ↦ err (exit "fragment has no services")
    | true ↦ elim v [ obj entries ↦ ok (to_dict entries) | _ ↦ err crash ]
  ]
]
services_of v = err crash

-- `if not routed: sys.exit(...)`, the check of `--strict`, and the router's labels
unfoldable pub finish_at : Options → Progress → Option (String × String) → Result Failure Preview
unfolding set_in get_in is_str router_labels
finish_at o p none = err (exit "no service has traefik.enable=true; nothing to preview")
finish_at o p (some (name, port)) = do
  reject_if (o.strict && not (is_str o.image (get_in name "image" p.services)))
      (exit ("routed service " <> (name <> " doesn't run the PR's image")))
  ok (record {
    services =
        set_in name "labels" (strs (router_labels (project o) (preview_host o) port)) p.services;
    service = name;
    port = port;
    host = preview_host o;
    dropped = p.dropped;
  })

abbrev pub finish : Options → Progress → Result Failure Preview
finish o p = finish_at o p p.routed

-- The script: `src` is the parsed fragment.
unfoldable pub preview : Python → Options → Json → Result Failure Preview
preview py o src = do
  reject_if (not (is_app_name o.app) || not (is_pr_number o.pr)) (exit "bad --app or --pr")
  services ← services_of src
  p ← rewrite_all py o (keys services) none services
  finish o p
