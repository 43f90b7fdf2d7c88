-- ===== src/Preview/Isolation.antt =====
-- What a preview can reach: its services keep to the platform's settings, only one of them is
-- routed, and in strict mode that one runs the image of the pull request.
use nyc_pa_aws_gitops.Prelude.{
  String, ◌≡◌, ◌≢◌, ◌⊎◌, refl, ap, ◌∙◌, true, false, Option, none, some, List, [], ◌∷◌, ◌==◌,
  eq_iff, arith, Bool-cases, inl, inr,
}
use nyc_pa_aws_gitops.Prelude.Dict.{Dict, get, set, keys, has}
use nyc_pa_aws_gitops.Prelude.DictLaws.{get-set, KeysPass, KeysPass-set}
use nyc_pa_aws_gitops.Prelude.Json.{Json, str, num, obj, strs, of_dict}
use nyc_pa_aws_gitops.Prelude.Results.{ok}
use nyc_pa_aws_gitops.Preview.Fragment.{Python}
use nyc_pa_aws_gitops.Preview.Fragment.Router.{router_labels}
use nyc_pa_aws_gitops.Preview.Service.{Options, project, is_allowed}
use nyc_pa_aws_gitops.Preview.Service.Clean.{IsClean}
use nyc_pa_aws_gitops.Preview.Loop.{AllClean}
use nyc_pa_aws_gitops.Preview.Output.{keys-set_in, has-set_in, get_in-set_in, get_in-set_in_ne}
use nyc_pa_aws_gitops.Preview.Run.{preview-Run}
use nyc_pa_aws_gitops.Preview.{
  Service, Preview, is_str, set_in, get_in, preview_host, services_of, preview,
}

-- No key outside the allowlist, so no ports, volumes, devices or privileges; the internal network
-- alone, the preview's own environment file and database name, and the platform's limits.
pub record IsIsolated (o : Options) (svc : Service) : Type 0 where
  pub env : Dict Json
  pub allowed : KeysPass is_allowed svc
  pub environment : get "environment" svc ≡ some (obj (of_dict env))
  pub app_name : get "APP_NAME" env ≡ some (str (project o))
  pub env_file : get "env_file" svc ≡ some (strs (".env" ∷ []))
  pub networks : get "networks" svc ≡ some (strs ("preview" ∷ []))
  pub mem_limit : get "mem_limit" svc ≡ some (str "384m")
  pub cpus : get "cpus" svc ≡ some (num "0.5")
  pub pids_limit : get "pids_limit" svc ≡ some (num "256")
  pub security_opt : get "security_opt" svc ≡ some (strs ("no-new-privileges:true" ∷ []))
  pub cap_drop : get "cap_drop" svc ≡ some (strs ("ALL" ∷ []))

abbrev pub AllIsolated : Options → Dict Service → Type 0
AllIsolated o [] = Unit
AllIsolated o ((name, svc) ∷ d) = IsIsolated o svc × AllIsolated o d

ne_of_test : {a b : String} → (a == b) ≡ false → a ≢ b
ne_of_test {a} {b} h e = ground (arith, eq_iff a b)

module _ (py : Python) (o : Options) where
  IsClean-IsIsolated :
      (names : List String) (svc : Service) → IsClean py o names svc → IsIsolated o svc
  IsClean-IsIsolated names svc c = record {
    env = c.env;
    allowed = c.allowed;
    environment = c.environment;
    app_name = c.app_name;
    env_file = c.env_file;
    networks = c.networks;
    mem_limit = c.mem_limit;
    cpus = c.cpus;
    pids_limit = c.pids_limit;
    security_opt = c.security_opt;
    cap_drop = c.cap_drop;
  }

  IsIsolated-labels :
      (v : Json) (svc : Service) → IsIsolated o svc → IsIsolated o (set "labels" v svc)
  unfolding is_allowed
  IsIsolated-labels v svc c = record {
    env = c.env;
    allowed = KeysPass-set is_allowed "labels" v svc refl c.allowed;
    environment = rw get-set c.environment;
    app_name = c.app_name;
    env_file = rw get-set c.env_file;
    networks = rw get-set c.networks;
    mem_limit = rw get-set c.mem_limit;
    cpus = rw get-set c.cpus;
    pids_limit = rw get-set c.pids_limit;
    security_opt = rw get-set c.security_opt;
    cap_drop = rw get-set c.cap_drop;
  }

  AllClean-AllIsolated :
      (names : List String) (d : Dict Service) → AllClean py o names d → AllIsolated o d
  AllClean-AllIsolated names [] c = tt
  AllClean-AllIsolated names ((name, svc) ∷ d) (c, cs) =
      (IsClean-IsIsolated names svc c, AllClean-AllIsolated names d cs)

  AllIsolated-set_in :
      (name : String) (v : Json) (d : Dict Service)
      → AllIsolated o d
      → AllIsolated o (set_in name "labels" v d)
  unfolding set_in
  AllIsolated-set_in name v [] h = tt
  AllIsolated-set_in name v ((j, svc) ∷ d) (h, hs) = elim (Bool-cases (name == j)) [
    | inl same ↦ rw same (IsIsolated-labels v svc h, hs)
    | inr other ↦ rw other (h, AllIsolated-set_in name v d hs)
  ]

  -- Whatever the fragment says, every service of a preview that the script writes is isolated.
  pub preview-AllIsolated :
      (src : Json) (p : Preview) → preview py o src ≡ ok p → AllIsolated o p.services
  preview-AllIsolated src p h =
      let r = preview-Run py o src p h in
      rw r.written (
        AllIsolated-set_in p.service _ r.rewritten
          (AllClean-AllIsolated (keys r.entries) r.rewritten r.clean))

  labels_plain :
      (names : List String) (name : String) (d : Dict Service)
      → AllClean py o names d
      → has name d ≡ true
      → get_in name "labels" d ≡ some (strs [])
  unfolding get_in has
  labels_plain names name [] c h = cc
  labels_plain names name ((j, svc) ∷ d) (c, cs) h = elim (Bool-cases (name == j)) [
    | inl same ↦ rw same c.labels
    | inr other ↦ rw other (labels_plain names name d cs (rw other at h))
  ]

  others_plain :
      (service : String) (names : List String) (other : String) (shown : Json) (d : Dict Service)
      → service ≢ other
      → AllClean py o names d
      → (has other (set_in service "labels" shown d) ≡ false)
        ⊎ (get_in other "labels" (set_in service "labels" shown d) ≡ some (strs []))
  others_plain service names other shown d ne c = elim (Bool-cases (has other d)) [
    | inl there ↦ inr (
        get_in-set_in_ne service other "labels" "labels" shown d ne
        ∙ labels_plain names other d c there)
    | inr gone ↦ inl (rw has-set_in gone)
  ]

  is_str-eq : (t : String) (v : Option Json) → is_str t v ≡ true → v ≡ some (str t)
  unfolding is_str
  is_str-eq t none h = cc
  is_str-eq t (some (str u)) h = ap (λ x. some (str x)) ((eq_iff u t).0 h)
  is_str-eq t (some _) h = cc

  -- The preview has the services of the fragment, in order. One of them has the router's labels, for
  -- the preview's own host name and behind the forward authentication; any other name is not that of a
  -- service of the preview, or the labels of its service are an empty list.
  pub preview_routes_one :
      (src : Json) (p : Preview) (entries : Dict Json) (other : String)
      → preview py o src ≡ ok p
      → services_of src ≡ ok entries
      → (keys p.services ≡ keys entries)
        × (get_in p.service "labels" p.services
            ≡ some (strs (router_labels (project o) (preview_host o) p.port)))
        × ((p.service ≡ other)
            ⊎ ((has other p.services ≡ false)
                ⊎ (get_in other "labels" p.services ≡ some (strs []))))
  preview_routes_one src p entries other h read =
      let r = preview-Run py o src p h in
      let shown = strs (router_labels (project o) (preview_host o) p.port) in
      let same : r.entries ≡ entries = cc (r.read, read) in
      rw r.written (
        keys-set_in p.service "labels" shown r.rewritten ∙ r.same_keys ∙ ap keys same,
        rw (get_in-set_in p.service "labels" "labels" shown r.rewritten r.there),
        elim (Bool-cases (p.service == other)) [
          | inl e ↦ inl ((eq_iff p.service other).0 e)
          | inr e ↦ inr (
              others_plain p.service (keys r.entries) other shown r.rewritten (ne_of_test e)
                r.clean)
        ],
      )

  -- In strict mode, the hub's, the routed service runs exactly the image that was asked for.
  pub preview_strict :
      (src : Json) (p : Preview)
      → preview py o src ≡ ok p
      → o.strict ≡ true
      → get_in p.service "image" p.services ≡ some (str o.image)
  preview_strict src p h s =
      let r = preview-Run py o src p h in
      let image = get_in p.service "image" r.rewritten in
      let checked : is_str o.image image ≡ true = ground (arith, r.strict) in
      rw r.written (
        rw (get_in-set_in p.service "labels" "image" _ r.rewritten r.there)
          (is_str-eq o.image image checked))
