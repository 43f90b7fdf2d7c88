-- ===== src/Preview/Service.antt =====
-- The rewrite of one service: what the body of the loop over the services does.
pub mod Depends
pub mod Clean
use nyc_pa_aws_gitops.Prelude.{
  String, ◌<>◌, Bool, true, false, not, ◌&&◌, ◌||◌, Option, none, some, List, [], ◌∷◌, ◌==◌,
  if◌then◌else◌, rsplit, remove_suffix, sorted, contains, keep,
}
use nyc_pa_aws_gitops.Prelude.Dict.{Dict, get, set, pop, keep_keys, keys, has}
use nyc_pa_aws_gitops.Prelude.Json.{
  Json, bool, num, str, arr, obj, Items, nil, cons, Fields, strs, to_dict, of_dict,
}
use nyc_pa_aws_gitops.Prelude.Results.{Result, ok, err, ◌>>=◌}
use nyc_pa_aws_gitops.Preview.Fragment.{Python, Failure, crash, text_of, environment_of}

-- The command line, without the paths of the files.
pub record Options : Type 0 where
  pub app : String
  pub pr : String
  pub image : String
  pub strict : Bool

-- `proj`
abbrev pub project : Options → String
project o = o.app <> ("-pr" <> o.pr)

-- `s.rsplit(":", 1)[0]`
unfoldable pub repository : String → String
unfolding rsplit
repository image = elim (rsplit b':' image) [ none ↦ image | some (before, tag) ↦ before ]

-- `own_repos`
unfoldable pub own_repos : Options → List String
unfolding repository remove_suffix
own_repos o = repository o.image ∷ remove_suffix "-preview" (repository o.image) ∷ []

-- `ALLOWED_KEYS`
pub allowed_keys : List String
allowed_keys =
    "image" ∷ "command" ∷ "entrypoint" ∷ "environment" ∷ "env_file" ∷ "healthcheck" ∷ "working_dir"
    ∷ "user" ∷ "restart" ∷ "depends_on" ∷ "labels" ∷ "networks" ∷ "stop_grace_period"
    ∷ "stop_signal" ∷ "init" ∷ "read_only" ∷ "tmpfs" ∷ "expose" ∷ "mem_limit" ∷ "cpus"
    ∷ "pids_limit" ∷ "security_opt" ∷ "cap_drop" ∷ []

-- `k in ALLOWED_KEYS`
unfoldable pub is_allowed : String → Bool
unfolding allowed_keys
is_allowed k = contains allowed_keys k

abbrev pub preview_environment : Options → Dict Json → Dict Json
preview_environment o env = set "PREVIEW" (str "1") (set "APP_NAME" (str (project o)) env)

module _ (py : Python) (o : Options) where
  -- `str(svc.get("image", "")).rsplit(":", 1)[0] in own_repos`
  unfoldable pub is_own_image : Option Json → Bool
  unfolding own_repos text_of
  is_own_image none = contains (own_repos o) (repository "")
  is_own_image (some v) = contains (own_repos o) (repository (text_of py v))

  unfoldable pub set_image : Dict Json → Dict Json
  unfolding is_own_image
  set_image svc = if is_own_image (get "image" svc) then set "image" (str o.image) svc else svc

-- The settings that the platform owns, from `environment` to `cap_drop`.
unfoldable pub set_platform : Dict Json → Dict Json → Dict Json
set_platform env svc = set "cap_drop" (strs ("ALL" ∷ [])) (
    set "security_opt" (strs ("no-new-privileges:true" ∷ [])) (
      set "pids_limit" (num "256") (
        set "cpus" (num "0.5") (
          set "mem_limit" (str "384m") (
            set "networks" (strs ("preview" ∷ []))
              (set "env_file" (strs (".env" ∷ [])) (set "environment" (obj (of_dict env)) svc)))))))

-- The four removals behind them, and the labels.
unfoldable pub drop_host_access : Dict Json → Dict Json
drop_host_access svc =
    set "labels" (strs []) (pop "cap_add" (pop "devices" (pop "volumes" (pop "privileged" svc))))

-- `[d for d in svc["depends_on"] if d in services]`; a list or a dict cannot be looked up.
unfoldable pub keep_known : List String → Items → Result Failure Items
keep_known names nil = ok nil
keep_known names (cons (str d) ds) = do
  rest ← keep_known names ds
  ok (if contains names d then cons (str d) rest else rest)
keep_known names (cons (arr _) ds) = err crash
keep_known names (cons (obj _) ds) = err crash
keep_known names (cons _ ds) = keep_known names ds

-- The two branches on the form of `depends_on`; any other value is left alone.
unfoldable pub write_depends_on : List String → Option Json → Dict Json → Result Failure (Dict Json)
unfolding keep_known
write_depends_on names (some (obj fs)) svc =
    ok (set "depends_on" (obj (of_dict (keep_keys (contains names) (to_dict fs)))) svc)
write_depends_on names (some (arr ds)) svc = do
  kept ← keep_known names ds
  ok (set "depends_on" (arr kept) svc)
write_depends_on names _ svc = ok svc

abbrev pub set_depends_on : List String → Dict Json → Result Failure (Dict Json)
set_depends_on names svc = write_depends_on names (get "depends_on" svc) svc

-- A rewritten service, and the keys that were dropped from it.
pub record Rewritten : Type 0 where
  pub service : Dict Json
  pub extra : List String

-- The body of the loop from `svc.pop("container_name", None)` on.
unfoldable pub rewrite_service :
    Python → Options → List String → Dict Json → Result Failure Rewritten
unfolding set_image set_platform drop_host_access
rewrite_service py o names svc = do
  let imaged = set_image py o (pop "ports" (pop "container_name" svc))
  env ← environment_of (get "environment" imaged)
  let full = drop_host_access (set_platform (preview_environment o env) imaged)
  let extra = sorted (keep (λ k. not (is_allowed k)) (keys full))
  service ← set_depends_on names (keep_keys is_allowed full)
  ok (record { service = service; extra = extra })
