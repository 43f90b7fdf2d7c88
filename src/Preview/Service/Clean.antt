-- ===== src/Preview/Service/Clean.antt =====
-- What every rewritten service looks like, and that rewriting it again changes nothing.
use nyc_pa_aws_gitops.Prelude.{
  String, ◌≡◌, refl, ◌∙◌, true, false, not, some, List, [], ◌∷◌, ◌==◌, eq_iff, arith, Bool-cases,
  inl, inr, keep, sorted, subst,
}
use nyc_pa_aws_gitops.Prelude.Dict.{Dict, get, set, keys, pop, keep_keys}
use nyc_pa_aws_gitops.Prelude.DictLaws.{
  KeysPass, KeysPass-set, KeysPass-mono, KeysPass-keep_keys, get-set, get-keep_keys, set_same,
  set-set, keep_keys_all,
}
use nyc_pa_aws_gitops.Prelude.Json.{Json, num, str, obj, strs, of_dict, to_dict-of_dict}
use nyc_pa_aws_gitops.Prelude.Results.{ok, >>=-eq-ok}
use nyc_pa_aws_gitops.Preview.Fragment.{Python, environment_of}
use nyc_pa_aws_gitops.Preview.Service.{
  Options, Rewritten, project, is_allowed, preview_environment, is_own_image, set_image,
  set_platform, drop_host_access, set_depends_on, rewrite_service,
}
use nyc_pa_aws_gitops.Preview.Service.Depends.{Outcome, set_depends_on-Outcome}

module _ (py : Python) (o : Options) (names : List String) where
  -- Only keys of the allowlist, and the settings that the platform owns.
  pub record IsClean (svc : Dict Json) : Type 0 where
    pub env : Dict Json
    pub allowed : KeysPass is_allowed svc
    pub image : is_own_image py o (get "image" svc) ≡ true → get "image" svc ≡ some (str o.image)
    pub environment : get "environment" svc ≡ some (obj (of_dict env))
    pub app_name : get "APP_NAME" env ≡ some (str (project o))
    pub is_preview : get "PREVIEW" env ≡ some (str "1")
    pub env_file : get "env_file" svc ≡ some (strs (".env" ∷ []))
    pub networks : get "networks" svc ≡ some (strs ("preview" ∷ []))
    pub mem_limit : get "mem_limit" svc ≡ some (str "384m")
    pub cpus : get "cpus" svc ≡ some (num "0.5")
    pub pids_limit : get "pids_limit" svc ≡ some (num "256")
    pub security_opt : get "security_opt" svc ≡ some (strs ("no-new-privileges:true" ∷ []))
    pub cap_drop : get "cap_drop" svc ≡ some (strs ("ALL" ∷ []))
    pub labels : get "labels" svc ≡ some (strs [])
    pub depends_on : set_depends_on names svc ≡ ok svc

  set_image_owned :
      (svc : Dict Json)
      → is_own_image py o (get "image" (set_image py o svc)) ≡ true
      → get "image" (set_image py o svc) ≡ some (str o.image)
  unfolding set_image
  set_image_owned svc = elim (Bool-cases (is_own_image py o (get "image" svc))) [
    | inl own ↦ rw own (λ h. rw get-set)
    | inr other ↦ rw other (λ h. cc)
  ]

  -- `get` in a service that went through the platform's settings and the allowlist
  full : Dict Json → Dict Json → Dict Json
  full env svc = keep_keys is_allowed (drop_host_access (set_platform env svc))

  record Settings (env svc out : Dict Json) : Type 0 where
    allowed : KeysPass is_allowed out
    image : get "image" out ≡ get "image" svc
    environment : get "environment" out ≡ some (obj (of_dict env))
    env_file : get "env_file" out ≡ some (strs (".env" ∷ []))
    networks : get "networks" out ≡ some (strs ("preview" ∷ []))
    mem_limit : get "mem_limit" out ≡ some (str "384m")
    cpus : get "cpus" out ≡ some (num "0.5")
    pids_limit : get "pids_limit" out ≡ some (num "256")
    security_opt : get "security_opt" out ≡ some (strs ("no-new-privileges:true" ∷ []))
    cap_drop : get "cap_drop" out ≡ some (strs ("ALL" ∷ []))
    labels : get "labels" out ≡ some (strs [])

  keys_none : (d : Dict Json) → KeysPass is_allowed d → keep (λ k. not (is_allowed k)) (keys d) ≡ []
  unfolding keys
  keys_none [] h = refl
  keys_none ((k, v) ∷ d) h = ground (arith, keys_none d h.1)

  ruleset lookups = (get-keep_keys, get-set)

  full-Settings : (env svc : Dict Json) → Settings env svc (full env svc)
  unfolding full set_platform drop_host_access is_allowed pop
  full-Settings env svc = record {
    allowed = KeysPass-keep_keys is_allowed (drop_host_access (set_platform env svc));
    image = simp lookups;
    environment = simp lookups;
    env_file = simp lookups;
    networks = simp lookups;
    mem_limit = simp lookups;
    cpus = simp lookups;
    pids_limit = simp lookups;
    security_opt = simp lookups;
    cap_drop = simp lookups;
    labels = simp lookups;
  }

  Settings-Outcome :
      (env svc mid out : Dict Json)
      → Settings env svc mid
      → Outcome names mid out
      → Settings env svc out
  unfolding is_allowed
  Settings-Outcome env svc mid out s c = record {
    allowed = c.pass is_allowed refl s.allowed;
    image = c.others "image" refl ∙ s.image;
    environment = c.others "environment" refl ∙ s.environment;
    env_file = c.others "env_file" refl ∙ s.env_file;
    networks = c.others "networks" refl ∙ s.networks;
    mem_limit = c.others "mem_limit" refl ∙ s.mem_limit;
    cpus = c.others "cpus" refl ∙ s.cpus;
    pids_limit = c.others "pids_limit" refl ∙ s.pids_limit;
    security_opt = c.others "security_opt" refl ∙ s.security_opt;
    cap_drop = c.others "cap_drop" refl ∙ s.cap_drop;
    labels = c.others "labels" refl ∙ s.labels;
  }

  -- A rewritten service is clean, whatever the fragment said.
  pub rewrite_service-IsClean :
      (svc : Dict Json) (r : Rewritten) → rewrite_service py o names svc ≡ ok r → IsClean r.service
  unfolding rewrite_service full
  rewrite_service-IsClean svc r h =
      let imaged = set_image py o (pop "ports" (pop "container_name" svc)) in
      let (env, _, after) = >>=-eq-ok (environment_of (get "environment" imaged)) _ h in
      let env' = preview_environment o env in
      let (out, written, same) = >>=-eq-ok (set_depends_on names (full env' imaged)) _ after in
      let c = set_depends_on-Outcome names (full env' imaged) out written in
      let s = Settings-Outcome env' imaged (full env' imaged) out (full-Settings env' imaged) c in
      let e : out ≡ r.service = cc in
      subst IsClean e (record {
        env = env';
        allowed = s.allowed;
        image = λ own. s.image ∙ set_image_owned _ (rw s.image at own);
        environment = s.environment;
        app_name = simp get-set;
        is_preview = simp get-set;
        env_file = s.env_file;
        networks = s.networks;
        mem_limit = s.mem_limit;
        cpus = s.cpus;
        pids_limit = s.pids_limit;
        security_opt = s.security_opt;
        cap_drop = s.cap_drop;
        labels = s.labels;
        depends_on = c.again;
      })

  module _ (svc : Dict Json) (c : IsClean svc) (shown : Json) where
    routed : Dict Json
    routed = set "labels" shown svc

    routed_get : (k : String) → (k == "labels") ≡ false → get k routed ≡ get k svc
    unfolding routed
    routed_get k e = rw (get-set, e)

    routed_allowed : KeysPass is_allowed routed
    unfolding routed is_allowed
    routed_allowed = KeysPass-set is_allowed "labels" shown svc refl c.allowed

    pop_disallowed : (k : String) → is_allowed k ≡ false → pop k routed ≡ routed
    unfolding pop
    pop_disallowed k e =
        keep_keys_all _ routed
          (KeysPass-mono is_allowed _ routed (λ j p. ground (arith, eq_iff k j)) routed_allowed)

    set_image_same : set_image py o routed ≡ routed
    unfolding set_image
    set_image_same =
        let e = routed_get "image" refl in
        elim (Bool-cases (is_own_image py o (get "image" routed))) [
          | inl own ↦ rw own (set_same "image" _ routed (e ∙ c.image (rw e at own)))
          | inr other ↦ rw other
        ]

    preview_environment_same : preview_environment o c.env ≡ c.env
    preview_environment_same =
        rw (set_same "APP_NAME" _ c.env c.app_name) (set_same "PREVIEW" _ c.env c.is_preview)

    same_at :
        (k : String) (v : Json)
        → (k == "labels") ≡ false
        → get k svc ≡ some v
        → set k v routed ≡ routed
    same_at k v e h = set_same k v routed (routed_get k e ∙ h)

    set_platform_same : set_platform c.env routed ≡ routed
    unfolding set_platform
    set_platform_same = rw (
      same_at "environment" _ refl c.environment,
      same_at "env_file" _ refl c.env_file,
      same_at "networks" _ refl c.networks,
      same_at "mem_limit" _ refl c.mem_limit,
      same_at "cpus" _ refl c.cpus,
      same_at "pids_limit" _ refl c.pids_limit,
      same_at "security_opt" _ refl c.security_opt,
      same_at "cap_drop" _ refl c.cap_drop,
    )

    drop_host_access_same : drop_host_access routed ≡ svc
    unfolding drop_host_access is_allowed
    drop_host_access_same =
        rw
          (
            pop_disallowed "privileged" refl,
            pop_disallowed "volumes" refl,
            pop_disallowed "devices" refl,
            pop_disallowed "cap_add" refl,
          )
          (unfold routed in rw set-set (set_same "labels" _ svc c.labels))

    rewrite_routed : rewrite_service py o names routed ≡ ok (record { service = svc; extra = [] })
    unfolding rewrite_service environment_of sorted is_allowed
    rewrite_routed =
        rw
          (
            pop_disallowed "container_name" refl,
            pop_disallowed "ports" refl,
            set_image_same,
            routed_get "environment" refl ∙ c.environment,
          )
          (rw (
            to_dict-of_dict,
            preview_environment_same,
            set_platform_same,
            drop_host_access_same,
            keys_none svc c.allowed,
            keep_keys_all is_allowed svc c.allowed,
            c.depends_on,
          ))

    -- A clean service comes out as it went in, and nothing is dropped, whatever labels it has.
    pub rewrite_service_same :
        rewrite_service py o names (set "labels" shown svc)
        ≡ ok (record { service = svc; extra = [] })
    unfolding routed
    rewrite_service_same = rewrite_routed
