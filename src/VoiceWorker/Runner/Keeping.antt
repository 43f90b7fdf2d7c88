-- ===== src/VoiceWorker/Runner/Keeping.antt =====
-- What every step of `process` keeps: the task's id and repository, and the status of other tasks.
use nyc_pa_aws_gitops.Prelude.{
  ℕ, suc, String, ◌≡◌, refl, sym, ap, ◌∙◌, false, Option, none, some, List, [], ◌∷◌, ◌++◌, arith,
  eq_iff, ◌==◌,
}
use nyc_pa_aws_gitops.Prelude.Dict.{Dict, get, set, has}
use nyc_pa_aws_gitops.Prelude.DictLaws.{get-set}
use nyc_pa_aws_gitops.Prelude.Json.{Json, num, str}
use nyc_pa_aws_gitops.Prelude.Python.{Python, text_of}
use nyc_pa_aws_gitops.Prelude.Results.{Result, ok, err}
use nyc_pa_aws_gitops.VoiceWorker.Runner.State.{
  Failure, Run, Push, PullRequest, tool, now, found, lookup, field, update, write_status,
}
use nyc_pa_aws_gitops.VoiceWorker.Runner.Triple.{Outcome, Triple}

pub get-update :
    (k : String) (fields t : Dict Json) → has k fields ≡ false → get k (update fields t) ≡ get k t
unfolding has update
get-update k [] t h = refl
get-update k ((j, v) ∷ fields) t h =
    ground (arith, eq_iff k j, get-set k j v t, get-update k fields (set j v t))

get-set_same : (k : String) (v : Dict Json) (d : Dict (Dict Json)) → get k (set k v d) ≡ some v
get-set_same k v d = ground (arith, eq_iff k k, get-set k k v d)

pub lookup-some : (k : String) (v : Json) (t : Dict Json) → get k t ≡ some v → lookup k t ≡ ok v
unfolding lookup
lookup-some k v t h = ap (found k) h

found-ok : (k : String) (o : Option Json) (v : Json) → found k o ≡ ok v → o ≡ some v
found-ok k none v h = cc
found-ok k (some x) v h = cc

pub lookup-ok : (k : String) (v : Json) (t : Dict Json) → lookup k t ≡ ok v → get k t ≡ some v
unfolding lookup
lookup-ok k v t h = found-ok k (get k t) v h

-- The task's id is `id`, its repository is that of `t`, the status of every other task is the one
-- of `s`, and `Sent` holds of what has reached GitHub.
pub record Holds (s : Dict (Dict Json)) (t : Dict Json) (id : String)
    (Sent : List Push → List PullRequest → Type 0) (r : Run) : Type 0 where
  pub named : get "id" r.task ≡ some (str id)
  pub repo_kept : get "repo" r.task ≡ get "repo" t
  pub others : (k : String) → (k == id) ≡ false → get k r.status ≡ get k s
  pub sent : Sent r.pushed r.opened

-- The status of the task `id` has this state.
abbrev pub HasState : String → Json → Run → Type 0
HasState id v r = (t : Dict Json) × (get id r.status ≡ some t) × (get "state" t ≡ some v)

module _ (py : Python) (seconds : ℕ → String) (id : String) (fields : Dict Json) where
  stamped : Run → Dict Json
  stamped r = fields ++ (("updated_at", num (seconds r.reads)) ∷ [])

  -- What `write_status` does to a task that has its id.
  written : Run → Run
  unfolding stamped
  written r =
      let t = update (stamped r) r.task in
      record r { task = t; reads = suc r.reads; status = set id t r.status }

  write_status-written :
      (r : Run)
      → get "id" (update (stamped r) r.task) ≡ some (str id)
      → write_status py seconds fields r ≡ (ok tt, written r)
  unfolding write_status written stamped text_of
  write_status-written r h = rw (lookup-some "id" (str id) _ h) refl

  module _ (s : Dict (Dict Json)) (t : Dict Json)
      (Sent : List Push → List PullRequest → Type 0) where
    -- No field of `fields` is the id or the repository.
    abbrev pub Spares : Type 0
    Spares =
        (x : Json)
        → (has "id" (fields ++ (("updated_at", x) ∷ [])) ≡ false)
          × (has "repo" (fields ++ (("updated_at", x) ∷ [])) ≡ false)

    written-Holds : (r : Run) → Spares → Holds s t id Sent r → Holds s t id Sent (written r)
    unfolding written stamped
    written-Holds r sp h = record {
      named = (get-update "id" (stamped r) r.task (sp _).0 ∙ h.named);
      repo_kept = (get-update "repo" (stamped r) r.task (sp _).1 ∙ h.repo_kept);
      others =
          (λ k e. ground (arith, get-set k id (update (stamped r) r.task) r.status, h.others k e));
      sent = h.sent;
    }

    module _ {E : Run → Type 0} (sp : Spares) where
      pub Triple-write_status :
          ((r : Run) → Holds s t id Sent r → E r)
          → Triple
              (Holds s t id Sent)
              (write_status py seconds fields)
              (λ u r. Holds s t id Sent r)
              E
      unfolding written stamped
      Triple-write_status w = record {
        holds = (λ r h.
            rw (write_status-written r (get-update "id" (stamped r) r.task (sp _).0 ∙ h.named))
              (written-Holds r sp h));
      }

      -- The last write, which sets the state.
      pub Triple-write_state :
          (v : Json)
          → ((x : Json) (u : Dict Json)
              → get "state" (update (fields ++ (("updated_at", x) ∷ [])) u) ≡ some v)
          → Triple
              (Holds s t id Sent)
              (write_status py seconds fields)
              (λ u r. Holds s t id Sent r × HasState id v r)
              E
      unfolding written stamped
      Triple-write_state v e = record {
        holds = (λ r h.
            rw (write_status-written r (get-update "id" (stamped r) r.task (sp _).0 ∙ h.named)) (
              written-Holds r sp h,
              (update (stamped r) r.task, get-set_same id _ r.status, e _ r.task),
            ));
      }

module _ (s : Dict (Dict Json)) (t : Dict Json) (id : String)
    (Sent : List Push → List PullRequest → Type 0) where
  module _ {E : Run → Type 0} (w : (r : Run) → Holds s t id Sent r → E r) where
    pub keep_tool :
        {A : Type 0} (m : Result Failure A)
        → Triple (Holds s t id Sent) (tool m) (λ a r. Holds s t id Sent r) E
    keep_tool (ok a) = record { holds = (λ r h. h) }
    keep_tool (err e) = record { holds = (λ r h. w r h) }

    pub keep_now : Triple (Holds s t id Sent) now (λ n r. Holds s t id Sent r) E
    keep_now = record {
      holds = (λ r h. record {
        named = h.named;
        repo_kept = h.repo_kept;
        others = h.others;
        sent = h.sent;
      });
    }

    kept_field :
        (m : Result Failure Json) (r : Run)
        → Holds s t id Sent r
        → Outcome (λ a r. Holds s t id Sent r) E m r
    kept_field (ok a) r h = h
    kept_field (err e) r h = w r h

    pub keep_field :
        (k : String) → Triple (Holds s t id Sent) (field k) (λ a r. Holds s t id Sent r) E
    keep_field k = record { holds = (λ r h. kept_field (lookup k r.task) r h) }

    repo_found :
        (m : Result Failure Json) (r : Run)
        → lookup "repo" r.task ≡ m
        → Holds s t id Sent r
        → Outcome (λ a r. Holds s t id Sent r × (get "repo" t ≡ some a)) E m r
    repo_found (ok a) r e h = (h, sym h.repo_kept ∙ lookup-ok "repo" a r.task e)
    repo_found (err f) r e h = w r h

    pub field_repo :
        Triple
          (Holds s t id Sent)
          (field "repo")
          (λ a r. Holds s t id Sent r × (get "repo" t ≡ some a))
          E
    field_repo = record { holds = (λ r h. repo_found (lookup "repo" r.task) r refl h) }
