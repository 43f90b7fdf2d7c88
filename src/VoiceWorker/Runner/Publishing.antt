-- ===== src/VoiceWorker/Runner/Publishing.antt =====
-- What `publish` may do to GitHub: a push only where no line that git prints names a protected path, and
-- a pull request only for what was pushed.
use nyc_pa_aws_gitops.Prelude.{
  ℕ, String, ◌<>◌, ◌≡◌, refl, sym, ap, ◌∙◌, some, List, [], ◌∷◌, keep, is_nonempty, take_chars,
}
use nyc_pa_aws_gitops.Prelude.Dict.{Dict, get, has}
use nyc_pa_aws_gitops.Prelude.DictLaws.{get-set}
use nyc_pa_aws_gitops.Prelude.Json.{Json, str}
use nyc_pa_aws_gitops.Prelude.Python.{text_of}
use nyc_pa_aws_gitops.Prelude.Results.{Result, ok, err}
use nyc_pa_aws_gitops.VoiceWorker.Runner.{
  Tools, text_field, is_forbidden, sent, created, guard, open_pr, announce, send, publish,
}
use nyc_pa_aws_gitops.VoiceWorker.Runner.State.{
  Failure, Run, Push, PullRequest, tool, lookup, update,
}
use nyc_pa_aws_gitops.VoiceWorker.Runner.Triple.{Triple, Triple->>=, Triple-tool, with_fact}
use nyc_pa_aws_gitops.VoiceWorker.Runner.Keeping.{
  Holds, HasState, keep_tool, keep_now, keep_field, field_repo, lookup-some, Triple-write_status,
  Triple-write_state,
}

-- A push that the code may make for the task `t`: to the branch of the task's id in the task's
-- repository, with the lines that git prints for the patched tree, none of them a protected path's.
pub record IsFit (w : Tools) (t : Dict Json) (id : String) (p : Push) : Type 0 where
  pub branch_named : p.branch ≡ "voice/" <> id
  pub repo_same : get "repo" t ≡ some p.repo
  pub printed : List String
  pub changed : w.changed ≡ ok printed
  pub lines_all : p.lines ≡ keep is_nonempty printed
  pub none_forbidden : keep is_forbidden p.lines ≡ []

-- What has reached GitHub, after `ps` and `qs`: nothing more, one fit push, or one fit push and a
-- pull request for its branch.
abbrev pub NotYet : List Push → List PullRequest → List Push → List PullRequest → Type 0
NotYet ps qs ps' qs' = (ps' ≡ ps) × (qs' ≡ qs)

abbrev pub Pushed :
    Tools
    → Dict Json
    → String
    → List Push
    → List PullRequest
    → List Push
    → List PullRequest
    → Type 0
Pushed w t id ps qs ps' qs' = (p : Push) × IsFit w t id p × (ps' ≡ p ∷ ps) × (qs' ≡ qs)

abbrev pub Opened :
    Tools
    → Dict Json
    → String
    → List Push
    → List PullRequest
    → List Push
    → List PullRequest
    → Type 0
Opened w t id ps qs ps' qs' =
    (p : Push) × (q : PullRequest) × IsFit w t id p
    × (ps' ≡ p ∷ ps)
    × (qs' ≡ q ∷ qs)
    × (q.head ≡ p.branch)
    × (q.repo ≡ p.repo)

module _ (w : Tools) (s : Dict (Dict Json)) (t : Dict Json) (id : String) (ps : List Push)
    (qs : List PullRequest) where
  abbrev pub Before : Run → Type 0
  Before = Holds s t id (NotYet ps qs)

  abbrev pub After : Run → Type 0
  After = Holds s t id (Pushed w t id ps qs)

  abbrev pub Done : Run → Type 0
  Done = Holds s t id (Opened w t id ps qs)

  -- Where an exception may be raised.
  pub data Failed (r : Run) : Type 0 where
    early : Before r → Failed r
    pushed : After r → Failed r
    late : Done r → Failed r

  module _ (Sent : List Push → List PullRequest → Type 0) {E : Run → Type 0}
      (e : (r : Run) → Holds s t id Sent r → E r) where
    pub keep_text :
        (k : String) → Triple (Holds s t id Sent) (text_field w k) (λ a r. Holds s t id Sent r) E
    keep_text k = Triple->>= (keep_field s t id Sent e k) (λ v. record { holds = (λ r h. h) })

    text_id :
        Triple (Holds s t id Sent) (text_field w "id") (λ a r. Holds s t id Sent r × (a ≡ id)) E
    unfolding text_of
    text_id = record { holds = (λ r h. rw (lookup-some "id" (str id) r.task h.named) (h, refl)) }

    keep_guard :
        (bad : List String)
        → Triple (Holds s t id Sent) (guard w bad) (λ u r. Holds s t id Sent r × (bad ≡ [])) E
    keep_guard [] = record { holds = (λ r h. (h, refl)) }
    keep_guard (p ∷ bad) = record { holds = (λ r h. e r h) }

    keep_tool_fact :
        {A : Type 0} (m : Result Failure A)
        → Triple (Holds s t id Sent) (tool m) (λ a r. Holds s t id Sent r × (m ≡ ok a)) E
    keep_tool_fact m = Triple-tool m e

  with_push :
      (p : Push)
      → IsFit w t id p
      → (r : Run) → Holds s t id (λ ps' qs'. (ps' ≡ p ∷ ps) × (qs' ≡ qs)) r
      → Failed r
  with_push p fit r h = pushed record {
    named = h.named;
    repo_kept = h.repo_kept;
    others = h.others;
    sent = (p, fit, h.sent.0, h.sent.1);
  }

  -- The state right after the push `p`.
  abbrev Sending : Push → Run → Type 0
  Sending p = Holds s t id (λ ps' qs'. (ps' ≡ p ∷ ps) × (qs' ≡ qs))

  some_inj : {A : Type 0} {a b : A} → some a ≡ some b → a ≡ b
  some_inj h = cc

  created-Triple :
      (p : Push) (q : PullRequest)
      → IsFit w t id p
      → q.head ≡ p.branch
      → q.repo ≡ p.repo
      → (m : Result Failure (Dict Json)) → Triple (Sending p) (created w m q) (λ a r. Done r) Failed
  created-Triple p q fit e f (err x) = record { holds = with_push p fit }
  created-Triple p q fit e f (ok pr) = record {
    holds = (λ r h. record {
      named = h.named;
      repo_kept = h.repo_kept;
      others = h.others;
      sent = (p, q, fit, h.sent.0, ap (λ qs. q ∷ qs) h.sent.1, e, f);
    });
  }

  same_repo : (p : Push) (v : Json) → IsFit w t id p → get "repo" t ≡ some v → v ≡ p.repo
  same_repo p v fit e = some_inj (sym e ∙ fit.repo_same)

  open_pr-Triple :
      (cfg : Dict Json) (summary : String) (p : Push)
      → IsFit w t id p
      → Triple (Sending p) (open_pr w cfg p.branch summary) (λ a r. Done r) Failed
  unfolding open_pr
  open_pr-Triple cfg summary p fit =
      let S = λ (ps' : List Push) (qs' : List PullRequest). (ps' ≡ p ∷ ps) × (qs' ≡ qs) in
      let e = with_push p fit in
      Triple->>= (keep_field s t id S e "instructions") (λ v.
        Triple->>= (keep_tool s t id S e (w.first_line v)) (λ line.
          Triple->>= (keep_text S e "id") (λ i.
            Triple->>= (keep_tool s t id S e (lookup "owner" cfg)) (λ owner.
              Triple->>= (field_repo s t id S e) (λ repo. with_fact (λ g.
                created-Triple p (record { repo = repo; head = p.branch; summary = summary }) fit
                  refl (same_repo p repo fit g) _))))))

  announce-Triple :
      (cfg : Dict Json) (summary : String) (started : ℕ) (p : Push)
      → IsFit w t id p
      → Triple
          (Sending p)
          (announce w cfg p.branch summary started)
          (λ u r. Done r × HasState id (str "done") r)
          Failed
  unfolding announce update has
  announce-Triple cfg summary started p fit =
      let S = Opened w t id ps qs in
      Triple->>= (open_pr-Triple cfg summary p fit) (λ pr.
        Triple->>= (keep_tool s t id S (λ r h. late h) (lookup "html_url" pr)) (λ url.
          Triple->>= (keep_tool s t id S (λ r h. late h) (lookup "number" pr)) (λ number.
            Triple->>= (keep_now s t id S (λ r h. late h)) (λ n.
              Triple-write_state w.python w.seconds id _ s t S (λ x. (refl, refl)) (str "done")
                (λ x u. simp get-set)))))

  sent-Triple :
      (p : Push)
      → IsFit w t id p
      → (m : Result Failure (Unit {0})) → Triple Before (sent w m p) (λ u r. Sending p r) Failed
  sent-Triple p fit (err e) = record { holds = (λ r h. early h) }
  sent-Triple p fit (ok u) = record {
    holds = (λ r h. record {
      named = h.named;
      repo_kept = h.repo_kept;
      others = h.others;
      sent = (ap (λ ps. p ∷ ps) h.sent.0, h.sent.1);
    });
  }

  send-Triple :
      (cfg : Dict Json) (summary branch i : String) (started : ℕ) (paths lines : List String)
      → branch ≡ "voice/" <> id
      → w.changed ≡ ok lines
      → paths ≡ keep is_nonempty lines
      → keep is_forbidden paths ≡ []
      → Triple Before
          (send w cfg summary branch i paths started)
          (λ u r. Done r × HasState id (str "done") r)
          Failed
  unfolding send has
  send-Triple cfg summary branch i started paths lines eb el ep eg =
      let S = NotYet ps qs in
      Triple->>= (keep_tool s t id S (λ r h. early h) (w.secret "github-token")) (λ token.
        Triple->>= (keep_tool s t id S (λ r h. early h) (lookup "owner" cfg)) (λ owner.
          Triple->>= (keep_field s t id S (λ r h. early h) "instructions") (λ v.
            Triple->>= (keep_tool s t id S (λ r h. early h) (w.first_line v)) (λ line.
              Triple->>=
                (keep_tool s t id S (λ r h. early h) (w.commit (take_chars 60 line) i summary))
                (λ x.
                  Triple->>=
                    (Triple-write_status w.python w.seconds id _ s t S (λ x. (refl, refl))
                      (λ r h. early h))
                    (λ y. Triple->>= (field_repo s t id S (λ r h. early h)) (λ repo.
                      with_fact (λ er.
                        let p : Push = record { repo = repo; branch = branch; lines = paths } in
                        let fit : IsFit w t id p = record {
                          branch_named = eb;
                          repo_same = er;
                          printed = lines;
                          changed = el;
                          lines_all = ep;
                          none_forbidden = eg;
                        } in
                        Triple->>= (sent-Triple p fit (w.push branch))
                          (λ z. announce-Triple cfg summary started p fit)))))))))

  pub publish-Triple :
      (cfg : Dict Json) (summary patch : String) (started : ℕ)
      → Triple Before
          (publish w cfg summary patch started)
          (λ u r. Done r × HasState id (str "done") r)
          Failed
  unfolding publish has
  publish-Triple cfg summary patch started =
      let S = NotYet ps qs in
      Triple->>= (keep_tool s t id S (λ r h. early h) (w.save_patch patch)) (λ x1.
        Triple->>= (text_id S (λ r h. early h)) (λ i. with_fact (λ ei.
          Triple->>= (keep_tool s t id S (λ r h. early h) (w.checkout ("voice/" <> i))) (λ x2.
            Triple->>= (keep_tool s t id S (λ r h. early h) (w.apply patch)) (λ x3.
              Triple->>= (keep_tool_fact S (λ r h. early h) w.changed) (λ lines. with_fact (λ el.
                Triple->>=
                  (keep_guard S (λ r h. early h) (keep is_forbidden (keep is_nonempty lines)))
                  (λ x4. with_fact (λ eg.
                    send-Triple cfg summary ("voice/" <> i) i started (keep is_nonempty lines) lines
                      (ap (λ i. "voice/" <> i) ei) el refl eg)))))))))
