-- ===== src/VoiceWorker/Runner/Processing.antt =====
-- What `process` does to one task: what it may send to GitHub, and the status it leaves.
use nyc_pa_aws_gitops.Prelude.{ℕ, String, refl, inl, inr, List, Bool-cases}
use nyc_pa_aws_gitops.Prelude.Dict.{Dict, has}
use nyc_pa_aws_gitops.Prelude.DictLaws.{get-set}
use nyc_pa_aws_gitops.Prelude.Json.{Json, str}
use nyc_pa_aws_gitops.VoiceWorker.Runner.{Tools, settle, process, run_agent, agent_result, is_blank}
use nyc_pa_aws_gitops.VoiceWorker.Runner.State.{Run, Push, PullRequest, lookup, update}
use nyc_pa_aws_gitops.VoiceWorker.Runner.Triple.{Triple, Triple->>=, Triple-post}
use nyc_pa_aws_gitops.VoiceWorker.Runner.Keeping.{
  HasState, keep_tool, keep_now, keep_field, Triple-write_status, Triple-write_state,
}
use nyc_pa_aws_gitops.VoiceWorker.Runner.Publishing.{
  NotYet, Before, Done, Failed, early, keep_text, publish-Triple,
}

module _ (w : Tools) (s : Dict (Dict Json)) (t : Dict Json) (id : String) (ps : List Push)
    (qs : List PullRequest) where
  -- How `process` returns: the task is done, with nothing sent or with a push and its pull request.
  pub data Ended (r : Run) : Type 0 where
    unchanged : Before w s t id ps qs r → HasState id (str "done") r → Ended r
    published : Done w s t id ps qs r → HasState id (str "done") r → Ended r

  keep : (r : Run) → Before w s t id ps qs r → Failed w s t id ps qs r
  keep r h = early h

  run_agent-Triple :
      (cfg : Dict Json)
      → Triple
          (Before w s t id ps qs)
          (run_agent w cfg)
          (λ a r. Before w s t id ps qs r)
          (Failed w s t id ps qs)
  unfolding run_agent
  run_agent-Triple cfg =
      let S = NotYet ps qs in
      Triple->>= (keep_tool s t id S keep (w.secret "claude-oauth-token")) (λ token.
        Triple->>= (keep_text w s t id ps qs S keep "repo") (λ repo.
          Triple->>= (keep_text w s t id ps qs S keep "instructions") (λ instructions.
            Triple->>= (keep_field s t id S keep "id") (λ i.
              Triple->>= (keep_tool s t id S keep (lookup "max_minutes" cfg)) (λ minutes.
                keep_tool s t id S keep (agent_result w cfg (w.agent repo instructions)))))))

  settle-Triple :
      (cfg : Dict Json) (summary patch : String) (started : ℕ)
      → Triple
          (Before w s t id ps qs)
          (settle w cfg summary patch started)
          (λ u r. Ended r)
          (Failed w s t id ps qs)
  unfolding settle has update
  settle-Triple cfg summary patch started = elim (Bool-cases (is_blank patch)) [
    | inl e ↦ rw e (
        Triple-post
          (Triple->>= (keep_now s t id (NotYet ps qs) keep) (λ n.
            Triple-write_state w.python w.seconds id _ s t (NotYet ps qs) (λ x. (refl, refl))
              (str "done") (λ x u. simp get-set)))
          (λ u r h. unchanged h.0 h.1))
    | inr e ↦ rw e (
        Triple-post (publish-Triple w s t id ps qs cfg summary patch started)
          (λ u r h. published h.0 h.1))
  ]

  pub process-Triple :
      Triple (Before w s t id ps qs) (process w) (λ u r. Ended r) (Failed w s t id ps qs)
  unfolding process has
  process-Triple =
      let S = NotYet ps qs in
      Triple->>= (keep_tool s t id S keep w.config) (λ cfg.
        Triple->>= (keep_field s t id S keep "id") (λ i.
          Triple->>= (keep_tool s t id S keep (w.make_dir i)) (λ x1.
            Triple->>= (keep_tool s t id S keep (lookup "owner" cfg)) (λ owner.
              Triple->>= (keep_text w s t id ps qs S keep "repo") (λ repo.
                Triple->>= (keep_now s t id S keep) (λ started.
                  Triple->>=
                    (Triple-write_status w.python w.seconds id _ s t S (λ x. (refl, refl)) keep)
                    (λ x2. Triple->>= (keep_tool s t id S keep (w.clone _)) (λ x3.
                      Triple->>= (keep_tool s t id S keep w.head) (λ base_sha.
                        Triple->>= (keep_tool s t id S keep w.clone_work) (λ x4.
                          Triple->>= (keep_tool s t id S keep w.chown) (λ x5.
                            Triple->>=
                              (Triple-write_status w.python w.seconds id _ s t S (λ x. (refl, refl))
                                keep)
                              (λ x6. Triple->>= (run_agent-Triple cfg) (λ result.
                                Triple->>=
                                  (Triple-write_status w.python w.seconds id _ s t S
                                    (λ x. (refl, refl)) keep)
                                  (λ x7.
                                    Triple->>= (keep_tool s t id S keep (w.diff base_sha))
                                      (λ patch. settle-Triple cfg _ patch started)))))))))))))))
