-- ===== src/VoiceWorker/Runner/Serving.antt =====
-- What a turn of the loop of `main` does: a queued task leaves the queue and ends as done or failed.
use nyc_pa_aws_gitops.Prelude.{String, ◌≡◌, refl, some, List, [], ◌∷◌}
use nyc_pa_aws_gitops.Prelude.Dict.{Dict, get, pop, has}
use nyc_pa_aws_gitops.Prelude.DictLaws.{get-set}
use nyc_pa_aws_gitops.Prelude.Json.{Json, str}
use nyc_pa_aws_gitops.Prelude.Results.{Result, ok, err}
use nyc_pa_aws_gitops.VoiceWorker.Runner.{Tools, write, process, failure_text, handled}
use nyc_pa_aws_gitops.VoiceWorker.Runner.State.{Failure, Run, Push, PullRequest, update}
use nyc_pa_aws_gitops.VoiceWorker.Runner.Triple.{Outcome, Triple, Triple-post}
use nyc_pa_aws_gitops.VoiceWorker.Runner.Keeping.{Holds, HasState, Triple-write_state}
use nyc_pa_aws_gitops.VoiceWorker.Runner.Publishing.{
  NotYet, Opened, Pushed, Before, Done, Failed, early, pushed, late,
}
use nyc_pa_aws_gitops.VoiceWorker.Runner.Loop.{
  World, served, back, begun, attempt, ended, serve_task,
}
use nyc_pa_aws_gitops.VoiceWorker.Runner.Processing.{Ended, unchanged, published, process-Triple}

module _ (w : Tools) (s : Dict (Dict Json)) (t : Dict Json) (id : String) (ps : List Push)
    (qs : List PullRequest) where
  -- How the turn ends for the task: done with nothing sent, done with a push and its pull request,
  -- or failed, wherever that was.
  pub data Final (r : Run) : Type 0 where
    done_unchanged : Before w s t id ps qs r → HasState id (str "done") r → Final r
    done_published : Done w s t id ps qs r → HasState id (str "done") r → Final r
    failed : Failed w s t id ps qs r → HasState id (str "failed") r → Final r

  write_failed :
      (S : List Push → List PullRequest → Type 0) (e : Failure)
      → Triple
          (Holds s t id S)
          (write w (("state", str "failed") ∷ ("error", str (failure_text e)) ∷ []))
          (λ u r. Holds s t id S r × HasState id (str "failed") r)
          (λ r. ⊥)
  unfolding has update
  write_failed S e =
      Triple-write_state w.python w.seconds id _ s t S (λ x. (refl, refl)) (str "failed")
        (λ x u. simp get-set)

  failed_Final :
      (e : Failure)
      → Triple
          (Failed w s t id ps qs)
          (write w (("state", str "failed") ∷ ("error", str (failure_text e)) ∷ []))
          (λ u r. Final r)
          (λ r. ⊥)
  failed_Final e = record {
    holds = (λ r h. elim h [
      | early h ↦
          (Triple-post (write_failed (NotYet ps qs) e) (λ u r k. failed (early k.0) k.1)).holds r h
      | pushed h ↦
          (Triple-post (write_failed (Pushed w t id ps qs) e)
              (λ u r k. failed (pushed k.0) k.1)).holds
            r h
      | late h ↦
          (Triple-post (write_failed (Opened w t id ps qs) e)
              (λ u r k. failed (late k.0) k.1)).holds
            r h
    ]);
  }

  handled-Final :
      (m : Result Failure (Unit {0})) (r : Run)
      → Outcome (λ u r. Ended w s t id ps qs r) (Failed w s t id ps qs) m r
      → Outcome (λ u r. Final r) (λ r. ⊥) (handled w m r).0 (handled w m r).1
  unfolding handled
  handled-Final (ok u) r (unchanged h k) = done_unchanged h k
  handled-Final (ok u) r (published h k) = done_published h k
  handled-Final (err e) r h = (failed_Final e).holds r h

  attempt-Final :
      (r : Run)
      → Before w s t id ps qs r
      → Outcome (λ u r. Final r) (λ r. ⊥) (attempt w r).0 (attempt w r).1
  attempt-Final r h =
      handled-Final (process w r).0 (process w r).1 ((process-Triple w s t id ps qs).holds r h)

ended_served :
    (v : World) (m : Result Failure (Unit {0})) (r : Run) (Q : Run → Type 0)
    → Outcome (λ u r. Q r) (λ r. ⊥) m r
    → Q r × (ended v m r ≡ served (back v r))
ended_served v (ok u) r Q h = (h, refl)
ended_served v (err e) r Q h = elim h [ ]

-- The task `t` of the file `name` has been served: the file is gone, and the rest is as in `Final`.
pub record IsServed (w : Tools) (v : World) (name : String) (t : Dict Json) (v' : World)
    : Type 0 where
  pub last : Run
  pub final : Final w v.disk.status t name v.pushed v.opened last
  pub after : v' ≡ back (record v { disk = record v.disk { queue = pop name v.disk.queue } }) last

pub serve_task-IsServed :
    (w : Tools) (v : World) (name : String) (t : Dict Json)
    → get "id" t ≡ some (str name)
    → (v' : World) × (serve_task w v name t ≡ served v') × IsServed w v name t v'
unfolding serve_task
serve_task-IsServed w v name t h =
    let base = record v { disk = record v.disk { queue = pop name v.disk.queue } } in
    let r = attempt w (begun v t) in
    let start : Before w v.disk.status t name v.pushed v.opened (begun v t) = record {
      named = h;
      repo_kept = refl;
      others = (λ k e. refl);
      sent = (refl, refl);
    } in
    let (f, e) =
      ended_served base r.0 r.1 (Final w v.disk.status t name v.pushed v.opened)
        (attempt-Final w v.disk.status t name v.pushed v.opened (begun v t) start) in
    (back base r.1, e, record { last = r.1; final = f; after = refl })
