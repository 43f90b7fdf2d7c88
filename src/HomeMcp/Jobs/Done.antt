-- ===== src/HomeMcp/Jobs/Done.antt =====
-- When `job_status` says that a job is done.
use nyc_pa_aws_gitops.Prelude.{
  String, ◌≡◌, ◌⊎◌, inl, inr, refl, Bool, true, Option, none, some, List, [], ◌∷◌, ◌==◌, eq_iff,
  ◌≢◌, has_text, Bool-cases,
}
use nyc_pa_aws_gitops.Prelude.Results.{Result, ok, err}
use nyc_pa_aws_gitops.HomeMcp.Jobs.{Jobs}
use nyc_pa_aws_gitops.HomeMcp.Jobs.Status.{
  WorkflowRun, Trouble, rate_limited, unreachable, Runs, limited, no_answer, just_requested,
  not_found, none_yet, waiting, running, queued, done, failed, cancelled, title_of, find_tagged,
  tag_of, find_run, wanted_id, concluded, run_answer, missing, found_answer, answer_runs,
  job_status, label_from_title, result_annotation,
}

-- The run stands for the request: it is tagged with its id, or no request is asked for.
pub record IsDone (g : Runs) (id label : String) : Type 0 where
  pub run : WorkflowRun
  pub runs : List WorkflowRun
  pub read : g.runs ≡ ok runs
  pub found : find_run id runs ≡ some run
  pub tagged : (id ≡ "") ⊎ (has_text (tag_of id) (title_of run) ≡ true)
  pub completed : run.status ≡ "completed"
  pub succeeded : run.conclusion ≡ "success"
  pub labelled : label ≡ label_from_title g run.display_title

same_title :
    (tag : String) (x r : WorkflowRun)
    → has_text tag (title_of x) ≡ true
    → some x ≡ some r
    → has_text tag (title_of r) ≡ true
same_title tag x r e h = cc

find_tagged-has_text :
    (tag : String) (runs : List WorkflowRun) (r : WorkflowRun)
    → find_tagged tag runs ≡ some r
    → has_text tag (title_of r) ≡ true
unfolding find_tagged
find_tagged-has_text tag [] r h = cc
find_tagged-has_text tag (x ∷ runs) r h = elim (Bool-cases (has_text tag (title_of x))) [
  | inl e ↦ same_title tag x r e (rw e at h)
  | inr e ↦ find_tagged-has_text tag runs r (rw e at h)
]

find_run-tagged :
    (id : String) (runs : List WorkflowRun) (r : WorkflowRun)
    → find_run id runs ≡ some r
    → (id ≡ "") ⊎ (has_text (tag_of id) (title_of r) ≡ true)
unfolding find_run
find_run-tagged id runs r h = elim (Bool-cases (id == "")) [
  | inl e ↦ inl ((eq_iff id "").0 e)
  | inr e ↦ inr (find_tagged-has_text (tag_of id) runs r (rw e at h))
]

done_label : {l t label result : String} → done l t ≡ done label result → label ≡ l
done_label h = cc

cancelled_done {ℓ} :
    {A : Type ℓ} {l label result : String} {b : Bool} → cancelled l b ≡ done label result → A
cancelled_done h = cc

failed_done {ℓ} : {A : Type ℓ} {l t label result : String} → failed l t ≡ done label result → A
failed_done h = cc

concluded-done :
    (l c label result : String) (m : Result Trouble String)
    → concluded l c m ≡ done label result
    → (c ≡ "success") × (label ≡ l)
unfolding concluded
concluded-done l c label result (err rate_limited) h = cc
concluded-done l c label result (err (unreachable e)) h = cc
concluded-done l c label result (ok t) h = elim (Bool-cases (c == "success")) [
  | inl e ↦ ((eq_iff c "success").0 e, done_label (rw e at h))
  | inr e ↦ elim (Bool-cases (c == "cancelled")) [
    | inl f ↦ cancelled_done (rw (e, f) at h)
    | inr f ↦ failed_done (rw (e, f) at h)
  ]
]

waiting_done {ℓ} :
    {A : Type ℓ} {l : String} {label result : String} → waiting l ≡ done label result → A
waiting_done h = cc

running_done {ℓ} :
    {A : Type ℓ} {l : String} {label result : String} → running l ≡ done label result → A
running_done h = cc

queued_done {ℓ} :
    {A : Type ℓ} {l : String} {label result : String} → queued l ≡ done label result → A
queued_done h = cc

none_yet_done {ℓ} : {A : Type ℓ} {label result : String} → none_yet ≡ done label result → A
none_yet_done h = cc

just_done {ℓ} :
    {A : Type ℓ} {l : String} {label result : String} → just_requested l ≡ done label result → A
just_done h = cc

not_found_done {ℓ} : {A : Type ℓ} {label result : String} → not_found ≡ done label result → A
not_found_done h = cc

rate_done {ℓ} : {A : Type ℓ} {label result : String} → limited ≡ done label result → A
rate_done h = cc

unreachable_done {ℓ} :
    {A : Type ℓ} {l : String} {label result : String} → no_answer l ≡ done label result → A
unreachable_done h = cc

run_answer-done :
    (g : Runs) (r : WorkflowRun) (label result : String)
    → run_answer g r ≡ done label result
    → (r.status ≡ "completed")
      × (r.conclusion ≡ "success")
      × (label ≡ label_from_title g r.display_title)
unfolding run_answer
run_answer-done g r label result h = elim (Bool-cases (r.status == "waiting")) [
  | inl e ↦ waiting_done (rw e at h)
  | inr e ↦ elim (Bool-cases (r.status == "completed")) [
    | inl f ↦
        (let (c, l) =
            concluded-done (label_from_title g r.display_title) r.conclusion label result
              (result_annotation g r.id) (rw (e, f) at h) in
          ((eq_iff r.status "completed").0 f, c, l))
    | inr f ↦ elim (Bool-cases (r.status == "in_progress")) [
      | inl k ↦ running_done (rw (e, f, k) at h)
      | inr k ↦ queued_done (rw (e, f, k) at h)
    ]
  ]
]

missing-done : (s : Jobs) (id label result : String) → missing s id ≢ done label result
unfolding missing
missing-done s id label result h = elim (Bool-cases (id == "")) [
  | inl e ↦ none_yet_done (rw e at h)
  | inr e ↦ elim (Bool-cases (id == s.last_id)) [
    | inl f ↦ just_done (rw (e, f) at h)
    | inr f ↦ not_found_done (rw (e, f) at h)
  ]
]

of_found :
    (g : Runs) (s : Jobs) (id label result : String) (runs : List WorkflowRun)
    (o : Option WorkflowRun)
    → g.runs ≡ ok runs
    → find_run id runs ≡ o
    → found_answer g s id o ≡ done label result
    → IsDone g id label
unfolding found_answer
of_found g s id label result runs none e f h = elim (missing-done s id label result h) [ ]
of_found g s id label result runs (some r) e f h =
    let (a, b, c) = run_answer-done g r label result h in
    record {
      run = r;
      runs = runs;
      read = e;
      found = f;
      tagged = (find_run-tagged id runs r f);
      completed = a;
      succeeded = b;
      labelled = c;
    }

answer_runs-IsDone :
    (g : Runs) (s : Jobs) (id label result : String) (m : Result Trouble (List WorkflowRun))
    → g.runs ≡ m
    → answer_runs g s id m ≡ done label result
    → IsDone g id label
unfolding find_run
answer_runs-IsDone g s id label result (err rate_limited) e h = rate_done h
answer_runs-IsDone g s id label result (err (unreachable x)) e h = unreachable_done h
answer_runs-IsDone g s id label result (ok runs) e h =
    of_found g s id label result runs (find_run id runs) e refl h

-- `job_status` says that a job is done only if GitHub's runs have one for the request, tagged with the
-- request's id where one is given or known, and this run has completed with success. The label is that
-- of this run.
pub job_status-IsDone :
    (g : Runs) (s : Jobs) (id label result : String)
    → job_status g s id ≡ done label result
    → IsDone g (wanted_id s id) label
unfolding job_status
job_status-IsDone g s id label result h =
    answer_runs-IsDone g s (wanted_id s id) label result g.runs refl h
