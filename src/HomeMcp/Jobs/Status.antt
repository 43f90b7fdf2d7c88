-- ===== src/HomeMcp/Jobs/Status.antt =====
-- compose/aws/home-mcp/jobs.py: `job_status`, which reads a run of the workflow back.
use nyc_pa_aws_gitops.Prelude.{
  ℕ, String, ◌<>◌, Bool, not, ◌&&◌, Option, none, some, List, [], ◌∷◌, ◌==◌, if◌then◌else◌, strip,
  split_first, starts, ◌++◌, strip_prefix, has_text,
}
use nyc_pa_aws_gitops.Prelude.Results.{Result, ok, err, ◌>>=◌}
use nyc_pa_aws_gitops.Prelude.Dict.{Dict}
use nyc_pa_aws_gitops.Prelude.Json.{Json, obj, to_dict}
use nyc_pa_aws_gitops.Prelude.Python.{Python}
use nyc_pa_aws_gitops.HomeMcp.Jobs.{Jobs, label, texts}

-- A run of the workflow, as far as it is read: `display_title`, `name`, `status` and `conclusion` with
-- the empty text where one is missing.
pub record WorkflowRun : Type 0 where
  pub id : ℕ
  pub display_title : String
  pub name : String
  pub status : String
  pub conclusion : String

pub data Trouble : Type 0 where
  rate_limited : Trouble
  unreachable : String → Trouble

-- A note of a check: `title` and `message`.
pub record Note : Type 0 where
  pub title : String
  pub message : String

-- GitHub's answers: the last 20 runs, the newest first, the jobs of a run and the notes of a job. `json`
-- is `json.loads`, none where it raises.
pub record Runs : Type 0 where
  pub python : Python
  pub json : String → Option Json
  pub runs : Result Trouble (List WorkflowRun)
  pub jobs : ℕ → Result Trouble (List ℕ)
  pub annotations : ℕ → Result Trouble (List Note)

-- The first note with the title `result`.
unfoldable pub result_note : List Note → Option String
unfolding strip
result_note [] = none
result_note (a ∷ notes) =
    let rest = result_note notes in if a.title == "result" then some (strip a.message) else rest

abbrev pub first_result : Result Trouble (List Note) → Result Trouble String → Result Trouble String
first_result (err e) rest = err e
first_result (ok notes) rest = elim (result_note notes) [ none ↦ rest | some t ↦ ok t ]

-- The loop over the jobs, which come with the last one first.
unfoldable pub search_jobs : Runs → List ℕ → Result Trouble String
unfolding result_note
search_jobs g [] = ok ""
search_jobs g (j ∷ js) = first_result (g.annotations j) (search_jobs g js)

unfoldable pub reversed : List ℕ → List ℕ
reversed [] = []
reversed (j ∷ js) = reversed js ++ (j ∷ [])

-- `_result_annotation`
unfoldable pub result_annotation : Runs → ℕ → Result Trouble String
unfolding search_jobs reversed
result_annotation g id = do js ← g.jobs id; search_jobs g (reversed js)

-- The text before the last ` [`, if there is one.
unfoldable pub before_last : String → Option String
before_last String.[] = none
before_last (String.◌∷◌ c s) = elim (before_last s) [
  | some t ↦ some (String.◌∷◌ c t)
  | none ↦ if starts " [" (String.◌∷◌ c s) then some "" else none
]

abbrev or_else : Option String → String → String
or_else none d = d
or_else (some t) d = t

-- `title.removeprefix("voice-job ").rsplit(" [", 1)[0]`
unfoldable pub title_body : String → String
unfolding before_last strip_prefix
title_body title =
    let t = or_else (strip_prefix "voice-job " title) title in or_else (before_last t) t

abbrev args_of : Option Json → Dict Json
args_of (some (obj fs)) = to_dict fs
args_of v = []

abbrev job_and_args : Option (String × String) → String → String × String
job_and_args none body = (body, "")
job_and_args (some p) body = p

-- `_label_from_title`
unfoldable pub label_from_title : Runs → String → String
unfolding title_body split_first texts
label_from_title g title =
    let p = job_and_args (split_first b' ' (title_body title)) (title_body title) in
    let args = if p.1 == "" then [] else args_of (g.json p.1) in
    if p.0 == "" then "the job" else label p.0 (texts g.python args)

-- What `job_status` says.
pub data Answer : Type 0 where
  limited : Answer
  no_answer : String → Answer
  just_requested : String → Answer
  not_found : Answer
  none_yet : Answer
  waiting running queued : String → Answer
  done failed : String → String → Answer
  cancelled : String → Bool → Answer

-- `r.get("display_title") or r.get("name") or ""`
unfoldable pub title_of : WorkflowRun → String
title_of r = if r.display_title == "" then r.name else r.display_title

-- `next((r for r in runs if tag in ...), None)`
unfoldable pub find_tagged : String → List WorkflowRun → Option WorkflowRun
unfolding title_of has_text
find_tagged tag [] = none
find_tagged tag (r ∷ runs) =
    let rest = find_tagged tag runs in if has_text tag (title_of r) then some r else rest

abbrev pub newest : List WorkflowRun → Option WorkflowRun
newest [] = none
newest (r ∷ runs) = some r

abbrev pub tag_of : String → String
tag_of id = "[" <> (id <> "]")

-- `_find_run`
unfoldable pub find_run : String → List WorkflowRun → Option WorkflowRun
unfolding find_tagged
find_run id runs = if id == "" then newest runs else find_tagged (tag_of id) runs

-- `request_id.strip() or _last_request["id"]`
unfoldable pub wanted_id : Jobs → String → String
unfolding strip
wanted_id s id = if strip id == "" then s.last_id else strip id

abbrev pub trouble : Trouble → Answer
trouble rate_limited = limited
trouble (unreachable e) = no_answer e

-- The answer for a run that has ended, from its conclusion and its note.
unfoldable pub concluded : String → String → Result Trouble String → Answer
concluded label conclusion (err e) = trouble e
concluded label conclusion (ok result) =
    if conclusion == "success"
    then done label (if result == "" then "it finished without a summary." else result)
    else if conclusion == "cancelled"
    then cancelled label (result == "")
    else failed label (if result == "" then "no reason given; check the run in GitHub." else result)

unfoldable pub run_answer : Runs → WorkflowRun → Answer
unfolding concluded label_from_title result_annotation
run_answer g r =
    if r.status == "waiting"
    then waiting (label_from_title g r.display_title)
    else if not (r.status == "completed")
    then (if r.status == "in_progress"
        then running (label_from_title g r.display_title)
        else queued (label_from_title g r.display_title))
    else concluded (label_from_title g r.display_title) r.conclusion (result_annotation g r.id)

unfoldable pub missing : Jobs → String → Answer
missing s id =
    if not (id == "") && id == s.last_id
    then just_requested s.last_label
    else if id == ""
    then none_yet
    else not_found

unfoldable pub found_answer : Runs → Jobs → String → Option WorkflowRun → Answer
unfolding run_answer missing
found_answer g s id none = missing s id
found_answer g s id (some r) = run_answer g r

abbrev pub answer_runs : Runs → Jobs → String → Result Trouble (List WorkflowRun) → Answer
answer_runs g s id (err e) = trouble e
answer_runs g s id (ok runs) = found_answer g s id (find_run id runs)

-- `job_status`
unfoldable pub job_status : Runs → Jobs → String → Answer
unfolding find_run found_answer wanted_id
job_status g s id = answer_runs g s (wanted_id s id) g.runs
