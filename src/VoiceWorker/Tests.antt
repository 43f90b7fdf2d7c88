-- ===== src/VoiceWorker/Tests.antt =====
-- Runs of the worker on sample files.
use nyc_pa_aws_gitops.Prelude.{
  ℕ, zero, suc, String, ◌≡◌, inl, inr, refl, ap, Bool, true, false, Option, none, some, List, [],
  ◌∷◌, eq_iff, arith, keep, All, if◌then◌else◌, ◌==◌,
}
use nyc_pa_aws_gitops.Prelude.Dict.{Dict, get, set, keys, has}
use nyc_pa_aws_gitops.Prelude.Json.{Json, num, str, obj, end}
use nyc_pa_aws_gitops.Prelude.Json.{field as entry}
use nyc_pa_aws_gitops.Prelude.Python.{Python}
use nyc_pa_aws_gitops.Prelude.Results.{ok}
use nyc_pa_aws_gitops.VoiceWorker.Dispatch.{
  Config, Disk, Input, Reply, queued, task, is_task_id, queued_state, load_status, status, dispatch,
}
use nyc_pa_aws_gitops.VoiceWorker.Dispatch.Effect.{Effect, dispatch-Effect}
use nyc_pa_aws_gitops.VoiceWorker.Dispatch.Reading.{status_after_start}
use nyc_pa_aws_gitops.VoiceWorker.Runner.{Tools, AgentRun, finished, is_forbidden}
use nyc_pa_aws_gitops.VoiceWorker.Runner.State.{Failure, called, Push, PullRequest}
use nyc_pa_aws_gitops.VoiceWorker.Runner.Loop.{World, served, serve}
use nyc_pa_aws_gitops.VoiceWorker.Queue.{WellQueued, dispatch-WellQueued}
use nyc_pa_aws_gitops.VoiceWorker.Queue.History.{
  none_yet, followed, command, turn, IsSound, Steps-IsSound,
}
use nyc_pa_aws_gitops.VoiceWorker.Queue.Drain.{turns}

abbrev runtime : Python
runtime = record { wide_digit = (λ c. false); container_text = (λ v. "[...]") }

abbrev limits : Config
limits = record { allowed_repos = "home" ∷ []; max_active = 3 }

abbrev no_files : Disk
no_files = record { queue = []; status = []; health = none }

abbrev sample_request : Input
sample_request = record {
  request = (some (obj (entry "repo" (str "home") (entry "instructions" (str "Fix it. ") end))));
  stamp = "20261002-101500";
  suffix = "ab12";
  now = 5;
}

abbrev sample_id : String
sample_id = "20261002-101500-ab12"

abbrev sample_task : Dict Json
sample_task =
    ("id", str sample_id)
    ∷ ("repo", str "home")
    ∷ ("instructions", str "Fix it.")
    ∷ ("requested_by", str "")
    ∷ ("queued_at", num "5")
    ∷ []

abbrev one_queued : Disk
one_queued = record { queue = (sample_id, sample_task) ∷ []; status = []; health = none }

dispatch-Effect_example :
    Effect runtime limits no_files sample_request
      (dispatch runtime limits no_files sample_request ("start" ∷ []))
dispatch-Effect_example = dispatch-Effect runtime limits no_files sample_request ("start" ∷ [])

start_queues :
    dispatch runtime limits no_files sample_request ("start" ∷ []) ≡ (one_queued, queued sample_id)
unfolding dispatch nyc_pa_aws_gitops.VoiceWorker.Dispatch.enqueue
    nyc_pa_aws_gitops.VoiceWorker.Dispatch.admit_request get keys set
    nyc_pa_aws_gitops.Prelude.take_chars nyc_pa_aws_gitops.Prelude.show
    nyc_pa_aws_gitops.Prelude.Python.text_of
start_queues = refl

status_after_start_example :
    dispatch runtime limits
      (dispatch runtime limits no_files sample_request ("start" ∷ [])).0
      sample_request
      ("status" ∷ sample_id ∷ [])
    ≡ (
      (dispatch runtime limits no_files sample_request ("start" ∷ [])).0,
      task (queued_state sample_id),
    )
unfolding dispatch is_task_id has nyc_pa_aws_gitops.VoiceWorker.Dispatch.enqueue
    nyc_pa_aws_gitops.VoiceWorker.Dispatch.admit_request get keys
    nyc_pa_aws_gitops.Prelude.all_chars nyc_pa_aws_gitops.Prelude.take_chars
    nyc_pa_aws_gitops.Prelude.drop_chars
status_after_start_example =
    status_after_start runtime limits no_files sample_request sample_request ("start" ∷ [])
      sample_id refl refl refl

one_queued-WellQueued : WellQueued one_queued
unfolding get
one_queued-WellQueued k t h = ground (arith, eq_iff k sample_id)

dispatch-WellQueued_example :
    WellQueued (dispatch runtime limits one_queued sample_request ("list" ∷ [])).0
dispatch-WellQueued_example =
    dispatch-WellQueued runtime limits one_queued sample_request ("list" ∷ []) one_queued-WellQueued

-- Answers of a run that opens a pull request, but for the paths that the patch changes.
abbrev answers : List String → Tools
answers paths = record {
  python = runtime;
  config = (ok (("owner", str "me") ∷ ("max_minutes", num "30") ∷ []));
  secret = (λ name. ok "token");
  make_dir = (λ id. ok tt);
  clone = (λ url. ok tt);
  head = (ok "abc");
  clone_work = (ok tt);
  chown = (ok tt);
  agent = (λ repo text. finished "0" (some (obj (entry "result" (str "Fixed.") end))) "");
  no_get = (λ v. "no get");
  diff = (λ base. ok "diff");
  save_patch = (λ patch. ok tt);
  checkout = (λ branch. ok tt);
  apply = (λ patch. ok tt);
  changed = (ok paths);
  first_line = (λ text. ok "Fix it.");
  commit = (λ title id summary. ok tt);
  push = (λ branch. ok tt);
  open_pr = (λ repo title branch id text summary.
      ok (("html_url", str "url") ∷ ("number", num "7") ∷ []));
  seconds = (λ n. "0");
  minutes = (λ n m. "1.5");
}

abbrev start_world : World
start_world = record { disk = one_queued; pushed = []; opened = []; reads = 0 }

abbrev empty_world : World
empty_world = record { disk = no_files; pushed = []; opened = []; reads = 0 }

abbrev after_start : World
after_start = record empty_world {
  disk = (dispatch runtime limits no_files sample_request ("start" ∷ [])).0;
}

-- The turn that serves the task of the command before it, and pushes.
abbrev after_turn : World
after_turn = turns (answers ("a.py" ∷ []) ∷ []) after_start

turn_served : serve (answers ("a.py" ∷ [])) after_start ≡ served after_turn
unfolding turns dispatch nyc_pa_aws_gitops.VoiceWorker.Dispatch.enqueue
    nyc_pa_aws_gitops.VoiceWorker.Dispatch.admit_request keys get set
    nyc_pa_aws_gitops.VoiceWorker.Runner.State.write_status nyc_pa_aws_gitops.Prelude.take_chars
    nyc_pa_aws_gitops.Prelude.show nyc_pa_aws_gitops.Prelude.all_chars
    nyc_pa_aws_gitops.Prelude.is_nonempty nyc_pa_aws_gitops.Prelude.strip_prefix
    nyc_pa_aws_gitops.Prelude.Python.text_of
turn_served = refl

Steps-IsSound_example : IsSound after_turn
Steps-IsSound_example =
    Steps-IsSound runtime limits empty_world after_turn
      (followed after_start after_turn
        (followed empty_world after_start none_yet (command sample_request ("start" ∷ [])))
        (turn (answers ("a.py" ∷ [])) after_turn turn_served))
      refl refl

-- A push is refused when git prints a protected path, and made when it prints another.
protected_refused : (turns (answers (".github/x" ∷ []) ∷ []) start_world).pushed ≡ []
unfolding turns keys get nyc_pa_aws_gitops.VoiceWorker.Runner.State.write_status set
    nyc_pa_aws_gitops.Prelude.all_chars nyc_pa_aws_gitops.Prelude.is_nonempty
    nyc_pa_aws_gitops.Prelude.strip_prefix
protected_refused = refl

allowed_pushed :
    (turns (answers ("a.py" ∷ []) ∷ []) start_world).pushed
    ≡ record { repo = str "home"; branch = "voice/20261002-101500-ab12"; lines = "a.py" ∷ [] } ∷ []
unfolding turns keys get nyc_pa_aws_gitops.VoiceWorker.Runner.State.write_status set
    nyc_pa_aws_gitops.Prelude.all_chars nyc_pa_aws_gitops.Prelude.is_nonempty
    nyc_pa_aws_gitops.Prelude.strip_prefix nyc_pa_aws_gitops.Prelude.Python.text_of
allowed_pushed = refl

-- Git quotes a path with a character that is not ASCII, and the quoted path passes as allowed.
quoted_passes : is_forbidden "\".github/workflows/\\303\\251.yml\"" ≡ false
unfolding is_forbidden nyc_pa_aws_gitops.Prelude.strip_prefix
quoted_passes = refl
