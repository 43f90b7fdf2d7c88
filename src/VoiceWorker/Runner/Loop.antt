-- ===== src/VoiceWorker/Runner/Loop.antt =====
-- compose/nuc/voice-worker/runner.py: the loop of `main`, a turn at a time.
use nyc_pa_aws_gitops.Prelude.{
  ℕ, String, ◌<>◌, Option, none, some, List, [], ◌∷◌, if◌then◌else◌, str_le,
}
use nyc_pa_aws_gitops.Prelude.Dict.{Dict, get, pop, keys}
use nyc_pa_aws_gitops.Prelude.Json.{Json}
use nyc_pa_aws_gitops.Prelude.Results.{Result, ok, err}
use nyc_pa_aws_gitops.VoiceWorker.Dispatch.{Disk}
use nyc_pa_aws_gitops.VoiceWorker.Runner.State.{Failure, Run, Push, PullRequest, Action}
use nyc_pa_aws_gitops.VoiceWorker.Runner.{Tools, process, handled}

-- The runner's files, what has reached GitHub, and how often the clock was read.
pub record World : Type 0 where
  pub disk : Disk
  pub pushed : List Push
  pub opened : List PullRequest
  pub reads : ℕ

-- `sorted(QUEUE.glob("*.json"))[0]`, without the suffix
abbrev pub earlier : String → Option String → Option String
earlier x none = some x
earlier x (some y) = if str_le (x <> ".json") (y <> ".json") then some x else some y

unfoldable pub first_file : List String → Option String
first_file [] = none
first_file (x ∷ xs) = earlier x (first_file xs)

-- A turn of the loop of `main`: nothing to do, an exception that ends the loop, or a task served.
pub data Turn : Type 0 where
  idle : Turn
  crashed : World → Turn
  served : World → Turn

-- The files and GitHub after a run.
abbrev pub back : World → Run → World
back v r = record v {
  disk = record v.disk { status = r.status };
  pushed = r.pushed;
  opened = r.opened;
  reads = r.reads;
}

abbrev pub ended : World → Result Failure (Unit {0}) → Run → Turn
ended v (ok u) r = served (back v r)
ended v (err e) r = crashed (back v r)

abbrev pub begun : World → Dict Json → Run
begun v task = record {
  task = task;
  status = v.disk.status;
  pushed = v.pushed;
  opened = v.opened;
  reads = v.reads;
}

-- What the `try` statement returns, with the `except` clauses.
abbrev pub attempt : Tools → Action (Unit {0})
attempt w = λ r. handled w (process w r).0 (process w r).1

-- The task is taken off the queue before it is processed.
unfoldable pub serve_task : Tools → World → String → Dict Json → Turn
unfolding process handled
serve_task w v name task =
    let r = begun v task in
    let v' = record v { disk = record v.disk { queue = pop name v.disk.queue } } in
    ended v' (attempt w r).0 (attempt w r).1

abbrev pub serve_found : Tools → World → String → Option (Dict Json) → Turn
serve_found w v name none = idle
serve_found w v name (some task) = serve_task w v name task

abbrev pub serve_named : Tools → World → Option String → Turn
serve_named w v none = idle
serve_named w v (some name) = serve_found w v name (get name v.disk.queue)

unfoldable pub serve : Tools → World → Turn
unfolding first_file serve_task
serve w v = serve_named w v (first_file (keys v.disk.queue))
