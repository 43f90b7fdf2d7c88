-- ===== src/VoiceWorker/Runner.antt =====
-- compose/nuc/voice-worker/runner.py: what happens to one task of the queue. What git, Docker and
-- GitHub answer is a parameter, a record of functions of what they are given.
pub mod State
pub mod Loop
pub mod Triple
pub mod Keeping
pub mod Publishing
pub mod Processing
pub mod Serving
use nyc_pa_aws_gitops.Prelude.{
  ℕ, String, ◌<>◌, Bool, true, false, not, ◌&&◌, ◌||◌, Option, none, some, List, [], ◌∷◌, map, ◌==◌,
  leb, eqb, if◌then◌else◌, length, keep, is_nonempty, starts, strip, take_chars, last_chars, show,
  str_le, all_chars,
}
use nyc_pa_aws_gitops.Prelude.Dict.{Dict, get, set, pop, keys}
use nyc_pa_aws_gitops.Prelude.Json.{Json, null, str, num, obj, strs, to_dict, truthy}
use nyc_pa_aws_gitops.Prelude.Results.{Result, ok, err}
use nyc_pa_aws_gitops.Prelude.Python.{Python, text_of}
use nyc_pa_aws_gitops.VoiceWorker.Dispatch.{Disk}
use nyc_pa_aws_gitops.VoiceWorker.Runner.State.{
  Failure, called, http, other, Run, Push, PullRequest, Action, ◌>>=◌, ◌>>◌, return, raise, tool,
  now, lookup, field, write_status,
}

-- How the agent's run ended: an exception of `subprocess.run` other than its timeout, or of its arguments
-- as with a limit that is no number; stopped after `max_minutes`, or with its exit code, the value
-- of the last line of its output where that is JSON, and its error output.
pub data AgentRun : Type 0 where
  unstarted : Failure → AgentRun
  timed_out : AgentRun
  finished : String → Option Json → String → AgentRun

-- The world outside. A `Failure` is the exception that the call raises.
pub record Tools : Type 0 where
  pub python : Python
  pub config : Result Failure (Dict Json)
  pub secret : String → Result Failure String
  pub make_dir : Json → Result Failure (Unit {0})
  pub clone : String → Result Failure (Unit {0})
  pub head : Result Failure String
  pub clone_work : Result Failure (Unit {0})
  pub chown : Result Failure (Unit {0})
  pub agent : String → String → AgentRun
  pub no_get : Json → String
  pub diff : String → Result Failure String
  pub save_patch : String → Result Failure (Unit {0})
  pub checkout : String → Result Failure (Unit {0})
  pub apply : String → Result Failure (Unit {0})
  pub changed : Result Failure (List String)
  pub first_line : Json → Result Failure String
  pub commit : String → String → String → Result Failure (Unit {0})
  pub push : String → Result Failure (Unit {0})
  pub open_pr : String → String → String → String → String → String → Result Failure (Dict Json)
  pub seconds : ℕ → String
  pub minutes : ℕ → ℕ → String

-- `FORBIDDEN_PATHS.match`, for a path with no line break
unfoldable pub is_forbidden : String → Bool
is_forbidden p =
    starts ".github/" p || (starts ".git/" p || (p == ".gitmodules" || p == ".gitattributes"))

-- `not patch.strip()`, for bytes
unfoldable pub is_blank : String → Bool
is_blank patch = all_chars (λ c. leb 9 c && leb c 13 || eqb c 32) patch

-- The error text that `main` writes for an exception.
unfoldable pub failure_text : Failure → String
failure_text (called command errors) = command <> (" failed: " <> last_chars 400 errors)
failure_text (http code body) = "GitHub API " <> (code <> (": " <> take_chars 300 body))
failure_text (other text) = take_chars 500 text

module _ (w : Tools) where
  abbrev pub write : Dict Json → Action (Unit {0})
  write fields = write_status w.python w.seconds fields

  abbrev pub text_field : String → Action String
  text_field k = do v ← field k; return (text_of w.python v)

  -- `d.get(k, "")`, and whether `d.get(k)` is true
  abbrev pub or_text : Option Json → Json
  or_text none = str ""
  or_text (some v) = v

  abbrev is_set : Option Json → Bool
  is_set none = false
  is_set (some v) = truthy v

  abbrev too_long : Result Failure Json → Failure
  too_long (err e) = e
  too_long (ok v) =
      other ("agent ran past the " <> (text_of w.python v <> "-minute limit and was stopped"))

  -- The result of the agent's run: a dict that tells of no error.
  unfoldable pub agent_result : Dict Json → AgentRun → Result Failure (Dict Json)
  unfolding last_chars truthy
  agent_result cfg (unstarted e) = err e
  agent_result cfg timed_out = err (too_long (lookup "max_minutes" cfg))
  agent_result cfg (finished code none errors) =
      err (other ("agent produced no result (exit " <> (code <> ("): " <> last_chars 400 errors))))
  agent_result cfg (finished code (some (obj fs)) errors) =
      if is_set (get "is_error" (to_dict fs)) || not (code == "0")
      then err (
          other (
            "agent failed: "
            <> take_chars 400 (text_of w.python (or_text (get "result" (to_dict fs))))))
      else ok (to_dict fs)
  agent_result cfg (finished code (some v) errors) = err (other (w.no_get v))

  -- `run_agent`
  unfoldable pub run_agent : Dict Json → Action (Dict Json)
  unfolding agent_result lookup
  run_agent cfg = do
    token ← tool (w.secret "claude-oauth-token")
    repo ← text_field "repo"
    instructions ← text_field "instructions"
    id ← field "id"
    minutes ← tool (lookup "max_minutes" cfg)
    tool (agent_result cfg (w.agent repo instructions))

  abbrev sent : Result Failure (Unit {0}) → Push → Action (Unit {0})
  sent (err e) p = λ r. (err e, r)
  sent (ok u) p = λ r. (ok tt, record r { pushed = p ∷ r.pushed })

  abbrev created : Result Failure (Dict Json) → PullRequest → Action (Dict Json)
  created (err e) p = λ r. (err e, r)
  created (ok pr) p = λ r. (ok pr, record r { opened = p ∷ r.opened })

  -- The check of the lines that name the changed paths.
  abbrev guard : List String → Action (Unit {0})
  guard [] = return tt
  guard (p ∷ bad) = raise (
      "agent changed protected paths "
      <> (w.python.container_text (strs (p ∷ bad)) <> "; nothing was pushed"))

  -- `git push`: what reaches GitHub when it succeeds
  abbrev pub push_branch : Json → String → List String → Action (Unit {0})
  push_branch repo branch paths =
      λ r. sent (w.push branch) (record { repo = repo; branch = branch; lines = paths }) r

  -- `open_pr`
  unfoldable pub open_pr : Dict Json → String → String → Action (Dict Json)
  unfolding lookup
  open_pr cfg branch summary = do
    instructions ← field "instructions"
    line ← tool (w.first_line instructions)
    id ← text_field "id"
    let title = "voice: " <> take_chars 60 line
    owner ← tool (lookup "owner" cfg)
    repo ← field "repo"
    created
        (w.open_pr (text_of w.python repo) title branch id (text_of w.python instructions) summary)
        (record { repo = repo; head = branch; summary = summary })

  -- The pull request for a pushed branch, and the last status.
  unfoldable pub announce : Dict Json → String → String → ℕ → Action (Unit {0})
  unfolding open_pr lookup
  announce cfg branch summary started = do
    pr ← open_pr cfg branch summary
    url ← tool (lookup "html_url" pr)
    number ← tool (lookup "number" pr)
    n ← now
    write (
        ("state", str "done")
        ∷ ("step", str "pr opened")
        ∷ ("pr_url", url)
        ∷ ("pr_number", number)
        ∷ ("branch", str branch)
        ∷ ("minutes", num (w.minutes started n))
        ∷ [])

  -- The commit and the push of the applied patch, and what follows.
  unfoldable pub send : Dict Json → String → String → String → List String → ℕ → Action (Unit {0})
  unfolding lookup announce
  send cfg summary branch id paths started = do
    token ← tool (w.secret "github-token")
    owner ← tool (lookup "owner" cfg)
    instructions ← field "instructions"
    line ← tool (w.first_line instructions)
    tool (w.commit (take_chars 60 line) id summary)
    write (("step", str "pushing") ∷ ("files_changed", num (show (length paths))) ∷ [])
    repo ← field "repo"
    push_branch repo branch paths
    announce cfg branch summary started

  -- From the patch to the pull request: the end of `process`.
  unfoldable pub publish : Dict Json → String → String → ℕ → Action (Unit {0})
  unfolding is_forbidden send
  publish cfg summary patch started = do
    tool (w.save_patch patch)
    id ← text_field "id"
    let branch = "voice/" <> id
    tool (w.checkout branch)
    tool (w.apply patch)
    lines ← tool w.changed
    let paths = keep is_nonempty lines
    guard (keep is_forbidden paths)
    send cfg summary branch id paths started

  abbrev pub or_null : Option Json → Json
  or_null none = null
  or_null (some v) = v

  abbrev pub no_changes : ℕ → Action (Unit {0})
  no_changes started = do
    n ← now
    write (
        ("state", str "done")
        ∷ ("step", str "no changes")
        ∷ ("pr_url", null)
        ∷ ("minutes", num (w.minutes started n))
        ∷ ("message", str "The agent finished without changing any files, so no PR was opened.")
        ∷ [])

  -- What `process` does with the agent's patch.
  unfoldable pub settle : Dict Json → String → String → ℕ → Action (Unit {0})
  unfolding is_blank publish
  settle cfg summary patch started =
      if is_blank patch then no_changes started else publish cfg summary patch started

  -- `process`
  unfoldable pub process : Action (Unit {0})
  unfolding run_agent settle lookup
  process = do
    cfg ← tool w.config
    id ← field "id"
    tool (w.make_dir id)
    owner ← tool (lookup "owner" cfg)
    repo ← text_field "repo"
    started ← now
    write (
        ("state", str "running")
        ∷ ("step", str "cloning")
        ∷ ("started_at", num (w.seconds started))
        ∷ [])
    tool (w.clone ("https://github.com/" <> (text_of w.python owner <> ("/" <> (repo <> ".git")))))
    base_sha ← tool w.head
    tool w.clone_work
    tool w.chown
    write (("step", str "agent working") ∷ ("base_sha", str base_sha) ∷ [])
    result ← run_agent cfg
    let summary = take_chars 2000 (strip (text_of w.python (or_text (get "result" result))))
    write (
        ("step", str "collecting changes")
        ∷ ("summary", str summary)
        ∷ ("cost_usd", or_null (get "total_cost_usd" result))
        ∷ [])
    patch ← tool (w.diff base_sha)
    settle cfg summary patch started

  -- The `except` clauses of `main`
  unfoldable pub handled : Result Failure (Unit {0}) → Action (Unit {0})
  unfolding failure_text
  handled (ok u) = return u
  handled (err e) = write (("state", str "failed") ∷ ("error", str (failure_text e)) ∷ [])
