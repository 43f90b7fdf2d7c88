-- ===== src/HomeMcp/Github.antt =====
-- compose/aws/home-mcp/github_status.py: pull requests, CI and deploys. GitHub's answers are given with
-- the fields that are read, a text that is missing as the empty one, and a time in seconds.
pub mod States
pub mod Told
pub mod Approvals
pub mod Asking
mod Tests
use nyc_pa_aws_gitops.Prelude.{
  ℕ, zero, suc, ◌+◌, ◌-◌, ◌/◌, max, Char, code, String, ◌<>◌, Bool, true, false, not, ◌&&◌, ◌||◌,
  Option, none, some, List, [], ◌∷◌, ◌++◌, ◌==◌, ltb, leb, eqb, if◌then◌else◌, length, take, keep,
  all_of, contains, sorted, strip, strip_prefix, starts, join, show, plural, take_chars, all_chars,
  is_digit, is_nonempty,
}
use nyc_pa_aws_gitops.Prelude.Results.{Result, ok, err, ◌>>=◌, traverse}
use nyc_pa_aws_gitops.Prelude.Dict.{Dict, get, set, has}
use nyc_pa_aws_gitops.Prelude.Letters.{lower}
use nyc_pa_aws_gitops.Prelude.Python.{Python, is_decimal}
use nyc_pa_aws_gitops.HomeMcp.Jobs.Status.{Runs, label_from_title}
use nyc_pa_aws_gitops.HomeMcp.Updates.Images.{add_new, union_of}

-- A run of a workflow, with the numbers of its pull requests.
pub record Run : Type 0 where
  pub name : String
  pub head_sha : String
  pub head_branch : String
  pub status : String
  pub conclusion : String
  pub event : String
  pub display_title : String
  pub pull_requests : List ℕ
  pub message : String
  pub created_at : ℕ

pub record Pull : Type 0 where
  pub number : ℕ
  pub title : String
  pub head_sha : String

pub record Repo : Type 0 where
  pub pulls : List Pull
  pub runs : List Run

-- Why GitHub gives no answer: its rate limit, with the header on the reset, or another exception.
pub data Trouble : Type 0 where
  rate_limited : String → Trouble
  failed : String → Trouble

-- `_ago` of the seconds between the two times.
unfoldable pub ago : ℕ → String
unfolding show plural
ago seconds =
    let minutes = seconds / 60 in
    let hours = minutes / 60 in
    if ltb minutes 1
    then "just now"
    else if ltb minutes 60
    then show minutes <> (" minute" <> (plural minutes <> " ago"))
    else if ltb hours 48
    then show hours <> (" hour" <> (plural hours <> " ago"))
    else show (hours / 24) <> " days ago"

abbrev pub or_text : String → String → String
or_text a b = if a == "" then b else a

abbrev is_running : String → Bool
is_running s = s == "queued" || (s == "in_progress" || (s == "requested" || s == "pending"))

abbrev concluded : String → String → String
concluded status c =
    if c == "success"
    then "succeeded"
    else if c == "failure"
    then "failed"
    else if c == "cancelled"
    then "was cancelled"
    else if c == "timed_out"
    then "timed out"
    else if c == "skipped"
    then "was skipped"
    else if c == "action_required"
    then "needs action"
    else or_text c (or_text status "unknown")

-- `_run_state`
unfoldable pub run_state : Run → String
run_state r =
    if r.status == "waiting"
    then "waiting for your approval"
    else if is_running r.status
    then "running"
    else concluded r.status r.conclusion

-- A line break of `splitlines`.
abbrev is_break : ℕ → Bool
is_break c =
    (leb 10 c && leb c 13) || ((leb 28 c && leb c 30) || (eqb c 133 || (eqb c 8232 || eqb c 8233)))

-- `(s.splitlines()[0:1] or [""])[0]`
unfoldable pub first_line : String → String
first_line String.[] = String.[]
first_line (String.◌∷◌ c s) =
    let rest = String.◌∷◌ c (first_line s) in if is_break (code c) then String.[] else rest

-- The digits at the front.
unfoldable pub digits_of : Python → String → String
digits_of py String.[] = String.[]
digits_of py (String.◌∷◌ c s) =
    let rest = String.◌∷◌ c (digits_of py s) in if is_decimal py (code c) then rest else String.[]

abbrev shortened : String → String
shortened first = if first == take_chars 50 first then first else take_chars 50 first <> "..."

abbrev number_or : String → String → String
number_or first digits = if digits == "" then shortened first else "PR #" <> digits

abbrev merged : Python → String → Option String → String
merged py first none = shortened first
merged py first (some s) = number_or first (digits_of py s)

abbrev of_commit : Python → String → String
of_commit py first = merged py first (strip_prefix "Merge pull request #" first)

abbrev of_event : Python → Run → List ℕ → String
of_event py r [] = of_commit py (first_line r.message)
of_event py r (n ∷ ns) =
    if r.event == "pull_request" then "PR #" <> show n else of_commit py (first_line r.message)

-- `_what`
unfoldable pub what : Runs → Run → String
unfolding label_from_title show strip_prefix first_line digits_of take_chars
what g r =
    if starts "voice-job " r.display_title
    then label_from_title g r.display_title
    else of_event g.python r r.pull_requests

abbrev preview_workflow : String
preview_workflow = "Preview"

-- `[x for x in xs if test(x)]`, for runs
unfoldable pub runs_with : (Run → Bool) → List Run → List Run
runs_with test [] = []
runs_with test (r ∷ rs) = let rest = runs_with test rs in if test r then r ∷ rest else rest

abbrev pub is_preview_of : String → Run → Bool
is_preview_of sha r = r.name == preview_workflow && r.head_sha == sha

abbrev preview_said : String → ℕ → String → String
preview_said repo number state =
    if state == "succeeded"
    then ", preview at " <> (repo <> ("-pr" <> (show number <> ".preview.billandjessie.com")))
    else if state == "running"
    then ", preview deploying"
    else if state == "failed"
    then ", preview failed"
    else ""

abbrev preview_of : String → ℕ → List Run → String
preview_of repo number [] = ""
preview_of repo number (r ∷ rs) = preview_said repo number (run_state r)

-- `_pr_preview`
unfoldable pub pr_preview : String → Pull → List Run → String
unfolding runs_with run_state show
pr_preview repo p runs = preview_of repo p.number (runs_with (is_preview_of p.head_sha) runs)

abbrev pub is_ci_of : String → Run → Bool
is_ci_of sha r =
    r.head_sha == sha && (r.event == "pull_request" && not (r.name == preview_workflow))

-- The set of the states of runs.
unfoldable pub states_of : List Run → List String
unfolding run_state
states_of [] = []
states_of (r ∷ rs) = add_new (run_state r) (states_of rs)

abbrev pub is_passed : String → Bool
is_passed s = s == "succeeded" || s == "was skipped"

abbrev pub ci_said : List String → String
ci_said states =
    if contains states "failed" || contains states "timed out"
    then "CI failed"
    else if contains states "running"
    then "CI running"
    else if all_of is_passed states
    then "CI passed"
    else "CI " <> join ", " (sorted states)

abbrev pub ci_of : List Run → String
ci_of [] = "no CI yet"
ci_of (r ∷ rs) = ci_said (states_of (r ∷ rs))

-- `_pr_ci`
unfoldable pub pr_ci : Pull → List Run → String
unfolding runs_with states_of sorted join
pr_ci p runs = ci_of (runs_with (is_ci_of p.head_sha) runs)

-- `SPOKEN.get(repo, repo)`
abbrev pub spoken : String → String
spoken repo = if repo == "nyc_pa_aws_gitops" then "platform repo" else repo

abbrev pub is_waiting : Run → Bool
is_waiting r = r.status == "waiting"

unfoldable waiting_parts : Runs → List Run → List String
unfolding what
waiting_parts g [] = []
waiting_parts g (r ∷ rs) =
    (r.name <> (" for " <> (what g r <> " is waiting for your approval"))) ∷ waiting_parts g rs

abbrev max_prs : ℕ
max_prs = 3

unfoldable shown : String → List Run → List Pull → List String
unfolding show take_chars pr_ci pr_preview
shown repo runs [] = []
shown repo runs (p ∷ ps) =
    ("#"
      <> (show p.number
          <> (" "
              <> (take_chars 60 p.title
                  <> (" (" <> (pr_ci p runs <> (pr_preview repo p runs <> ")")))))))
    ∷ shown repo runs ps

abbrev more_said : ℕ → String
more_said n = if ltb max_prs n then ", plus " <> (show (n - max_prs) <> " more") else ""

abbrev pulls_part : String → List Run → List Pull → String
pulls_part repo runs [] = "no open PRs"
pulls_part repo runs (p ∷ ps) =
    let n = length (p ∷ ps) in
    show n
    <> (" open PR"
        <> (plural n
            <> (": " <> (join "; " (shown repo runs (take max_prs (p ∷ ps))) <> more_said n))))

abbrev pub is_on_main : Run → Bool
is_on_main r =
    r.head_branch == "main"
    && ((r.event == "push" || r.event == "workflow_dispatch") && not (is_waiting r))

abbrev set_default : Run → Dict Run → Dict Run
set_default r d = if has r.name d then d else set r.name r d

-- The latest run of each workflow on main, where the newest runs come first.
unfoldable pub latest_from : List Run → Dict Run → Dict Run
unfolding has set
latest_from [] d = d
latest_from (r ∷ rs) d =
    let kept = latest_from rs d in
    let added = latest_from rs (set_default r d) in if is_on_main r then added else kept

unfoldable insert_newest : Run → List Run → List Run
insert_newest r [] = r ∷ []
insert_newest r (s ∷ rs) =
    let rest = s ∷ insert_newest r rs in if leb s.created_at r.created_at then r ∷ s ∷ rs else rest

-- `sorted(latest.values(), key=..., reverse=True)`, which keeps the order of equal ones.
unfoldable newest_first : Dict Run → List Run
unfolding insert_newest
newest_first [] = []
newest_first ((name, r) ∷ d) = insert_newest r (newest_first d)

unfoldable main_parts : Runs → ℕ → List Run → List String
unfolding what run_state ago
main_parts g now [] = []
main_parts g now (r ∷ rs) =
    (r.name
      <> (" for " <> (what g r <> (": " <> (run_state r <> (", " <> ago (now - r.created_at)))))))
    ∷ main_parts g now rs

abbrev main_part : Runs → ℕ → List Run → List String
main_part g now [] = []
main_part g now (r ∷ rs) = ("On main: " <> join "; " (main_parts g now (take 3 (r ∷ rs)))) ∷ []

-- `_summarize`
unfoldable pub summarize : Runs → ℕ → String → Repo → String
unfolding runs_with waiting_parts shown latest_from newest_first main_parts join show plural
summarize g now repo found =
    spoken repo
    <> (": "
        <> (join ". " (
              waiting_parts g (runs_with is_waiting found.runs)
              ++ (pulls_part repo found.runs found.pulls
                  ∷ main_part g now (newest_first (latest_from found.runs []))))
            <> "."))
