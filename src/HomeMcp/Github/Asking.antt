-- ===== src/HomeMcp/Github/Asking.antt =====
-- compose/aws/home-mcp/github_status.py: the requests with their cache, `github_status` and
-- `pending_approvals`. What GitHub answers is a parameter; times are in microseconds.
use Prim.Native.Char.{char}
use nyc_pa_aws_gitops.Prelude.{
  ℕ, ◌+◌, ◌-◌, ◌*◌, ◌/◌, max, code, String, ◌<>◌, Bool, true, false, ◌&&◌, ◌||◌, Option, none, some,
  List, [], ◌∷◌, ◌++◌, ◌==◌, ltb, eqb, if◌then◌else◌, contains, strip, join, show, all_chars,
  is_digit, is_nonempty,
}
use nyc_pa_aws_gitops.Prelude.Results.{Result, ok, err, ◌>>=◌}
use nyc_pa_aws_gitops.Prelude.Dict.{Dict, get, set}
use nyc_pa_aws_gitops.Prelude.Letters.{lower}
use nyc_pa_aws_gitops.HomeMcp.Jobs.Status.{Runs}
use nyc_pa_aws_gitops.HomeMcp.Github.{
  Run, Repo, Pull, Trouble, rate_limited, failed, what, spoken, is_waiting, summarize,
}

abbrev pub second : ℕ
second = 1000000

abbrev pub Asked {ℓ} : Type ℓ → Type ℓ
Asked A = Result Trouble A

-- A response: its status, the headers on the rate limit, whether it stands for an error with the name
-- of the exception, and its value.
pub record Response (A : Type 0) : Type 0 where
  pub status : ℕ
  pub remaining : String
  pub reset : String
  pub error : Option String
  pub value : A

abbrev raised : {A : Type 0} → Option String → A → Asked A
raised none v = ok v
raised (some name) v = err (failed name)

-- `_get`
unfoldable pub answer_of : {A : Type 0} → Asked (Response A) → Asked A
answer_of (err e) = err e
answer_of (ok r) =
    if (eqb r.status 403 || eqb r.status 429) && r.remaining == "0"
    then err (rate_limited r.reset)
    else raised r.error r.value

-- The two requests for a repository: its open pull requests and its runs.
pub record Hub : Type 0 where
  pub pulls : String → Asked (Response (List Pull))
  pub runs : String → Asked (Response (List Run))

abbrev cache_time : ℕ
cache_time = 60 * second

abbrev pub Cache : Type 0
Cache = Dict (ℕ × Repo)

abbrev asked : ℕ → String → Cache → Asked Repo → Asked Repo × Cache
asked done repo cache (err e) = (err e, cache)
asked done repo cache (ok v) = (ok v, set repo (done, v) cache)

abbrev ask_both : Hub → String → Asked Repo
ask_both h repo = do
  pulls ← answer_of (h.pulls repo)
  runs ← answer_of (h.runs repo)
  ok (record { pulls = pulls; runs = runs })

abbrev fetched : Hub → ℕ → ℕ → String → Cache → Option (ℕ × Repo) → Asked Repo × Cache
fetched h now done repo cache none = asked done repo cache (ask_both h repo)
fetched h now done repo cache (some (at, v)) =
    if ltb (now - at) cache_time then (ok v, cache) else asked done repo cache (ask_both h repo)

-- `_fetch` at the time `now`, where an answer comes at the time `done`.
unfoldable pub fetch : Hub → ℕ → ℕ → String → Cache → Asked Repo × Cache
unfolding get set answer_of
fetch h now done repo cache = fetched h now done repo cache (get repo cache)

-- `_fetch` of each repository.
unfoldable pub fetch_all : Hub → ℕ → ℕ → List String → Cache → List (String × Asked Repo) × Cache
unfolding fetch
fetch_all h now done [] cache = ([], cache)
fetch_all h now done (r ∷ rs) cache =
    let one = fetch h now done r cache in
    let rest = fetch_all h now done rs one.1 in ((r, one.0) ∷ rest.0, rest.1)

unfoldable number_of : ℕ → String → ℕ
number_of n String.[] = n
number_of n (String.◌∷◌ c s) = number_of (n * 10 + (code c - b'0')) s

-- The minutes until the limit is reset, at least one.
abbrev reset_said : ℕ → String → String
reset_said now reset =
    if is_nonempty reset && all_chars is_digit reset
    then ", try again in about "
      <> (show (max 1 ((number_of 0 reset * second - now) / (60 * second) + 1)) <> " minutes")
    else ""

-- What is said of a repository.
unfoldable pub said : Runs → ℕ → String → Asked Repo → String
unfolding summarize show number_of is_nonempty all_chars
said g now repo (err (rate_limited reset)) =
    spoken repo <> (": GitHub's rate limit is used up" <> (reset_said now reset <> "."))
said g now repo (err (failed name)) = spoken repo <> (": couldn't reach GitHub (" <> (name <> ")."))
said g now repo (ok found) = summarize g (now / second) repo found

unfoldable said_all : Runs → ℕ → List (String × Asked Repo) → List String
unfolding said
said_all g now [] = []
said_all g now ((r, res) ∷ rs) = said g now r res ∷ said_all g now rs

-- The spoken forms and the names of the repositories, in lower case.
unfoldable wanted_names : List String → Dict String → Dict String
unfolding set lower
wanted_names [] d = d
wanted_names (r ∷ rs) d = wanted_names rs (set (lower r) r d)

abbrev spoken_names : Dict String
spoken_names =
    ("platform repo", "nyc_pa_aws_gitops") ∷ ("todo-app", "todo-app") ∷ ("hue", "hue") ∷ []

-- `s.replace(" ", "-")`
unfoldable dashed : String → String
dashed String.[] = String.[]
dashed (String.◌∷◌ c s) = String.◌∷◌ (if eqb (code c) b' ' then char 45 tt else c) (dashed s)

abbrev or_else : Option String → Option String → Option String
or_else none o = o
or_else (some k) o = if k == "" then o else some k

abbrev allowed : List String → Option String → Option String
allowed repos none = none
allowed repos (some k) = if contains repos k then some k else none

-- `key`, when it is one of the repositories.
unfoldable pub repo_named : List String → String → Option String
unfolding get wanted_names lower dashed
repo_named repos repo =
    let wanted = wanted_names repos spoken_names in
    allowed repos (or_else (get (lower repo) wanted) (get (dashed (lower repo)) wanted))

abbrev spoken_all : List String → List String
spoken_all [] = []
spoken_all (r ∷ rs) = spoken r ∷ spoken_all rs

abbrev repos_asked : List String → String → Option (List String)
repos_asked repos repo =
    if repo == ""
    then some repos
    else elim (repo_named repos repo) [ none ↦ none | some k ↦ some (k ∷ []) ]

-- `github_status`, where the repositories are `repos`.
unfoldable pub github_status : Runs → Hub → ℕ → ℕ → List String → String → Cache → String × Cache
unfolding fetch_all said_all repo_named strip join
github_status g h now done repos repo cache = elim (repos_asked repos (strip repo)) [
  | none ↦ ("I can check " <> (join ", " (spoken_all repos) <> "."), cache)
  | some rs ↦ (
    join " " (said_all g now (fetch_all h now done rs cache).0),
    (fetch_all h now done rs cache).1,
  )
]

-- The phrase for a run that waits.
abbrev pub approval : Runs → String → Run → String
approval g repo r = spoken repo <> (" " <> (r.name <> (" for " <> what g r)))

unfoldable pub approvals_of : Runs → String → List Run → List String
unfolding what
approvals_of g repo [] = []
approvals_of g repo (r ∷ rs) =
    let rest = approvals_of g repo rs in if is_waiting r then approval g repo r ∷ rest else rest

abbrev pub approvals_in : Runs → String → Asked Repo → List String
approvals_in g repo (err e) = []
approvals_in g repo (ok found) = approvals_of g repo found.runs

unfoldable pub approvals : Runs → List (String × Asked Repo) → List String
unfolding approvals_of
approvals g [] = []
approvals g ((repo, res) ∷ rs) = approvals_in g repo res ++ approvals g rs

abbrev pub is_failed : Asked Repo → Bool
is_failed (err e) = true
is_failed (ok found) = false

unfoldable pub all_failed : List (String × Asked Repo) → Bool
all_failed [] = true
all_failed ((repo, res) ∷ rs) = is_failed res && all_failed rs

-- `pending_approvals` of the results for the repositories.
unfoldable pub pending_of : Runs → List (String × Asked Repo) → Option (List String)
unfolding all_failed approvals
pending_of g results = if all_failed results then none else some (approvals g results)

-- `pending_approvals`
unfoldable pub pending_approvals :
    Runs → Hub → ℕ → ℕ → List String → Cache → Option (List String) × Cache
unfolding fetch_all pending_of
pending_approvals g h now done repos cache =
    let results = fetch_all h now done repos cache in (pending_of g results.0, results.1)
