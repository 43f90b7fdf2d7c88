-- ===== src/HomeMcp/Github/Tests.antt =====
-- Runs on a sample repository.
use nyc_pa_aws_gitops.Prelude.{◌≡◌, refl, false, none, some, [], ◌∷◌}
use nyc_pa_aws_gitops.Prelude.Results.{ok, err}
use nyc_pa_aws_gitops.HomeMcp.Jobs.Status.{Runs}
use nyc_pa_aws_gitops.HomeMcp.Github.{Run, Pull, Repo, failed, ago, what, pr_ci, summarize}
use nyc_pa_aws_gitops.HomeMcp.Github.Told.{Verdict, pr_ci-Verdict}
use nyc_pa_aws_gitops.HomeMcp.Github.Approvals.{Pending, pending_of-Pending}
use nyc_pa_aws_gitops.HomeMcp.Github.Asking.{Hub, github_status, pending_of, pending_approvals}

abbrev hub_runs : Runs
hub_runs = record {
  python = record { wide_digit = λ c. false; container_text = λ v. "?" };
  json = λ t. none;
  runs = ok [];
  jobs = λ n. ok [];
  annotations = λ n. ok [];
}

abbrev ci_run : Run
ci_run = record {
  name = "CI";
  head_sha = "abc";
  head_branch = "fix";
  status = "completed";
  conclusion = "success";
  event = "pull_request";
  display_title = "Fix it";
  pull_requests = 7 ∷ [];
  message = "Fix it";
  created_at = 0;
}

abbrev deploy : Run
deploy = record {
  name = "Deploy";
  head_sha = "def";
  head_branch = "main";
  status = "waiting";
  conclusion = "";
  event = "push";
  display_title = "Merge";
  pull_requests = [];
  message = "Merge pull request #12 from x\n\nFix it";
  created_at = 100;
}

abbrev tests : Run
tests = record {
  name = "Tests";
  head_sha = "def";
  head_branch = "main";
  status = "completed";
  conclusion = "failure";
  event = "push";
  display_title = "Merge";
  pull_requests = [];
  message = "Merge pull request #12 from x\n\nFix it";
  created_at = 100;
}

abbrev fix : Pull
fix = record { number = 7; title = "Fix it"; head_sha = "abc" }

abbrev hue : Repo
hue = record { pulls = fix ∷ []; runs = deploy ∷ tests ∷ ci_run ∷ [] }

two_hours : ago 7300 ≡ "2 hours ago"
unfolding ago
two_hours = refl

merge_named : what hub_runs deploy ≡ "PR #12"
unfolding what
merge_named = refl

hue_told :
    summarize hub_runs 7400 "hue" hue
    ≡ "hue: Deploy for PR #12 is waiting for your approval. 1 open PR: #7 Fix it (CI passed). On main: Tests for PR #12: failed, 2 hours ago."
unfolding summarize
hue_told = refl

abbrev hub : Hub
hub = record {
  pulls =
      λ repo. ok (record { status = 200; remaining = "9"; reset = ""; error = none; value = [] });
  runs = λ repo. ok (record {
    status = 403;
    remaining = "0";
    reset = "120";
    error = some "HTTPStatusError";
    value = [];
  });
}

limited_told :
    (github_status hub_runs hub 1000000 2000000 ("hue" ∷ []) " Hue " []).0
    ≡ "hue: GitHub's rate limit is used up, try again in about 2 minutes."
unfolding github_status
limited_told = refl

limited_pending : (pending_approvals hub_runs hub 0 0 ("hue" ∷ []) []).0 ≡ none
unfolding pending_approvals
limited_pending = refl

pr_ci-Verdict_example : Verdict "abc" hue.runs (pr_ci fix hue.runs)
pr_ci-Verdict_example = pr_ci-Verdict fix hue.runs

pending_of-Pending_example :
    Pending hub_runs
      (("hue", ok hue) ∷ ("todo-app", err (failed "ConnectError")) ∷ [])
      (pending_of hub_runs (("hue", ok hue) ∷ ("todo-app", err (failed "ConnectError")) ∷ []))
pending_of-Pending_example =
    pending_of-Pending hub_runs (("hue", ok hue) ∷ ("todo-app", err (failed "ConnectError")) ∷ [])
