-- ===== src/HomeMcp/Jobs/Tests.antt =====
-- Runs of `run_job` on a sample registry.
use nyc_pa_aws_gitops.Prelude.{
  ℕ, String, ◌≡◌, refl, Bool, true, false, Option, none, some, List, [], ◌∷◌,
}
use nyc_pa_aws_gitops.Prelude.Dict.{Dict, get}
use nyc_pa_aws_gitops.Prelude.Json.{str}
use nyc_pa_aws_gitops.Prelude.Python.{Python}
use nyc_pa_aws_gitops.Prelude.Results.{ok}
use nyc_pa_aws_gitops.HomeMcp.Jobs.{Settings, Spec, Jobs, Network, load_registry, texts, run_job}
use nyc_pa_aws_gitops.HomeMcp.Jobs.Tokens.{
  Health, Answer, answered, http_error, timestamp, token_warnings,
}
use nyc_pa_aws_gitops.HomeMcp.Jobs.Tokens.Expiry.{Checked, token_warnings-Checked}
use nyc_pa_aws_gitops.HomeMcp.Jobs.Status.{WorkflowRun, Runs, wanted_id, job_status}
use nyc_pa_aws_gitops.HomeMcp.Jobs.Done.{IsDone, job_status-IsDone}
use nyc_pa_aws_gitops.HomeMcp.Jobs.Requests.{SendsOn, registry_of, run_job-SendsOn}

abbrev english : Python
english = record { wide_digit = (λ c. false); container_text = (λ v. "[...]") }

abbrev switched : Settings
switched = record { enabled = true; token = "token" }

abbrev restart_only : Dict Spec
restart_only =
    (
      "restart-app",
      record { say = none; description = none; args = (("app", "todo-app" ∷ "hue" ∷ []) ∷ []) },
    )
    ∷ []

abbrev github : Network
github = record { fetch = (ok restart_only); post = (λ p. ok 204) }

abbrev no_jobs : Jobs
no_jobs = record { at = 0; jobs = []; last_id = ""; last_label = ""; posted = [] }

run_job-SendsOn_example :
    SendsOn switched no_jobs
      (registry_of (load_registry github 5 no_jobs).1)
      (texts english (("app", str "hue") ∷ []))
      (run_job english switched github 5 "vj-1" no_jobs "restart-app" (("app", str "hue") ∷ []))
run_job-SendsOn_example =
    run_job-SendsOn english switched github 5 "vj-1" no_jobs "restart-app" (("app", str "hue") ∷ [])

allowed_sent :
    (run_job english switched github 5 "vj-1" no_jobs "restart-app"
      (("app", str "hue") ∷ [])).0.posted
    ≡ record { job = "restart-app"; args = (("app", "hue") ∷ []); request_id = "vj-1" } ∷ []
unfolding run_job get nyc_pa_aws_gitops.Prelude.sorted nyc_pa_aws_gitops.Prelude.Dict.keys
    nyc_pa_aws_gitops.Prelude.Dict.has nyc_pa_aws_gitops.Prelude.Python.text_of
allowed_sent = refl

other_value_refused :
    (run_job english switched github 5 "vj-1" no_jobs "restart-app"
      (("app", str "db") ∷ [])).0.posted
    ≡ []
unfolding run_job get nyc_pa_aws_gitops.Prelude.sorted nyc_pa_aws_gitops.Prelude.Dict.keys
    nyc_pa_aws_gitops.Prelude.Dict.has nyc_pa_aws_gitops.Prelude.Python.text_of
other_value_refused = refl

abbrev one_run : WorkflowRun
one_run = record {
  id = 7;
  display_title = "voice-job restart-app {} [vj-1]";
  name = "";
  status = "completed";
  conclusion = "success";
}

abbrev run_list : Runs
run_list = record {
  runs = (ok (one_run ∷ []));
  python = english;
  json = (λ t. none);
  jobs = (λ id. ok (8 ∷ 9 ∷ []));
  annotations = (λ j. ok (record { title = "result"; message = "hue is back" } ∷ []));
}

job_status-IsDone_example : IsDone run_list (wanted_id no_jobs "vj-1") "restart-app"
unfolding job_status nyc_pa_aws_gitops.Prelude.join nyc_pa_aws_gitops.HomeMcp.Jobs.values
job_status-IsDone_example =
    job_status-IsDone run_list no_jobs "vj-1" "restart-app" "hue is back" refl

expiry_read : timestamp "2027-10-01 11:00:00 UTC" ≡ some 1822388400
unfolding timestamp
expiry_read = refl

abbrev never_checked : Health
never_checked = record { at = 0; warnings = "old" ∷ [] }

abbrev accepted : Answer
accepted = record { status = 200; expiration = some "2027-10-01 11:00:00 UTC" }

ten_days :
    (token_warnings switched 5 1821524400000000 (answered accepted) never_checked).0
    ≡ ok ("the voice jobs GitHub token expires in 10 days" ∷ [])
unfolding token_warnings
ten_days = refl

kept_warnings :
    (token_warnings switched 5 1821524400000000 http_error never_checked).0 ≡ ok ("old" ∷ [])
unfolding token_warnings
kept_warnings = refl

token_warnings-Checked_example :
    Checked 5 1821524400000000 1822388400
      (token_warnings switched 5 1821524400000000 (answered accepted) never_checked)
unfolding timestamp
token_warnings-Checked_example =
    token_warnings-Checked switched 5 1821524400000000 accepted never_checked
      "2027-10-01 11:00:00 UTC" 1822388400 refl refl refl refl refl refl refl
