-- ===== src/HomeMcp/Tasks/Tests.antt =====
-- A task that is started and one that has failed.
use nyc_pa_aws_gitops.Prelude.{◌≡◌, refl, true, false, some, [], ◌∷◌, ◌==◌, if◌then◌else◌}
use nyc_pa_aws_gitops.Prelude.Results.{ok}
use nyc_pa_aws_gitops.Prelude.Json.{num, str, bool}
use nyc_pa_aws_gitops.HomeMcp.Tasks.{
  Hub, said, Sent, start_command, spoken, start_task, token_warnings,
}
use nyc_pa_aws_gitops.HomeMcp.Tasks.Sending.{Sends, start_task-Sends}

abbrev hub : Hub
hub = record {
  enabled = true;
  allowed = "todo-app" ∷ [];
  ssh_ready = true;
  smtp_password = "secret";
  python = record { wide_digit = λ c. false; container_text = λ v. "?" };
  dumps = λ d. "{}";
  minutes_since = λ t. "3";
  days_until = λ t. some 5;
  worker = λ c.
      (if c.name == "start"
        then said (("id", str "t1") ∷ [])
        else said (("github_token_ok", bool false) ∷ ("claude_token_expires", num "9") ∷ []));
}

abbrev unsent : Sent
unsent = record { commands = []; emails = [] }

started_told : (start_task hub "todo-app" "Fix it" "bill" unsent) ≡ (
  ok
      "Started task t1 on todo-app. It usually takes 5 to 20 minutes; ask me for its status any time.",
  record {
    commands = start_command "todo-app" "Fix it" "bill" ∷ [];
    emails = "[home-mcp] Voice coding task started: todo-app (t1)" ∷ [];
  },
)
unfolding start_task
started_told = refl

failed_told :
    spoken hub (("id", str "t1") ∷ ("state", str "failed") ∷ ("error", str "GitHub API 502") ∷ [])
    ≡ "GitHub API 502"
unfolding spoken
failed_told = refl

tokens_told :
    (token_warnings hub unsent).0
    ≡ "the voice agent's GitHub token is failing (rejected)"
      ∷ "the voice agent's Claude token expires in 5 days" ∷ []
unfolding token_warnings
tokens_told = refl

start_task-Sends_example :
    Sends hub "todo-app" "Fix it" "bill" unsent (start_task hub "todo-app" "Fix it" "bill" unsent).1
start_task-Sends_example = start_task-Sends hub "todo-app" "Fix it" "bill" unsent
