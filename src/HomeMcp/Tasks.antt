-- ===== src/HomeMcp/Tasks.antt =====
-- compose/aws/home-mcp/tasks.py: the voice tasks, which the worker on nuc4 does. What the worker answers
-- over SSH is a parameter, and so are the float operations and `json.dumps`; the commands and the e-mails
-- that are sent are the state.
pub mod Sending
mod Tests
use nyc_pa_aws_gitops.Prelude.{
  ℕ, String, ◌<>◌, leb, Bool, true, false, not, ◌&&◌, ◌||◌, Option, none, some, List, [], ◌∷◌, ◌++◌,
  ◌==◌, if◌then◌else◌, contains, join, strip, show, plural,
}
use nyc_pa_aws_gitops.Prelude.Results.{Result, ok, err, ◌>>=◌}
use nyc_pa_aws_gitops.Prelude.Dict.{Dict, get}
use nyc_pa_aws_gitops.Prelude.Json.{Json, null, bool, num, str, arr, obj, truthy}
use nyc_pa_aws_gitops.Prelude.Python.{Python, text_of}

-- What a call of `ssh` gives: nothing in time, an output whose last line is no JSON, or the object of
-- that line.
pub data Output : Type 0 where
  late : Output
  broken : Output
  said : Dict Json → Output

-- A command for the worker, with the object that is its input.
pub record Command : Type 0 where
  pub name : String
  pub input : Dict Json

-- Whether tasks are switched on, the repositories, whether the key and the host key are there, and the
-- password for e-mails; how many minutes, rounded, lie behind a time, and the days until one, none when it
-- is past.
pub record Hub : Type 0 where
  pub enabled : Bool
  pub allowed : List String
  pub ssh_ready : Bool
  pub smtp_password : String
  pub python : Python
  pub dumps : Dict Json → String
  pub minutes_since : Option Json → String
  pub days_until : Json → Option ℕ
  pub worker : Command → Output

-- What was sent: the commands, and the subjects of the e-mails.
pub record Sent : Type 0 where
  pub commands : List Command
  pub emails : List String

abbrev pub failure : String → Dict Json
failure text = ("error", str text) ∷ []

abbrev pub output_of : String → Output → Dict Json
output_of seconds late =
    failure ("the worker on nuc4 didn't answer within " <> (seconds <> " seconds"))
output_of seconds broken = failure "couldn't reach the worker on nuc4"
output_of seconds (said d) = d

-- `_ssh`, with the seconds that it waits.
unfoldable pub ssh : Hub → String → Command → Sent → Dict Json × Sent
ssh h seconds c sent =
    if h.ssh_ready
    then (
      output_of seconds (h.worker c),
      record { commands = sent.commands ++ (c ∷ []); emails = sent.emails },
    )
    else (failure "voice worker SSH credentials aren't configured on the hub", sent)

-- `f"{s.get(key, other)}"`
abbrev text_or : Python → String → Option Json → String
text_or py other none = other
text_or py other (some v) = text_of py v

abbrev is_text : String → Option Json → Bool
is_text t (some (str u)) = u == t
is_text t _ = false

abbrev is_given : Option Json → Bool
is_given none = false
is_given (some v) = truthy v

-- `_spoken` of an answer without an error.
abbrev spoken_state : Hub → Dict Json → String
spoken_state h s =
    let id = text_or h.python "?" (get "id" s) in
    let state = get "state" s in
    if is_text "queued" state
    then "Task " <> (id <> " is queued.")
    else if is_text "running" state
    then "Task "
      <> (id
          <> (" is running: "
              <> (text_or h.python "working" (get "step" s)
                  <> (", " <> (h.minutes_since (get "started_at" s) <> " minutes in.")))))
    else if is_text "done" state && is_given (get "pr_url" s)
    then "Task "
      <> (id
          <> (" finished in "
              <> (text_or h.python "None" (get "minutes" s)
                  <> (" minutes. Pull request "
                      <> (text_or h.python "None" (get "pr_number" s)
                          <> (" is open: "
                              <> (text_or h.python "" (get "pr_url" s)
                                  <> (". " <> text_or h.python "" (get "summary" s)))))))))
    else if is_text "done" state
    then "Task " <> (id <> (" finished: " <> text_or h.python "no changes" (get "message" s)))
    else if is_text "failed" state
    then "Task " <> (id <> (" failed: " <> text_or h.python "unknown error" (get "error" s)))
    else h.dumps s

-- `_spoken`
unfoldable pub spoken : Hub → Dict Json → String
unfolding get text_of truthy
spoken h s = elim (get "error" s) [ some e ↦ text_of h.python e | none ↦ spoken_state h s ]

-- `_email`, whose failures are dropped.
unfoldable pub email : Hub → String → Sent → Sent
email h subject sent =
    if h.smtp_password == ""
    then sent
    else record { commands = sent.commands; emails = sent.emails ++ (subject ∷ []) }

abbrev pub start_command : String → String → String → Command
start_command repo instructions user = record {
  name = "start";
  input = ("repo", str repo) ∷ ("instructions", str instructions) ∷ ("requested_by", str user) ∷ [];
}

abbrev pub started_subject : Hub → String → Json → String
started_subject h repo id =
    "[home-mcp] Voice coding task started: " <> (repo <> (" (" <> (text_of h.python id <> ")")))

abbrev pub started : Hub → String → Option Json → Sent → Result String String × Sent
started h repo none sent = (err "KeyError", sent)
started h repo (some id) sent =
    let tid = text_of h.python id in
    (
      ok (
          "Started task "
          <> (tid
              <> (" on "
                  <> (repo
                      <> ". It usually takes 5 to 20 minutes; ask me for its status any time.")))),
      email h (started_subject h repo id) sent,
    )

abbrev pub start_answer :
    Hub → String → Dict Json → Option Json → Sent → Result String String × Sent
start_answer h repo d none sent = started h repo (get "id" d) sent
start_answer h repo d (some e) sent = (ok ("Couldn't start the task: " <> text_of h.python e), sent)

-- `start_task`
unfoldable pub start_task : Hub → String → String → String → Sent → Result String String × Sent
unfolding ssh get text_of email join
start_task h repo instructions user sent =
    if not h.enabled
    then (ok "Voice coding tasks are switched off on the hub right now.", sent)
    else if not (contains h.allowed repo)
    then (ok ("I can only work on " <> (join ", " h.allowed <> " for now.")), sent)
    else start_answer h repo (ssh h "30" (start_command repo instructions user) sent).0
        (get "error" (ssh h "30" (start_command repo instructions user) sent).0)
        (ssh h "30" (start_command repo instructions user) sent).1

-- A command without an input.
abbrev plain : String → Command
plain name = record { name = name; input = [] }

unfoldable spoken_list : Hub → List (Dict Json) → List String
unfolding spoken
spoken_list h [] = []
spoken_list h (t ∷ ts) = spoken h t ∷ spoken_list h ts

abbrev tasks_said : Hub → List (Dict Json) → String
tasks_said h [] = "No voice tasks yet."
tasks_said h (t ∷ ts) = join " " (spoken_list h (t ∷ ts))

abbrev list_said : Hub → List (Dict Json) → Dict Json → Option Json → String
list_said h tasks d none = tasks_said h tasks
list_said h tasks d (some e) = text_of h.python e

-- `task_status`, where `tasks_of` reads the list of tasks of an answer.
unfoldable pub task_status : Hub → (Dict Json → List (Dict Json)) → String → Sent → String × Sent
unfolding ssh get spoken spoken_list text_of strip join
task_status h tasks_of id sent =
    if id == "all"
    then (
      list_said h (tasks_of (ssh h "30" (plain "list") sent).0) (ssh h "30" (plain "list") sent).0
          (get "error" (ssh h "30" (plain "list") sent).0),
      (ssh h "30" (plain "list") sent).1,
    )
    else (
      spoken h (ssh h "30" (plain (strip ("status " <> id))) sent).0,
      (ssh h "30" (plain (strip ("status " <> id))) sent).1,
    )

abbrev warn_days : ℕ
warn_days = 21

abbrev days_said : String → Option ℕ → List String
days_said label none = ("the voice agent's " <> (label <> " has expired")) ∷ []
days_said label (some days) =
    if leb days warn_days
    then ("the voice agent's "
        <> (label <> (" expires in " <> (show days <> (" day" <> plural days)))))
      ∷ []
    else []

abbrev expiry_said : Hub → String → Option Json → List String
expiry_said h label none = []
expiry_said h label (some exp) = if truthy exp then days_said label (h.days_until exp) else []

abbrev is_refused : Option Json → Bool
is_refused (some (bool false)) = true
is_refused _ = false

abbrev failing : Hub → Dict Json → List String
failing h d =
    if is_refused (get "github_token_ok" d) || is_given (get "github_token_error" d)
    then ("the voice agent's GitHub token is failing ("
        <> (text_or h.python "rejected" (get "github_token_error" d) <> ")"))
      ∷ []
    else []

abbrev health_said : Hub → Dict Json → Option Json → List String
health_said h d (some e) =
    ("the voice worker on nuc4 isn't answering (" <> (text_of h.python e <> ")")) ∷ []
health_said h d none =
    failing h d
    ++ (expiry_said h "GitHub token" (get "github_token_expires" d)
        ++ expiry_said h "Claude token" (get "claude_token_expires" d))

-- `token_warnings`
unfoldable pub token_warnings : Hub → Sent → List String × Sent
unfolding ssh get text_of truthy show plural
token_warnings h sent =
    if h.ssh_ready
    then (
      health_said h (ssh h "8" (plain "health") sent).0
          (get "error" (ssh h "8" (plain "health") sent).0),
      (ssh h "8" (plain "health") sent).1,
    )
    else ([], sent)
