-- ===== src/HomeMcp/Tasks/Sending.antt =====
-- What `start_task` sends.
use nyc_pa_aws_gitops.Prelude.{
  String, ◌≡◌, refl, sym, subst, Bool, true, false, not, Option, none, some, List, [], ◌∷◌, ◌++◌,
  ◌==◌, if◌then◌else◌, contains, Bool-cases, ◌⊎◌, inl, inr,
}
use nyc_pa_aws_gitops.Prelude.Results.{Result, ok}
use nyc_pa_aws_gitops.Prelude.Dict.{Dict, get}
use nyc_pa_aws_gitops.Prelude.Json.{Json}
use nyc_pa_aws_gitops.HomeMcp.Tasks.{
  Hub, Command, Sent, ssh, output_of, failure, email, start_command, started_subject, started,
  start_answer, start_task,
}

-- What is sent for a task: nothing; or, when tasks are switched on, the repository is one of the list and
-- the key is there, the one command to start it, and then at most one e-mail, only when the worker's answer
-- has no error and an id.
pub data Sends (h : Hub) (repo instructions user : String) (before : Sent) : Sent → Type 0 where
  nothing : Sends h repo instructions user before before
  command :
      (emails : List String)
      → h.enabled ≡ true
      → contains h.allowed repo ≡ true
      → h.ssh_ready ≡ true
      → (emails ≡ before.emails)
        ⊎ ((subject : String) × (id : Json) × (emails ≡ before.emails ++ (subject ∷ []))
            × (get "error" (output_of "30" (h.worker (start_command repo instructions user)))
                ≡ none)
            × (get "id" (output_of "30" (h.worker (start_command repo instructions user)))
                ≡ some id))
      → Sends h repo instructions user before (record {
        commands = before.commands ++ (start_command repo instructions user ∷ []);
        emails = emails;
      })

after_id :
    (h : Hub) (repo instructions user : String) (before : Sent) (d : Dict Json) (id : Option Json)
    → output_of "30" (h.worker (start_command repo instructions user)) ≡ d
    → get "error" d ≡ none
    → get "id" d ≡ id
    → h.enabled ≡ true
    → contains h.allowed repo ≡ true
    → h.ssh_ready ≡ true
    → Sends h repo instructions user before
        (started h repo id (record {
          commands = before.commands ++ (start_command repo instructions user ∷ []);
          emails = before.emails;
        })).1
unfolding email
after_id h repo instructions user before d none same error found on allowed ready =
    command before.emails on allowed ready (inl refl)
after_id h repo instructions user before d (some id) same error found on allowed ready =
    elim (Bool-cases (h.smtp_password == "")) [
      | inl e ↦ rw e (command before.emails on allowed ready (inl refl))
      | inr e ↦ rw e (
          command (before.emails ++ (started_subject h repo id ∷ [])) on allowed ready (
            inr (
              _,
              id,
              refl,
              subst (λ z. get "error" z ≡ none) (sym same) error,
              subst (λ z. get "id" z ≡ some id) (sym same) found,
            )))
    ]

after_start :
    (h : Hub) (repo instructions user : String) (before : Sent) (d : Dict Json) (o : Option Json)
    → output_of "30" (h.worker (start_command repo instructions user)) ≡ d
    → get "error" d ≡ o
    → h.enabled ≡ true
    → contains h.allowed repo ≡ true
    → h.ssh_ready ≡ true
    → Sends h repo instructions user before
        (start_answer h repo d o (record {
          commands = before.commands ++ (start_command repo instructions user ∷ []);
          emails = before.emails;
        })).1
after_start h repo instructions user before d (some e) same error on allowed ready =
    command before.emails on allowed ready (inl refl)
after_start h repo instructions user before d none same error on allowed ready =
    after_id h repo instructions user before d (get "id" d) same error refl on allowed ready

-- `ssh` by whether the key is there.
abbrev ssh_by : Hub → Bool → Command → Sent → Dict Json × Sent
ssh_by h ready c before =
    if ready
    then (
      output_of "30" (h.worker c),
      record { commands = before.commands ++ (c ∷ []); emails = before.emails },
    )
    else (failure "voice worker SSH credentials aren't configured on the hub", before)

start_cases :
    (h : Hub) (repo instructions user : String) (before : Sent) (off_text only_text : String)
    (on allowed ready : Bool)
    → h.enabled ≡ on
    → contains h.allowed repo ≡ allowed
    → h.ssh_ready ≡ ready
    → Sends h repo instructions user before
        (if◌then◌else◌ {A = Result String String × Sent}
          (not on)
          (ok off_text, before)
          (if◌then◌else◌ {A = Result String String × Sent}
            (not allowed)
            (ok only_text, before)
            (start_answer h repo
              (ssh_by h ready (start_command repo instructions user) before).0
              (get "error" (ssh_by h ready (start_command repo instructions user) before).0)
              (ssh_by h ready (start_command repo instructions user) before).1))).1
unfolding get
start_cases h repo instructions user before off_text only_text false allowed ready e1 e2 e3 =
    nothing
start_cases h repo instructions user before off_text only_text true false ready e1 e2 e3 = nothing
start_cases h repo instructions user before off_text only_text true true false e1 e2 e3 = nothing
start_cases h repo instructions user before off_text only_text true true true e1 e2 e3 =
    after_start h repo instructions user before
      (output_of "30" (h.worker (start_command repo instructions user)))
      (get "error" (output_of "30" (h.worker (start_command repo instructions user)))) refl refl e1
      e2 e3

-- What `start_task` sends: nothing; or the one command to start the task, when tasks are switched on, the
-- repository is one of the list and the key is there, and with it at most one e-mail, when the worker's
-- answer has no error and an id.
pub start_task-Sends :
    (h : Hub) (repo instructions user : String) (before : Sent)
    → Sends h repo instructions user before (start_task h repo instructions user before).1
unfolding start_task ssh
start_task-Sends h repo instructions user before =
    start_cases h repo instructions user before _ _ h.enabled (contains h.allowed repo) h.ssh_ready
      refl refl refl
