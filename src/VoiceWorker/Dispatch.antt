-- ===== src/VoiceWorker/Dispatch.antt =====
-- compose/nuc/voice-worker/dispatch.py. The files of `queue/` and `status/` are dicts from the stem
-- of a file's name to its content.
pub mod Admission
pub mod Effect
pub mod Reading
use Prim.Native.Nat.{Ordering}
use Prim.Native.String.{count, compare}
use nyc_pa_aws_gitops.Prelude.{
  ℕ, zero, suc, ◌*◌, String, ◌<>◌, Bool, true, false, not, ◌&&◌, ◌||◌, Option, none, some, List, [],
  ◌∷◌, ◌++◌, map, ◌==◌, ltb, leb, eqb, if◌then◌else◌, length, take, keep, contains, all_chars,
  is_digit, is_lower, strip, split, take_chars, drop_chars, show,
}
use nyc_pa_aws_gitops.Prelude.Dict.{Dict, get, set, keys, has}
use nyc_pa_aws_gitops.Prelude.Json.{Json, null, str, num, obj, to_dict, truthy}
use nyc_pa_aws_gitops.Prelude.Results.{Result, ok, err, ◌>>=◌, ◌>>◌, reject_if}
use nyc_pa_aws_gitops.Prelude.Python.{Python, text_of}

-- `/etc/voice-worker/config.json`, as far as this script reads it.
pub record Config : Type 0 where
  pub allowed_repos : List String
  pub max_active : ℕ

pub record Disk : Type 0 where
  pub queue : Dict (Dict Json)
  pub status : Dict (Dict Json)
  pub health : Option Json

-- What the script prints, without the wording of its errors. `crash` is an uncaught exception.
pub data Reply : Type 0 where
  bad_json bad_length bad_id no_tasks null_task no_health usage crash : Reply
  not_allowed : Json → Reply
  too_many : ℕ → Reply
  queued : String → Reply
  no_task : String → Reply
  task : Dict Json → Reply
  tasks : List (Dict Json) → Reply
  health : Json → Reply

-- The exit status: the second argument of `out`.
unfoldable pub exit_code : Reply → ℕ
exit_code bad_json = 2
exit_code bad_length = 2
exit_code bad_id = 2
exit_code usage = 2
exit_code (not_allowed repo) = 2
exit_code (too_many n) = 3
exit_code (no_task id) = 4
exit_code crash = 1
exit_code _ = 0

-- `MAX_INSTRUCTIONS`
abbrev pub max_instructions : ℕ
max_instructions = 4000

-- `ID_RE`, for a text with no line break
unfoldable pub is_task_id : String → Bool
is_task_id id =
    eqb (count id) 20
    && (all_chars is_digit (take_chars 8 id)
        && (take_chars 1 (drop_chars 8 id) == "-"
            && (all_chars is_digit (take_chars 6 (drop_chars 9 id))
                && (take_chars 1 (drop_chars 15 id) == "-"
                    && all_chars (λ c. is_lower c || is_digit c) (drop_chars 16 id)))))

abbrev pub queued_state : String → Dict Json
queued_state id = ("id", str id) ∷ ("state", str "queued") ∷ []

unfoldable pub load_status : Disk → String → Option (Dict Json)
load_status d id =
    if has id d.status
    then get id d.status
    else if has id d.queue
    then some (queued_state id)
    else none

-- `sorted(ids, reverse=True)`, for names that are all different
unfoldable pub insert_down : String → List String → List String
insert_down x [] = x ∷ []
insert_down x (y ∷ ys) =
    let rest = y ∷ insert_down x ys in elim (compare x y) [ Ordering.lt ↦ rest | _ ↦ x ∷ y ∷ ys ]

unfoldable pub sorted_down : List String → List String
unfolding insert_down
sorted_down [] = []
sorted_down (x ∷ xs) = insert_down x (sorted_down xs)

-- The union of the two sets of names.
unfoldable pub task_ids : Disk → List String
task_ids d = keys d.status ++ keep (λ id. not (has id d.status)) (keys d.queue)

-- The tasks that a list of loaded ones really has: `[s for s in recent(n) if s]`
unfoldable pub present : List (Option (Dict Json)) → List (Dict Json)
present [] = []
present (none ∷ xs) = present xs
present (some [] ∷ xs) = present xs
present (some (x ∷ s) ∷ xs) = (x ∷ s) ∷ present xs

unfoldable pub recent : Disk → ℕ → List (Option (Dict Json))
unfolding sorted_down task_ids load_status
recent d n = map (load_status d) (take n (sorted_down (task_ids d)))

-- `s.get("state") in ("queued", "running")`
unfoldable pub is_active : Dict Json → Bool
is_active s = elim (get "state" s) [ some (str t) ↦ t == "queued" || t == "running" | _ ↦ false ]

unfoldable pub active : Disk → ℕ
unfolding recent present is_active
active d = length (keep is_active (present (recent d 20)))

-- What a request brings along: `json.loads` of the first characters of the input, none where they
-- are no JSON, and for a new task the time stamp, the random suffix and the time.
pub record Input : Type 0 where
  pub request : Option Json
  pub stamp : String
  pub suffix : String
  pub now : ℕ

-- `(req.get("instructions") or "").strip()`
unfoldable pub instructions_of : Option Json → Result Reply String
unfolding truthy strip
instructions_of none = ok ""
instructions_of (some (str t)) = ok (strip t)
instructions_of (some v) = if truthy v then err crash else ok ""

-- `repo in CONFIG["allowed_repos"]`
unfoldable pub is_allowed_repo : Config → Json → Bool
is_allowed_repo c (str r) = contains c.allowed_repos r
is_allowed_repo c v = false

abbrev pub or_json : Option Json → Json → Json
or_json none d = d
or_json (some v) d = v

-- The file that a request puts in the queue.
abbrev pub new_task : Python → Dict Json → String → Input → String → Dict Json
new_task py req instructions i id =
    ("id", str id)
    ∷ ("repo", or_json (get "repo" req) (str ""))
    ∷ ("instructions", str instructions)
    ∷ ("requested_by", str (take_chars 64 (text_of py (or_json (get "requested_by" req) (str "")))))
    ∷ ("queued_at", num (show i.now))
    ∷ []

abbrev pub new_id : Input → String
new_id i = i.stamp <> ("-" <> i.suffix)

-- `cmd == "start"`: the checks, in order, and then the task that is to be queued.
unfoldable pub admit_request :
    Python → Config → Disk → Input → Option Json → Result Reply (Dict Json)
unfolding instructions_of is_allowed_repo active
admit_request py c d i (some (obj fs)) = do
  let req = to_dict fs
  instructions ← instructions_of (get "instructions" req)
  let repo = or_json (get "repo" req) (str "")
  reject_if (not (is_allowed_repo c repo)) (not_allowed repo)
  reject_if (instructions == "" || ltb max_instructions (count instructions)) bad_length
  reject_if (leb c.max_active (active d)) (too_many (active d))
  ok (new_task py req instructions i (new_id i))
admit_request py c d i none = err bad_json
admit_request py c d i (some v) = err crash

abbrev pub admit : Python → Config → Disk → Input → Result Reply (Dict Json)
admit py c d i = admit_request py c d i i.request

-- The answer, and the file that the queue gets.
unfoldable pub enqueue : Disk → String → Result Reply (Dict Json) → Disk × Reply
enqueue d id (err r) = (d, r)
enqueue d id (ok t) = (record d { queue = set id t d.queue }, queued id)

abbrev pub start : Python → Config → Disk → Input → Disk × Reply
start py c d i = enqueue d (new_id i) (admit py c d i)

-- What `status` prints with no id, and with one.
unfoldable pub latest_reply : List (Option (Dict Json)) → Reply
latest_reply [] = no_tasks
latest_reply (some s ∷ rest) = task s
latest_reply (none ∷ rest) = null_task

unfoldable pub task_reply : String → List (Dict Json) → Reply
task_reply id [] = no_task id
task_reply id (s ∷ rest) = task s

unfoldable pub health_reply : Option Json → Reply
health_reply none = no_health
health_reply (some h) = health h

-- `cmd == "status"` with the rest of the words.
unfoldable pub status : Disk → List String → Reply
unfolding recent load_status is_task_id present latest_reply task_reply
status d [] = latest_reply (recent d 1)
status d (id ∷ words) =
    if not (is_task_id id) then bad_id else task_reply id (present (load_status d id ∷ []))

-- `main`: the words of `SSH_ORIGINAL_COMMAND`, and what is printed.
unfoldable pub dispatch : Python → Config → Disk → Input → List String → Disk × Reply
unfolding status recent present health_reply
dispatch py c d i [] = (d, usage)
dispatch py c d i (cmd ∷ words) =
    if cmd == "start"
    then start py c d i
    else if cmd == "status"
    then (d, status d words)
    else if cmd == "list"
    then (d, tasks (present (recent d 5)))
    else if cmd == "health"
    then (d, health_reply d.health)
    else (d, usage)
