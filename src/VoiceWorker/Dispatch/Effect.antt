-- ===== src/VoiceWorker/Dispatch/Effect.antt =====
-- That only an admitted task changes the files.
use Prim.Native.String.{count}
use nyc_pa_aws_gitops.Prelude.{
  String, ◌≡◌, ◌⊎◌, inl, inr, refl, Bool, true, false, not, ◌||◌, Option, none, some, List, [], ◌∷◌,
  ◌==◌, ltb, leb, if◌then◌else◌, Bool-cases,
}
use nyc_pa_aws_gitops.Prelude.Dict.{Dict, get, set}
use nyc_pa_aws_gitops.Prelude.Json.{Json, null, bool, num, str, arr, obj, to_dict, truthy}
use nyc_pa_aws_gitops.Prelude.Python.{Python}
use nyc_pa_aws_gitops.Prelude.Results.{Result, ok, err, ◌>>=◌, reject_if}
use nyc_pa_aws_gitops.VoiceWorker.Dispatch.{
  Config, Disk, Reply, crash, bad_id, health_reply, latest_reply, task_reply, status, recent,
  present, load_status, is_task_id, Input, queued, bad_length, not_allowed, too_many,
  max_instructions, active, enqueue, instructions_of, is_allowed_repo, or_json, new_id,
  admit_request, admit, start, dispatch,
}
use nyc_pa_aws_gitops.VoiceWorker.Dispatch.Admission.{IsAdmitted, checked}

unfoldable pub is_queued : Reply → Bool
is_queued (queued id) = true
is_queued _ = false

-- An error of the checks is never the answer for a task that is queued.
data Refuses {ℓ} {A : Type ℓ} : Result Reply A → Type ℓ where
  fine : (a : A) → Refuses (ok a)
  why : (r : Reply) → is_queued r ≡ false → Refuses (err r)

Refuses->>= {ℓ κ} :
    {A : Type ℓ} {B : Type κ} (m : Result Reply A) (f : A → Result Reply B)
    → Refuses m
    → ((a : A) → Refuses (f a))
    → Refuses (m >>= f)
Refuses->>= (ok a) f h k = k a
Refuses->>= (err e) f (why _ h) k = why e h

Refuses-reject_if : (b : Bool) (r : Reply) → is_queued r ≡ false → Refuses (reject_if b r)
Refuses-reject_if true r h = why r h
Refuses-reject_if false r h = fine tt

by_truth : (b : Bool) → Refuses (if◌then◌else◌ {A = Result Reply String} b (err crash) (ok ""))
unfolding is_queued
by_truth true = why crash refl
by_truth false = fine ""

instructions_of-Refuses : (v : Option Json) → Refuses (instructions_of v)
unfolding instructions_of is_queued truthy
instructions_of-Refuses none = fine ""
instructions_of-Refuses (some null) = fine ""
instructions_of-Refuses (some (str t)) = fine _
instructions_of-Refuses (some (bool b)) = by_truth (truthy (bool b))
instructions_of-Refuses (some (num t)) = by_truth (truthy (num t))
instructions_of-Refuses (some (arr xs)) = by_truth (truthy (arr xs))
instructions_of-Refuses (some (obj fs)) = by_truth (truthy (obj fs))

module _ (py : Python) (c : Config) (d : Disk) (i : Input) where
  admit_request-Refuses : (o : Option Json) → Refuses (admit_request py c d i o)
  unfolding admit_request is_queued
  admit_request-Refuses none = why _ refl
  admit_request-Refuses (some null) = why _ refl
  admit_request-Refuses (some (bool b)) = why _ refl
  admit_request-Refuses (some (num n)) = why _ refl
  admit_request-Refuses (some (str r)) = why _ refl
  admit_request-Refuses (some (arr xs)) = why _ refl
  admit_request-Refuses (some (obj fs)) =
      let req = to_dict fs in
      let repo = or_json (get "repo" req) (str "") in
      Refuses->>= (instructions_of (get "instructions" req)) _
        (instructions_of-Refuses (get "instructions" req))
        (λ s.
          Refuses->>= (reject_if (not (is_allowed_repo c repo)) (not_allowed repo)) _
            (Refuses-reject_if _ _ refl)
            (λ x.
              Refuses->>= (reject_if (s == "" || ltb max_instructions (count s)) bad_length) _
                (Refuses-reject_if _ _ refl)
                (λ y.
                  Refuses->>= (reject_if (leb c.max_active (active d)) (too_many (active d))) _
                    (Refuses-reject_if _ _ refl) (λ z. fine _))))

  enqueued :
      (id : String) (m : Result Reply (Dict Json))
      → Refuses m
      → ((enqueue d id m).0 ≡ d × (is_queued (enqueue d id m).1 ≡ false))
        ⊎ ((t : Dict Json) × (m ≡ ok t)
            × (enqueue d id m ≡ (record d { queue = set id t d.queue }, queued id)))
  unfolding enqueue
  enqueued id (ok t) h = inr (t, refl, refl)
  enqueued id (err r) (why _ h) = inl (refl, h)

  -- What `dispatch` may do: nothing to the files, and no answer that a task is queued; or an
  -- admitted task in a file of the queue that is named by the task's new id.
  abbrev pub Effect : Disk × Reply → Type 0
  Effect p =
      (p.0 ≡ d × (is_queued p.1 ≡ false))
      ⊎ ((t : Dict Json) × IsAdmitted c d i t
          × (p ≡ (record d { queue = set (new_id i) t d.queue }, queued (new_id i))))

  start-Effect : Effect (start py c d i)
  start-Effect = elim (enqueued (new_id i) (admit py c d i) (admit_request-Refuses i.request)) [
    | inl h ↦ inl h
    | inr (t, e, h) ↦ inr (t, checked py c d i i.request t e, h)
  ]

is_queued-latest_reply : (xs : List (Option (Dict Json))) → is_queued (latest_reply xs) ≡ false
unfolding is_queued latest_reply
is_queued-latest_reply [] = refl
is_queued-latest_reply (some s ∷ rest) = refl
is_queued-latest_reply (none ∷ rest) = refl

is_queued-task_reply :
    (b : Bool) (id : String) (xs : List (Dict Json))
    → is_queued (if not b then bad_id else task_reply id xs) ≡ false
unfolding is_queued task_reply
is_queued-task_reply true id [] = refl
is_queued-task_reply true id (x ∷ rest) = refl
is_queued-task_reply false id xs = refl

is_queued-status : (d : Disk) (words : List String) → is_queued (status d words) ≡ false
unfolding status
is_queued-status d [] = is_queued-latest_reply (recent d 1)
is_queued-status d (id ∷ words) =
    is_queued-task_reply (is_task_id id) id (present (load_status d id ∷ []))

is_queued-health : (h : Option Json) → is_queued (health_reply h) ≡ false
unfolding is_queued health_reply
is_queued-health none = refl
is_queued-health (some h) = refl

module _ (py : Python) (c : Config) (d : Disk) (i : Input) where
  -- Whatever words are sent, `dispatch` either leaves the files as they are and answers with no
  -- task id, or it queues one task: one of an allowed repository, with instructions that are not
  -- empty and at most 4000 characters, at a time when fewer than `max_active` of the 20 latest tasks
  -- are queued or running. The answer has the new task's id, and only the file of that id is written.
  pub dispatch-Effect : (words : List String) → Effect py c d i (dispatch py c d i words)
  unfolding dispatch is_queued
  dispatch-Effect [] = inl (refl, refl)
  dispatch-Effect (cmd ∷ words) = elim (Bool-cases (cmd == "start")) [
    | inl e ↦ rw e (start-Effect py c d i)
    | inr e ↦ rw e elim (Bool-cases (cmd == "status")) [
      | inl g ↦ rw g (inl (refl, is_queued-status d words))
      | inr g ↦ rw g elim (Bool-cases (cmd == "list")) [
        | inl l ↦ rw l (inl (refl, refl))
        | inr l ↦ rw l elim (Bool-cases (cmd == "health")) [
          | inl k ↦ rw k (inl (refl, is_queued-health d.health))
          | inr k ↦ rw k (inl (refl, refl))
        ]
      ]
    ]
  ]
