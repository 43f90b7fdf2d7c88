-- ===== src/VoiceWorker/Queue.antt =====
-- The queue that `dispatch.py` fills and `runner.py` empties (compose/nuc/voice-worker).
pub mod Drain
pub mod History
use nyc_pa_aws_gitops.Prelude.{
  ℕ, zero, suc, ◌≤◌, ◌<◌, String, ◌≡◌, ◌≢◌, ◌⊎◌, inl, inr, refl, sym, ap, subst, ◌∙◌, Bool, true,
  false, not, Option, none, some, List, [], ◌∷◌, ◌==◌, eq_iff, arith, if◌then◌else◌, length, ◌<>◌,
  str_le, Bool-cases, Option-cases, keep, All,
}
use nyc_pa_aws_gitops.Prelude.Dict.{Dict, get, set, pop, keep_keys, keys, has}
use nyc_pa_aws_gitops.Prelude.DictLaws.{get-set, get-keep_keys}
use nyc_pa_aws_gitops.Prelude.Json.{Json, str}
use nyc_pa_aws_gitops.Prelude.Python.{Python}
use nyc_pa_aws_gitops.VoiceWorker.Dispatch.{Config, Disk, Input, Reply, dispatch}
use nyc_pa_aws_gitops.VoiceWorker.Dispatch.Admission.{IsAdmitted}
use nyc_pa_aws_gitops.VoiceWorker.Dispatch.Effect.{Effect, dispatch-Effect}
use nyc_pa_aws_gitops.VoiceWorker.Runner.{Tools, is_forbidden}
use nyc_pa_aws_gitops.VoiceWorker.Runner.State.{Push, PullRequest}
use nyc_pa_aws_gitops.VoiceWorker.Runner.Loop.{
  World, Turn, idle, crashed, served, first_file, earlier, serve_found, serve_named, serve_task,
  serve,
}
use nyc_pa_aws_gitops.VoiceWorker.Runner.Serving.{IsServed, serve_task-IsServed}

-- Every file of the queue holds a task with the id that names the file.
abbrev pub WellQueued : Disk → Type 0
WellQueued d = (k : String) (t : Dict Json) → get k d.queue ≡ some t → get "id" t ≡ some (str k)

some_inj : {A : Type 0} {a b : A} → some a ≡ some b → a ≡ b
some_inj h = cc

some-none : {A : Type 0} (a : A) → some a ≢ none
some-none a h = cc

absurd_key : {A : Type 0} (n k : String) → n ≡ k → (n == k) ≡ false → A
absurd_key n k e h = ground (arith, eq_iff n k)

queued_WellQueued :
    (d : Disk) (id : String) (t : Dict Json)
    → WellQueued d
    → get "id" t ≡ some (str id)
    → WellQueued (record d { queue = set id t d.queue })
queued_WellQueued d id t h e k u g = elim (Bool-cases (k == id)) [
  | inl x ↦ ground (arith, get-set k id t d.queue, eq_iff k id)
  | inr x ↦ h k u (sym (ground (arith, get-set k id t d.queue)) ∙ g)
]

module _ (py : Python) (c : Config) (d : Disk) (i : Input) where
  of_Effect : (p : Disk × Reply) → Effect py c d i p → WellQueued d → WellQueued p.0
  of_Effect p (inl (e, q)) h = subst WellQueued (sym e) h
  of_Effect p (inr (t, adm, e)) h =
      subst WellQueued (sym (ap (λ (p : Disk × Reply). p.0) e))
        (queued_WellQueued d _ t h adm.id_kept)

  -- Whatever words are sent to `dispatch`, every file of the queue still holds a task with the id
  -- that names the file, when it was so before.
  pub dispatch-WellQueued :
      (words : List String) → WellQueued d → WellQueued (dispatch py c d i words).0
  dispatch-WellQueued words h =
      of_Effect (dispatch py c d i words) (dispatch-Effect py c d i words) h

earlier-cases : (k n : String) (o : Option String) → earlier k o ≡ some n → (n ≡ k) ⊎ (o ≡ some n)
earlier-cases k n none h = inl cc
earlier-cases k n (some y) h = elim (Bool-cases (str_le (k <> ".json") (y <> ".json"))) [
  | inl e ↦ inl (some_inj (sym (rw e at h)))
  | inr e ↦ inr (rw e at h)
]

first_file-has :
    (q : Dict (Dict Json)) (n : String)
    → first_file (keys q) ≡ some n
    → (t : Dict Json) × (get n q ≡ some t)
unfolding first_file keys get
first_file-has [] n h = cc
first_file-has ((k, t) ∷ q) n h = elim (Bool-cases (n == k)) [
  | inl e ↦ (t, rw e refl)
  | inr e ↦ elim (earlier-cases k n (first_file (keys q)) h) [
    | inl x ↦ absurd_key n k x e
    | inr x ↦ (let (u, g) = first_file-has q n x in (u, rw e g))
  ]
]

earlier-some : (k : String) (o : Option String) → earlier k o ≢ none
earlier-some k none h = cc
earlier-some k (some y) h = elim (Bool-cases (str_le (k <> ".json") (y <> ".json"))) [
  | inl e ↦ some-none k (rw e at h)
  | inr e ↦ some-none y (rw e at h)
]

first_file-none : (q : Dict (Dict Json)) → first_file (keys q) ≡ none → q ≡ []
unfolding first_file keys
first_file-none [] h = refl
first_file-none ((k, t) ∷ q) h = elim (earlier-some k (first_file (keys q)) h) [ ]

length-keep_keys :
    (test : String → Bool) (q : Dict (Dict Json)) → length (keep_keys test q) ≤ length q
unfolding keep_keys
length-keep_keys test [] = ground arith
length-keep_keys test ((k, t) ∷ q) = ground (arith, length-keep_keys test q)

-- Taking a file off the queue makes it shorter.
pub length-pop :
    (q : Dict (Dict Json)) (n : String) (t : Dict Json)
    → get n q ≡ some t
    → length (pop n q) < length q
unfolding get keep_keys pop
length-pop [] n t h = cc
length-pop ((k, u) ∷ q) n t h =
    ground (arith, length-pop q n t, length-keep_keys (λ j. not (n == j)) q)

pub pop-WellQueued :
    (d : Disk) (n : String) → WellQueued d → WellQueued (record d { queue = pop n d.queue })
unfolding pop
pop-WellQueued d n h k t g = h k t (ground (arith, get-keep_keys (λ j. not (n == j)) k d.queue, g))

serve_found-IsServed :
    (w : Tools) (v : World) (n : String) (t : Dict Json) (o : Option (Dict Json))
    → o ≡ some t
    → get "id" t ≡ some (str n)
    → (v' : World) × (serve_found w v n o ≡ served v') × IsServed w v n t v'
serve_found-IsServed w v n t o e h = rw e (serve_task-IsServed w v n t h)

-- The file that a turn takes, and the world after it.
pub record HasServed (w : Tools) (v v' : World) : Type 0 where
  pub name : String
  pub task : Dict Json
  pub taken : get name v.disk.queue ≡ some task
  pub done : IsServed w v name task v'

pub serve-cases :
    (w : Tools) (v : World)
    → WellQueued v.disk
    → ((serve w v ≡ idle) × (v.disk.queue ≡ []))
      ⊎ ((v' : World) × (serve w v ≡ served v') × HasServed w v v')
unfolding serve
serve-cases w v h = elim (Option-cases (first_file (keys v.disk.queue))) [
  | inl e ↦ inl (rw e refl, first_file-none v.disk.queue e)
  | inr (n, e) ↦
      (let (t, g) = first_file-has v.disk.queue n e in
        let (v', x, y) = serve_found-IsServed w v n t (get n v.disk.queue) g (h n t g) in
        inr (v', rw e x, record { name = n; task = t; taken = g; done = y }))
]

pub served-WellQueued :
    (w : Tools) (v v' : World) → HasServed w v v' → WellQueued v.disk → WellQueued v'.disk
served-WellQueued w v v' s h =
    subst (λ (u : World). WellQueued u.disk) (sym s.done.after) (pop-WellQueued v.disk s.name h)

pub length-served :
    (w : Tools) (v v' : World) → HasServed w v v' → length v'.disk.queue < length v.disk.queue
length-served w v v' s =
    subst (λ (u : World). length u.disk.queue < length v.disk.queue) (sym s.done.after)
      (length-pop v.disk.queue s.name s.task s.taken)
