-- ===== src/VoiceWorker/Runner/State.antt =====
-- compose/nuc/voice-worker/runner.py: the state that a task is processed in, its exceptions, and
-- `write_status`.
use nyc_pa_aws_gitops.Prelude.{ℕ, suc, String, ◌<>◌, Option, none, some, List, [], ◌∷◌, ◌++◌}
use nyc_pa_aws_gitops.Prelude.Dict.{Dict, get, set}
use nyc_pa_aws_gitops.Prelude.Json.{Json, num}
use nyc_pa_aws_gitops.Prelude.Python.{Python, text_of}
use nyc_pa_aws_gitops.Prelude.Results.{Result, ok, err}

-- `subprocess.CalledProcessError` with the first three words of the command, `HTTPError`, and any
-- other exception with its text.
pub data Failure : Type 0 where
  called : String → String → Failure
  http : String → String → Failure
  other : String → Failure

-- A branch pushed to GitHub, with the lines of `git diff --name-only` in the tree it is committed from:
-- the paths that change, where git quotes one that is not ASCII.
pub record Push : Type 0 where
  pub repo : Json
  pub branch : String
  pub lines : List String

pub record PullRequest : Type 0 where
  pub repo : Json
  pub head : String
  pub summary : String

-- The task's dict, which every step shares and `write_status` updates; the files of `status/`; what
-- has reached GitHub, the last first; and how often the clock was read.
pub record Run : Type 0 where
  pub task : Dict Json
  pub status : Dict (Dict Json)
  pub pushed : List Push
  pub opened : List PullRequest
  pub reads : ℕ

abbrev pub Action {ℓ} : Type ℓ → Type ℓ
Action A = Run → Result Failure A × Run

abbrev pub next {ℓ κ} :
    {A : Type ℓ} {B : Type κ} → Result Failure A → Run → (A → Action B) → Result Failure B × Run
next (ok a) r f = f a r
next (err e) r f = (err e, r)

infixl 5 ◌>>=◌ ◌>>◌
abbrev pub ◌>>=◌ {ℓ κ} : {A : Type ℓ} {B : Type κ} → Action A → (A → Action B) → Action B
m >>= f = λ r. next (m r).0 (m r).1 f

abbrev pub ◌>>◌ {ℓ κ} : {A : Type ℓ} {B : Type κ} → Action A → Action B → Action B
m >> k = m >>= λ _. k

abbrev pub return {ℓ} : {A : Type ℓ} → A → Action A
return a = λ r. (ok a, r)

-- A call that changes none of the state.
abbrev pub tool {ℓ} : {A : Type ℓ} → Result Failure A → Action A
tool m = λ r. (m, r)

abbrev pub raise {ℓ} : {A : Type ℓ} → String → Action A
raise text = tool (err (other text))

-- `time.time()`: the number of this reading of the clock.
abbrev pub now : Action ℕ
now = λ r. (ok r.reads, record r { reads = suc r.reads })

-- `task[k]`
abbrev pub found : String → Option Json → Result Failure Json
found k none = err (other ("'" <> (k <> "'")))
found k (some v) = ok v

unfoldable pub lookup : String → Dict Json → Result Failure Json
lookup k t = found k (get k t)

abbrev pub field : String → Action Json
field k = λ r. (lookup k r.task, r)

-- `d.update(fields)`
unfoldable pub update : Dict Json → Dict Json → Dict Json
update [] t = t
update ((k, v) ∷ fields) t = update fields (set k v t)

-- The file that `write_status` writes, for a task dict that has been updated.
abbrev put_status : Python → Run → Result Failure Json → Result Failure (Unit {0}) × Run
put_status py r (err e) = (err e, r)
put_status py r (ok id) = (ok tt, record r { status = set (text_of py id) r.task r.status })

-- `write_status`, where `seconds` gives the time in seconds at a reading of the clock.
unfoldable pub write_status : Python → (ℕ → String) → Dict Json → Action (Unit {0})
unfolding lookup update
write_status py seconds fields = λ r.
    let t = update (fields ++ (("updated_at", num (seconds r.reads)) ∷ [])) r.task in
    put_status py (record r { task = t; reads = suc r.reads }) (lookup "id" t)
