-- ===== src/VoiceWorker/Queue/History.antt =====
-- The worker's history: commands and turns of the runner's loop, in any order.
use nyc_pa_aws_gitops.Prelude.{
  String, ◌≡◌, false, ◌==◌, starts, arith, inl, inr, sym, subst, ◌∙◌, none, some, List, [], ◌∷◌,
  keep, All,
}
use nyc_pa_aws_gitops.Prelude.Dict.{Dict, get}
use nyc_pa_aws_gitops.Prelude.Json.{Json}
use nyc_pa_aws_gitops.Prelude.Python.{Python}
use nyc_pa_aws_gitops.VoiceWorker.Dispatch.{Config, Input, dispatch}
use nyc_pa_aws_gitops.VoiceWorker.Runner.{Tools, is_forbidden}
use nyc_pa_aws_gitops.VoiceWorker.Runner.State.{Run, Push, PullRequest}
use nyc_pa_aws_gitops.VoiceWorker.Runner.Loop.{World, idle, served, serve}
use nyc_pa_aws_gitops.VoiceWorker.Runner.Serving.{IsServed}
use nyc_pa_aws_gitops.VoiceWorker.Queue.{
  WellQueued, pop-WellQueued, serve-cases, dispatch-WellQueued,
}
use nyc_pa_aws_gitops.VoiceWorker.Runner.Publishing.{early, pushed, late}
use nyc_pa_aws_gitops.VoiceWorker.Runner.Serving.{Final, done_unchanged, done_published, failed}

not_idle : {A : Type 0} (v : World) → idle ≡ served v → A
not_idle v h = cc

served_inj : {u v : World} → served u ≡ served v → u ≡ v
served_inj h = cc

some-none : {A : Type 0} (t : Dict Json) → some t ≡ none → A
some-none t h = cc

-- A command that is sent to `dispatch`, or a turn of the runner's loop.
pub data Step (py : Python) (c : Config) (v : World) : World → Type 0 where
  command :
      (i : Input) (words : List String)
      → Step py c v (record v { disk = (dispatch py c v.disk i words).0 })
  turn : (w : Tools) (v' : World) → serve w v ≡ served v' → Step py c v v'

pub data Steps (py : Python) (c : Config) (v : World) : World → Type 0 where
  none_yet : Steps py c v v
  followed : (v' v'' : World) → Steps py c v v' → Step py c v' v'' → Steps py c v v''

-- The line is not that of a protected path. Git quotes a path that is not ASCII, and the quoted one is not.
abbrev pub IsOpen : String → Type 0
IsOpen line =
    (starts ".github/" line ≡ false)
    × (starts ".git/" line ≡ false)
    × ((line == ".gitmodules") ≡ false)
    × ((line == ".gitattributes") ≡ false)

-- No line that `git diff --name-only` printed for the push is that of a protected path.
abbrev pub IsClean : Push → Type 0
IsClean p = All IsOpen p.lines

lines-IsOpen : (lines : List String) → keep is_forbidden lines ≡ [] → All IsOpen lines
unfolding is_forbidden
lines-IsOpen [] h = tt
lines-IsOpen (x ∷ lines) h = ground (arith, lines-IsOpen lines)

-- The files of the queue are well formed, and every push is clean.
pub record IsSound (v : World) : Type 0 where
  pub queue_fine : WellQueued v.disk
  pub pushes_fine : All IsClean v.pushed

Final-All :
    (w : Tools) (s : Dict (Dict Json)) (t : Dict Json) (id : String) (ps : List Push)
    (qs : List PullRequest) (r : Run)
    → Final w s t id ps qs r
    → All IsClean ps
    → All IsClean r.pushed
Final-All w s t id ps qs r (done_unchanged h k) a = subst (All IsClean) (sym h.sent.0) a
Final-All w s t id ps qs r (done_published h k) a =
    let (p, q, fit, e, e1, e2, e3) = h.sent in
    subst (All IsClean) (sym e) (lines-IsOpen p.lines fit.none_forbidden, a)
Final-All w s t id ps qs r (failed (early h) k) a = subst (All IsClean) (sym h.sent.0) a
Final-All w s t id ps qs r (failed (pushed h) k) a =
    let (p, fit, e, e1) = h.sent in
    subst (All IsClean) (sym e) (lines-IsOpen p.lines fit.none_forbidden, a)
Final-All w s t id ps qs r (failed (late h) k) a =
    let (p, q, fit, e, e1, e2, e3) = h.sent in
    subst (All IsClean) (sym e) (lines-IsOpen p.lines fit.none_forbidden, a)

back-IsSound :
    (w : Tools) (v : World) (n : String) (t : Dict Json) (v' : World)
    → IsServed w v n t v'
    → IsSound v
    → IsSound v'
back-IsSound w v n t v' h a = subst IsSound (sym h.after) (record {
  queue_fine = (pop-WellQueued v.disk n a.queue_fine);
  pushes_fine = (Final-All w v.disk.status t n v.pushed v.opened h.last h.final a.pushes_fine);
})

module _ (py : Python) (c : Config) where
  Step-IsSound : (v v' : World) → Step py c v v' → IsSound v → IsSound v'
  Step-IsSound v _ (command i words) a = record {
    queue_fine = (dispatch-WellQueued py c v.disk i words a.queue_fine);
    pushes_fine = a.pushes_fine;
  }
  Step-IsSound v v' (turn w _ e) a = elim (serve-cases w v a.queue_fine) [
    | inl h ↦ not_idle v' (sym h.0 ∙ e)
    | inr (u, x, h) ↦
        subst IsSound (served_inj (sym x ∙ e)) (back-IsSound w v h.name h.task u h.done a)
  ]

  -- From an empty queue and with nothing pushed, whatever commands are sent and whatever git, Docker
  -- and GitHub answer, in any order of commands and turns: no line that `git diff --name-only` printed
  -- for a push starts with `.github/` or `.git/` or is `.gitmodules` or `.gitattributes`, and every
  -- queued file holds a task with the id that names it. Git quotes a path that is not ASCII, and of the
  -- path behind such a line nothing is said.
  pub Steps-IsSound :
      (v v' : World) → Steps py c v v' → v.disk.queue ≡ [] → v.pushed ≡ [] → IsSound v'
  unfolding get
  Steps-IsSound v _ none_yet e f = record {
    queue_fine = (λ k t g. some-none t (sym (rw e at g)));
    pushes_fine = (subst (All IsClean) (sym f) tt);
  }
  Steps-IsSound v v' (followed u _ h k) e f = Step-IsSound u v' k (Steps-IsSound v u h e f)
