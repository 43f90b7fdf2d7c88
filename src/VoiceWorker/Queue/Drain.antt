-- ===== src/VoiceWorker/Queue/Drain.antt =====
-- The runner empties its queue.
use nyc_pa_aws_gitops.Prelude.{String, ◌≡◌, ◌⊎◌, some, List, [], ◌∷◌}
use nyc_pa_aws_gitops.Prelude.Dict.{Dict, get}
use nyc_pa_aws_gitops.Prelude.Json.{Json, str}
use nyc_pa_aws_gitops.VoiceWorker.Runner.{Tools}
use nyc_pa_aws_gitops.VoiceWorker.Runner.Loop.{World, Turn, idle, crashed, served, serve}

abbrev go_on : World → Turn → (World → World) → World
go_on v idle f = v
go_on v (crashed v') f = v'
go_on v (served v') f = f v'

-- Turns of the loop of `main`, each with what git, Docker and GitHub answer in it, and with no command
-- between them.
unfoldable pub turns : List Tools → World → World
unfolding serve
turns [] v = v
turns (w ∷ ws) v = go_on v (serve w v) (turns ws)

-- The status of the task `k` is one that no later turn changes.
abbrev pub IsTerminal : String → World → Type 0
IsTerminal k v =
    (t : Dict Json) × (get k v.disk.status ≡ some t)
    × ((get "state" t ≡ some (str "done")) ⊎ (get "state" t ≡ some (str "failed")))

-- The task `k` is in the queue, or is finished.
abbrev pub IsDue : String → World → Type 0
IsDue k v = ((t : Dict Json) × (get k v.disk.queue ≡ some t)) ⊎ IsTerminal k v
