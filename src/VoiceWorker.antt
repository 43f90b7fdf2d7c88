-- ===== src/VoiceWorker.antt =====
-- compose/nuc/voice-worker: the voice coding worker. `Dispatch` is dispatch.py, the SSH forced
-- command that queues tasks and reads their status. `Runner` is runner.py, which turns a queued task
-- into a pull request. Both work on the files in /var/lib/voice-worker.
pub mod Dispatch
pub mod Runner
pub mod Queue
pub mod Tests
use nyc_pa_aws_gitops.Prelude.{String}
use nyc_pa_aws_gitops.Prelude.Dict.{Dict}
use nyc_pa_aws_gitops.Prelude.Json.{Json}

-- One task file: the keys that were written so far.
abbrev pub Task : Type 0
Task = Dict Json
