-- ===== src/Lib.antt =====
-- The home platform: an AWS hub and the home network's NUCs, operated from this repository. The
-- parts that run are Python scripts. Modelled are the scripts that take input from outside the
-- platform's trust and decide what may run or be published, and those that watch over the platform
-- and tell what they find.
--
-- `Preview` is scripts/hub/preview-compose.py. A pull request's Compose fragment becomes a preview
-- on the hub. `Preview.Fragment` reads a service's labels and environment (`scan_labels` is the
-- loop over the labels), `Preview.Service.rewrite_service` is the body of the loop over the
-- services, and `Preview.preview` is the script, from the check of its arguments to the document it
-- writes. A JSON object is a dict in its order; an exit with a message and an uncaught exception are
-- values of `Preview.Fragment.Failure`. `Loop`, `Again`, `Run` and `Output` carry the lemmas, and
-- `Isolation` and `Idempotent` what the script guarantees.
--
-- `VoiceWorker` is compose/nuc/voice-worker. `Dispatch` is dispatch.py, the SSH forced command that
-- puts tasks into the queue and reads their status; `Dispatch.dispatch` is its `main`, a function of
-- the files and of what the request brings along. `Runner` is runner.py, which takes a task off the
-- queue and turns it into a pull request: `Runner.process` has the same steps as the code, as an
-- action on the state of `Runner.State` that may raise an exception; `Runner.handled` has the
-- `except` clauses, and `Runner.Loop.serve` is a turn of the loop. What git, Docker and GitHub answer
-- is the record `Runner.Tools`, a parameter, and a push is recorded with the lines that `git diff --name-only` printed. The two scripts share the files `queue` and `status`,
-- which are dicts from a file's name to its content. `Queue` is about both: commands and turns in any
-- order (`Queue.History`), and the runner alone (`Queue.Drain`).
--
-- `HomeMcp.Jobs` is compose/aws/home-mcp/jobs.py: `run_job` checks a request that was made by voice
-- against the registry of jobs and asks GitHub to start the workflow. The registry's cache, the last
-- request and the requests sent are its state; GitHub's answers and the clock are parameters.
-- `Jobs.Status.job_status` reads a job's run back, and `Jobs.Tokens` warns of the token's expiry.
-- `HomeMcp.Tasks` is compose/aws/home-mcp/tasks.py, the side of home-mcp that sends commands to the
-- voice worker; the commands and the e-mails sent are its state.
--
-- `HomeMcp.Updates` is compose/aws/home-mcp/updates.py. `Tags` has `parse_tag` and
-- `newest_same_shape`, `Images` reads references and Compose files, `Walk` is the loop of `_images`
-- over the files and their includes, `Checks` its check of each image with `_eol_line`, `Registry` the
-- lookups and their cache, `Hosts` and `Network` the two other sections, and `Report.update_status`
-- what is told of the three. The three sections fail on their own: a section is a value of
-- `Images.Step`, its lines or the exception that ended it.
--
-- `HomeMcp.Github` is compose/aws/home-mcp/github_status.py, with the requests, their cache and
-- `pending_approvals` in `Github.Asking`; `HomeMcp.Platform` is compose/aws/home-mcp/status.py, which
-- is given what the others answer.
--
-- `AppDags` is scripts/hub/app-dags.py, from the members of an archive to the files that are written;
-- `AppDags.Names` is about the pattern for their names.
--
-- `ApplyConfig` is routeros/apply-config.py: the secrets are filled into a router's configuration, and
-- it is uploaded and imported. AWS, the SSH library and the router are the record `Tools`. Of the output of
-- the import the script sees the first 8192 bytes.
--
-- `Exposure` is about two parts that share a file: `Exposure.Scan` is
-- compose/aws/host/exposure-check.py (its `site_endpoints` is in `Exposure.Endpoints`), which scans the hub and the sites and writes what it has found,
-- and `Exposure.Answer` is compose/aws/home-mcp/exposure.py, which tells it.
--
-- `Mopeka` is compose/nuc/mopeka-exporter/mopeka_exporter.py: `Address` is `_mac`, `Tanks` the file of
-- the sensors and `_fill_percent`, `Sensors` the handling of advertisements, whose state is the known
-- sensors with their decoders and the gauges, and `Proxies` a connection to a proxy.
--
-- `MemoryCheck` is scripts/hub/compose-mem-check.py; Python's numbers, with the rounding of its floats, are
-- a parameter.
--
-- `Prelude` has the data that the scripts share: JSON values, dicts, texts and results. A number of
-- JSON is its text. `Prelude.Python` is the part of Python's runtime that is left open: digits beyond
-- ASCII and the text of a list or a dict. `Prelude.Paths` is `posixpath`, `Prelude.Dates` is
-- `datetime.date`, and `Prelude.Letters` has `upper` and `lower` in ASCII.
--
-- Two loops have fuel. `Queue.Drain.turns` takes as many turns as it is given answers of git, Docker and
-- GitHub, of which as many as the queue has files are enough. The walk over
-- the Compose files takes at most one turn for each path in the queue and each include of a file not
-- seen, and one more; the files are finitely many, since any other path is answered with an error.
--
-- Not modelled: reading and writing files as such (a write and its rename are one step, and no
-- write fails), the argument lists of the commands that runner.py starts, the wording of its
-- prompt and of the pull request, its check of the tokens' expiry, and the order in which the
-- writes of one script interleave with single reads of the other. Requests that home-mcp makes
-- at the same time are made one after the other. Floats are parameters with the operations used,
-- and times are whole numbers of seconds or microseconds. The rest of home-mcp, the other
-- exporters and the scripts around them are not modelled; Terraform, Ansible and Compose files
-- are no code.
pub mod Prelude
pub mod Preview
pub mod VoiceWorker
pub mod HomeMcp
pub mod AppDags
pub mod ApplyConfig
pub mod Exposure
pub mod Mopeka
pub mod MemoryCheck
