-- ===== src/HomeMcp/Jobs.antt =====
-- compose/aws/home-mcp/jobs.py: named jobs by voice. GitHub's answers and the clock are parameters. The
-- registry is read with the schema of jobs/registry.yml.
pub mod Requests
pub mod Status
pub mod Done
pub mod Tokens
mod Tests
use nyc_pa_aws_gitops.Prelude.{
  ℕ, ◌-◌, String, ◌<>◌, Bool, true, false, not, ◌&&◌, ◌||◌, Option, none, some, List, [], ◌∷◌, map,
  ◌==◌, ltb, eqb, if◌then◌else◌, contains, keep, join, sorted, show,
}
use nyc_pa_aws_gitops.Prelude.Dict.{Dict, get, keys, has}
use nyc_pa_aws_gitops.Prelude.Json.{Json}
use nyc_pa_aws_gitops.Prelude.Python.{Python, text_of}
use nyc_pa_aws_gitops.Prelude.Results.{Result, ok, err}

-- `ENABLED` and `TOKEN`
pub record Settings : Type 0 where
  pub enabled : Bool
  pub token : String

-- A job of the registry: its spoken name, its description, and the values that each of its arguments
-- may have.
pub record Spec : Type 0 where
  pub say : Option String
  pub description : Option String
  pub args : Dict (List String)

-- A request to start the workflow on `main`: its inputs.
pub record Post : Type 0 where
  pub job : String
  pub args : Dict String
  pub request_id : String

-- `_registry`, `_last_request`, and the requests sent so far, the last first.
pub record Jobs : Type 0 where
  pub at : ℕ
  pub jobs : Dict Spec
  pub last_id : String
  pub last_label : String
  pub posted : List Post

-- What GitHub answers. An error of `fetch` is the name of an `HTTPError`, one of `post` is an
-- exception that `run_job` does not catch, and a success of `post` the status code.
pub record Network : Type 0 where
  pub fetch : Result String (Dict Spec)
  pub post : Post → Result String ℕ

-- `REGISTRY_CACHE_SECONDS`
abbrev pub cache_seconds : ℕ
cache_seconds = 600

abbrev pub fetched : ℕ → Jobs → Result String (Dict Spec) → Jobs × Result String (Dict Spec)
fetched t s (err e) = (s, err e)
fetched t s (ok jobs) = (record s { at = t; jobs = jobs }, ok jobs)

-- `_load_registry` at the second `t`, with the registry of the cache as long as it is young
unfoldable pub load_cached : Network → ℕ → Jobs → Dict Spec → Jobs × Result String (Dict Spec)
load_cached net t s [] = fetched t s net.fetch
load_cached net t s (j ∷ jobs) =
    if ltb (t - s.at) cache_seconds then (s, ok (j ∷ jobs)) else fetched t s net.fetch

abbrev pub load_registry : Network → ℕ → Jobs → Jobs × Result String (Dict Spec)
load_registry net t s = load_cached net t s s.jobs

-- `d.values()`
unfoldable pub values : Dict String → List String
values [] = []
values ((k, v) ∷ d) = v ∷ values d

-- `_label`
abbrev pub label : String → Dict String → String
label job args = join " " (job ∷ values args)

-- `{k: str(v) for k, v in args.items()}`
unfoldable pub texts : Python → Dict Json → Dict String
texts py [] = []
texts py ((k, v) ∷ d) = (k, text_of py v) ∷ texts py d

-- `args.get(name) in values`
unfoldable pub is_one_of : List String → Option String → Bool
is_one_of values none = false
is_one_of values (some v) = contains values v

-- The loop over the arguments of the registry: what it complains about.
unfoldable pub complaint : String → Dict String → Dict (List String) → Option String
unfolding is_one_of
complaint job args [] = none
complaint job args ((name, values) ∷ allowed) =
    let rest = complaint job args allowed in
    if is_one_of values (get name args)
    then rest
    else some (job <> (" needs " <> (name <> (" to be one of " <> (join ", " values <> ".")))))

-- Both checks of the arguments.
abbrev pub refused : String → List String → Option String → Option String
refused job [] c = c
refused job (x ∷ extra) c = some (job <> (" doesn't take " <> (join ", " (x ∷ extra) <> ".")))

unfoldable pub refusal : String → Dict String → Dict (List String) → Option String
unfolding complaint
refusal job args allowed =
    refused job (sorted (keep (λ k. not (has k allowed)) (keys args))) (complaint job args allowed)

abbrev pub put_arg : String → Option String → Dict String → Dict String
put_arg name none rest = rest
put_arg name (some v) rest = (name, v) ∷ rest

-- `{name: args[name] for name in allowed}`, once every name has a value
unfoldable pub in_order : Dict String → Dict (List String) → Dict String
in_order args [] = []
in_order args ((name, values) ∷ allowed) = put_arg name (get name args) (in_order args allowed)

-- The answer to GitHub's answer.
unfoldable pub answered : Jobs → Post → Result String ℕ → Jobs × Result String String
answered s p (err e) = (s, err e)
answered s p (ok code) =
    if eqb code 200 || (eqb code 201 || eqb code 204)
    then (
      record s { last_id = p.request_id; last_label = label p.job p.args },
      ok (
          "Started "
          <> (label p.job p.args
              <> (" (request "
                  <> (p.request_id
                      <> "). It's waiting for your approval in GitHub, then usually takes a minute or two to run. Ask me for the job status any time.")))),
    )
    else (
      s,
      ok ("GitHub didn't accept the job (HTTP " <> (show code <> "), so nothing is running.")),
    )

abbrev pub send_post : Network → Jobs → Post → Jobs × Result String String
send_post net s p = answered (record s { posted = p ∷ s.posted }) p (net.post p)

unfoldable pub checked : Network → Jobs → Post → Option String → Jobs × Result String String
unfolding answered
checked net s p (some text) = (s, ok text)
checked net s p none = send_post net s p

unfoldable pub request :
    Network
    → Jobs
    → Dict Spec
    → String
    → String
    → Dict String
    → Option Spec
    → Jobs × Result String String
unfolding checked refusal in_order
request net s jobs id job args none = (
  s,
  ok ("There's no job called " <> (job <> (". I can run: " <> (join ", " (keys jobs) <> ".")))),
)
request net s jobs id job args (some spec) =
    checked net s (record { job = job; args = in_order args spec.args; request_id = id })
      (refusal job args spec.args)

unfoldable pub loaded :
    Network
    → Jobs
    → Result String (Dict Spec)
    → String
    → String
    → Dict String
    → Jobs × Result String String
unfolding request
loaded net s (err e) id job args = (
  s,
  ok ("I couldn't read the job list from GitHub (" <> (e <> "), so I didn't start anything.")),
)
loaded net s (ok jobs) id job args = request net s jobs id job args (get job jobs)

-- `run_job` at the second `t`, where `id` is the new request's id
unfoldable pub run_job :
    Python
    → Settings
    → Network
    → ℕ
    → String
    → Jobs
    → String
    → Dict Json
    → Jobs × Result String String
unfolding load_cached texts loaded
run_job py c net t id s job args =
    if not c.enabled
    then (s, ok "Voice jobs are switched off right now.")
    else if c.token == ""
    then (s, ok "Voice jobs aren't set up yet: home-mcp has no GitHub token for them.")
    else (let l = load_registry net t s in loaded net l.0 l.1 id job (texts py args))

abbrev text_or : Option String → String → String
text_or none d = d
text_or (some v) d = v

-- What `list_jobs` says of one job.
unfoldable pub part : String × Spec → String
part (name, spec) = text_or spec.say name <> (": " <> text_or spec.description "")

unfoldable pub listed : Settings → Result String (Dict Spec) → String
unfolding part
listed c (err e) = "I couldn't read the job list from GitHub (" <> (e <> ").")
listed c (ok jobs) =
    "I can run: "
    <> (join "; " (map part jobs)
        <> (". "
            <> ("Every job waits for your approval in GitHub before it runs."
                <> (if not c.enabled || c.token == ""
                    then " Jobs are switched off right now, so I can list them but not start them."
                    else ""))))

-- `list_jobs` at the second `t`
unfoldable pub list_jobs : Settings → Network → ℕ → Jobs → Jobs × String
unfolding load_cached listed
list_jobs c net t s = (let l = load_registry net t s in (l.0, listed c l.1))
