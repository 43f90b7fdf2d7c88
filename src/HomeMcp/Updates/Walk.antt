-- ===== src/HomeMcp/Updates/Walk.antt =====
-- compose/aws/home-mcp/updates.py: the first part of `_images`, which follows the `include`s of the
-- Compose files. GitHub's raw files and the YAML parser are parameters.
pub mod Reached
pub mod Visits
pub mod Ending
mod Tests
use nyc_pa_aws_gitops.Prelude.{
  ℕ, zero, suc, String, ◌<>◌, Bool, true, false, Option, none, some, List, [], ◌∷◌, ◌++◌,
  if◌then◌else◌, contains,
}
use nyc_pa_aws_gitops.Prelude.Results.{Result, ok, err, ◌>>=◌}
use nyc_pa_aws_gitops.Prelude.Json.{Json}
use nyc_pa_aws_gitops.HomeMcp.Updates.Images.{
  Failure, http_error, yaml_error, value_error, key_error, crash, Step, includes_in_compose,
  images_in_compose, union_of,
}

-- The text of a file of the repository on `main`, and `yaml.safe_load`.
pub record Files : Type 0 where
  pub text : String → Step String
  pub yaml : String → Step Json

abbrev pub compose_files : List String
compose_files =
    "compose/aws/docker-compose.yml" ∷ "compose/nuc/docker-compose.yml"
    ∷ "compose/nuc/voice-worker/docker-compose.yml" ∷ []

-- `seen`, `refs` and `couldnt`
pub record Found : Type 0 where
  pub seen : List String
  pub refs : List String
  pub couldnt : List String

abbrev pub nothing : Found
nothing = record { seen = []; refs = []; couldnt = [] }

-- A file's images and the files that it includes.
abbrev pub Page : Type 0
Page = List String × List String

unfoldable pub page : Files → String → Step Page
unfolding images_in_compose includes_in_compose
page f path = do
  text ← f.text path
  doc ← f.yaml text
  images ← images_in_compose doc
  includes ← includes_in_compose doc path
  ok (images, includes)

abbrev missed : String → Found → Step (List String × Found)
missed path got = ok (
  [],
  record {
    seen = path ∷ got.seen;
    refs = got.refs;
    couldnt = got.couldnt ++ (("image list from " <> path) ∷ []);
  },
)

-- One file: what it adds to the queue, and what is found after it.
unfoldable pub visit : String → Found → Step Page → Step (List String × Found)
unfolding union_of
visit path got (ok (images, includes)) = ok (
  includes,
  record { seen = path ∷ got.seen; refs = union_of images got.refs; couldnt = got.couldnt },
)
visit path got (err (http_error name)) = missed path got
visit path got (err yaml_error) = missed path got
visit path got (err (value_error name)) = err (value_error name)
visit path got (err key_error) = err key_error
visit path got (err (crash name)) = err (crash name)

-- The loop over the queue, for at most `fuel` turns: none says that they did not suffice.
unfoldable pub walk : Files → ℕ → List String → Found → Option (Step Found)
unfolding page visit
walk f zero queue got = none
walk f (suc fuel) [] got = some (ok got)
walk f (suc fuel) (path ∷ queue) got =
    let skip = walk f fuel queue got in
    let visited : Option (Step Found) = elim (visit path got (page f path)) [
      | ok (more, next) ↦ walk f fuel (queue ++ more) next
      | err e ↦ some (err e)
    ] in
    if contains got.seen path then skip else visited
