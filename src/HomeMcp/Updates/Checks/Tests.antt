-- ===== src/HomeMcp/Updates/Checks/Tests.antt =====
-- Checks of sample images, with sample registries, release lines and sections.
use nyc_pa_aws_gitops.Prelude.{
  ℕ, ◌<>◌, ◌≡◌, refl, Bool, true, false, Option, none, some, [], ◌∷◌, ◌==◌, if◌then◌else◌, contains,
  sorted,
}
use nyc_pa_aws_gitops.Prelude.Results.{ok, err}
use nyc_pa_aws_gitops.Prelude.Dict.{Dict}
use nyc_pa_aws_gitops.Prelude.Json.{Json, null, bool, str, arr, obj, cons, nil, field, end, strs}
use nyc_pa_aws_gitops.Prelude.Python.{Python}
use nyc_pa_aws_gitops.Prelude.Dates.{Date}
use nyc_pa_aws_gitops.HomeMcp.Updates.Images.{http_error}
use nyc_pa_aws_gitops.HomeMcp.Updates.Walk.{Files, page}
use nyc_pa_aws_gitops.HomeMcp.Updates.Walk.Reached.{named, listed}
use nyc_pa_aws_gitops.HomeMcp.Updates.Registry.{Client, Reply}
use nyc_pa_aws_gitops.HomeMcp.Updates.Checks.{Lines, no_lines, Lookups, eol_line, images}
use nyc_pa_aws_gitops.HomeMcp.Updates.Checks.EndOfLife.{Phase, eol_line-Phase}
use nyc_pa_aws_gitops.HomeMcp.Updates.Checks.Kept.{Told, images-Told}
use nyc_pa_aws_gitops.HomeMcp.Updates.Report.{gather, update_status}
use nyc_pa_aws_gitops.HomeMcp.Updates.Report.Complete.{Tells, gather-Tells}

abbrev py : Python
py = record { wide_digit = λ c. false; container_text = λ v. "?" }

abbrev today : Date
today = record { year = 2026; month = 11; day = 25 }

abbrev postgres_17 : Dict Json
postgres_17 = ("name", str "17") ∷ ("isEol", bool false) ∷ ("eolFrom", str "2027-01-10") ∷ []

abbrev postgres_18 : Dict Json
postgres_18 = ("name", str "18") ∷ ("isEol", bool false) ∷ []

soon_told :
    eol_line py (postgres_18 ∷ postgres_17 ∷ []) "17" today
    ≡ ok (some ("reaches end of life on 2027-01-10", true))
unfolding eol_line
soon_told = refl

abbrev lookups : Lookups
lookups = record {
  python = py;
  tags = λ registry repo.
      (if repo == "library/redis" then ok ("8" ∷ "7" ∷ []) else err (http_error "ReadTimeout"));
  eol = λ product. ok (postgres_17 ∷ []);
  today = today;
}

abbrev redis : Json
redis =
    obj (field "services" (obj (field "cache" (obj (field "image" (str "redis:7") end)) end)) end)

abbrev hub_only : Files
hub_only = record {
  text = λ p.
      (if p == "compose/aws/docker-compose.yml" then ok "" else err (http_error "HTTPStatusError"));
  yaml = λ t. ok redis;
}

abbrev redis_lines : Lines
redis_lines = record {
  urgent = [];
  other = "redis 7 -> 8 (major) [floating tag]" ∷ [];
  couldnt =
      "image list from compose/nuc/docker-compose.yml"
      ∷ "image list from compose/nuc/voice-worker/docker-compose.yml" ∷ [];
}

images_run : images hub_only lookups 4 ≡ some (ok redis_lines)
unfolding images
images_run = refl

images-Told_example : Told lookups "redis:7" redis_lines
unfolding page
images-Told_example = images-Told hub_only lookups 4 redis_lines "redis:7" images_run (
    named "compose/aws/docker-compose.yml" ("redis:7" ∷ []) []
      (listed "compose/aws/docker-compose.yml" refl) refl refl)

eol_line-Phase_example :
    Phase today "2027-01-10"
      (record { year = 2027; month = 1; day = 10 })
      (eol_line py (postgres_18 ∷ postgres_17 ∷ []) "17" today)
unfolding nyc_pa_aws_gitops.Prelude.Python.text_of nyc_pa_aws_gitops.Prelude.Dict.get
    nyc_pa_aws_gitops.Prelude.Json.truthy nyc_pa_aws_gitops.Prelude.Dates.date_of
eol_line-Phase_example =
    eol_line-Phase py (postgres_18 ∷ []) postgres_17 [] "17" today "2027-01-10"
      (record { year = 2027; month = 1; day = 10 }) (refl, tt) refl refl refl refl refl

abbrev one_page : Reply
one_page = record {
  json = ok (obj (field "results" (arr (cons (obj (field "name" (str "8") end)) nil)) end));
  text = "";
  link = "";
}

abbrev online : Client
online = record { python = py; ask = λ rq. ok one_page }

abbrev offline : Client
offline = record { python = py; ask = λ rq. err (http_error "ConnectError") }

gather-Tells_example :
    Tells
      (("OS packages", err (http_error "ConnectError")) ∷ ("container images", ok redis_lines) ∷ [])
      (gather
        (("OS packages", err (http_error "ConnectError"))
          ∷ ("container images", ok redis_lines)
          ∷ [])
        no_lines)
gather-Tells_example =
    gather-Tells
      (("OS packages", err (http_error "ConnectError")) ∷ ("container images", ok redis_lines) ∷ [])

status_told :
    update_status false (err (http_error "ConnectError")) (ok no_lines) (ok no_lines)
    ≡ "Everything I can check is up to date.\nCouldn't check: OS packages (ConnectError)."
unfolding update_status
status_told = refl
