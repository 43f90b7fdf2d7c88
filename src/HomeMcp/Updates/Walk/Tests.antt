-- ===== src/HomeMcp/Updates/Walk/Tests.antt =====
-- Walks over a sample repository of two files, where the first includes the second and an absent one.
use nyc_pa_aws_gitops.Prelude.{
  String, ◌≡◌, ◌≢◌, refl, none, some, [], ◌∷◌, ◌==◌, if◌then◌else◌, eq_iff, arith,
}
use nyc_pa_aws_gitops.Prelude.Results.{ok, err}
use nyc_pa_aws_gitops.Prelude.Json.{Json, null, str, obj, field, end, strs}
use nyc_pa_aws_gitops.HomeMcp.Updates.Images.{http_error, crash, Step, split_image}
use nyc_pa_aws_gitops.HomeMcp.Updates.Walk.{Files, Found, nothing, page, walk}
use nyc_pa_aws_gitops.HomeMcp.Updates.Walk.Visits.{IsWalked, walk-IsWalked}
use nyc_pa_aws_gitops.HomeMcp.Updates.Walk.Ending.{pending, Holds, walk_ends}

abbrev service : String → Json
service image = obj (field "image" (str image) end)

abbrev hub : Json
hub = obj (
    field "include" (strs ("../x/apps.yml" ∷ "lost.yml" ∷ []))
      (field "services" (obj (field "a" (service "redis:7") end)) end))

abbrev apps : Json
apps = obj (field "services" (obj (field "b" (service "nginx:1.2") (field "c" null end))) end)

abbrev sample_text : String → Step String
sample_text p =
    if p == "a/hub.yml"
    then ok "hub"
    else if p == "x/apps.yml"
    then ok "apps"
    else err (http_error "HTTPStatusError")

abbrev sample : Files
sample = record { text = sample_text; yaml = λ t. ok (if t == "hub" then hub else apps) }

abbrev sample_found : Found
sample_found = record {
  seen = "a/lost.yml" ∷ "x/apps.yml" ∷ "a/hub.yml" ∷ [];
  refs = "nginx:1.2" ∷ "redis:7" ∷ [];
  couldnt = "image list from a/lost.yml" ∷ [];
}

sample-walk : walk sample 4 ("a/hub.yml" ∷ []) nothing ≡ some (ok sample_found)
unfolding walk
sample-walk = refl

port_split :
    split_image "reg:5000/a/b" ≡ ok (record { registry = "reg:5000"; repo = "a/b"; tag = "latest" })
unfolding split_image
port_split = refl

dot_split : split_image "foo.bar:1" ≡ err (crash "IndexError")
unfolding split_image
dot_split = refl

sample-Holds : Holds sample ("a/hub.yml" ∷ "x/apps.yml" ∷ [])
sample-Holds p h = ground (arith, eq_iff p "a/hub.yml", eq_iff p "x/apps.yml")

walk-IsWalked_example : IsWalked sample ("a/hub.yml" ∷ []) sample_found
unfolding walk
walk-IsWalked_example = walk-IsWalked sample ("a/hub.yml" ∷ []) 4 sample_found refl

walk_ends_example : walk sample 4 ("a/hub.yml" ∷ []) nothing ≢ none
unfolding pending page
walk_ends_example =
    walk_ends sample ("a/hub.yml" ∷ "x/apps.yml" ∷ []) sample-Holds 4 ("a/hub.yml" ∷ []) nothing
      (omega arith)
