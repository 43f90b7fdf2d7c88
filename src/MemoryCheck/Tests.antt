-- ===== src/MemoryCheck/Tests.antt =====
-- Sizes and sample inputs.
use nyc_pa_aws_gitops.Prelude.{◌*◌, ◌/◌, ◌^◌, ◌≡◌, refl, none, some, [], ◌∷◌}
use nyc_pa_aws_gitops.Prelude.Results.{ok}
use nyc_pa_aws_gitops.Prelude.Json.{Json, null, num, str, obj, field, end}
use nyc_pa_aws_gitops.MemoryCheck.{size, below, Input, text_size, fine, offenders, main}
use nyc_pa_aws_gitops.MemoryCheck.Limited.{Passed, main-Passed}

abbrev web : Json
web = obj (field "mem_limit" (str "512m") end)

abbrev deployed : Json
deployed = obj (
    field "deploy"
      (obj (field "resources" (obj (field "limits" (obj (field "memory" (str "1g") end)) end)) end))
      end)

abbrev input : Json → Input
input services = record {
  int_of = λ t. ok (below 0);
  scale = λ n k unit. ok (size (n * unit / 10 ^ k));
  json = some (obj (field "services" services end));
}

half_gigabyte : text_size (input null) " 0.5 GB " ≡ ok (some (size 536870912))
unfolding text_size
half_gigabyte = refl

bad_unit : text_size (input null) "512mib" ≡ ok none
unfolding text_size
bad_unit = refl

abbrev both : Json
both = obj (field "web" web (field "db" deployed end))

one_missing :
    main (input (obj (field "web" web (field "b" (obj end) (field "a" null end)))))
    ≡ ok (offenders ("a" ∷ "b" ∷ []))
unfolding main
one_missing = refl

negative_passes :
    main (input (obj (field "web" (obj (field "mem_limit" (num "-1") end)) end)))
    ≡ ok (fine (("web", obj (field "mem_limit" (num "-1") end)) ∷ []))
unfolding main
negative_passes = refl

main-Passed_example : Passed (input both)
unfolding main
main-Passed_example =
    main-Passed (input both) (fine (("web", web) ∷ ("db", deployed) ∷ [])) refl refl
