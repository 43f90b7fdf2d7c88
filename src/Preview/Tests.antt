-- ===== src/Preview/Tests.antt =====
-- Runs of the preview script, and its theorems at a concrete fragment.
use nyc_pa_aws_gitops.Prelude.{
  ◌≡◌, ◌⊎◌, refl, true, false, some, [], ◌∷◌, is_nonempty, all_chars, sorted,
}
use nyc_pa_aws_gitops.Prelude.Dict.{get, set, pop, keep_keys, keys, has}
use nyc_pa_aws_gitops.Prelude.Json.{Json, bool, str, obj, Fields, end, field, strs}
use nyc_pa_aws_gitops.Prelude.Results.{Result, ok, err}
use nyc_pa_aws_gitops.Preview.Fragment.{Python, Failure, exit, scan_labels, environment_of}
use nyc_pa_aws_gitops.Preview.Fragment.Router.{router_labels}
use nyc_pa_aws_gitops.Preview.Service.{
  Options, project, is_allowed, is_own_image, write_depends_on, rewrite_service,
}
use nyc_pa_aws_gitops.Preview.Idempotent.{preview-document}
use nyc_pa_aws_gitops.Preview.Isolation.{
  AllIsolated, preview-AllIsolated, preview_routes_one, preview_strict,
}
use nyc_pa_aws_gitops.Preview.{
  Preview, preview_host, services_of, document, get_in, preview, is_app_name, is_pr_number, route,
  rewrite_all, finish_at,
}

abbrev ascii : Python
ascii = record { wide_digit = λ c. false; container_text = λ v. "[]" }

abbrev options : Options
options = record { app = "todo-app"; pr = "7"; image = "1.ecr/todo-app-preview:abc"; strict = true }

-- A web service with a published port, a volume and a build, and a worker that depends on it.
abbrev web : Fields
web = field "image" (str "1.ecr/todo-app:prod") (
    field "ports" (strs ("80:80" ∷ [])) (
      field "build" (str ".") (
        field "environment" (strs ("A=1" ∷ "B" ∷ [])) (
          field "labels"
            (strs (
              "traefik.enable=true" ∷ "traefik.http.services.todo.loadbalancer.server.port=8000"
              ∷ []))
            (field "privileged" (bool true) end)))))

abbrev worker : Fields
worker = field "image" (str "redis:7") (field "depends_on" (strs ("web" ∷ "gone" ∷ [])) end)

abbrev fragment : Json
fragment =
    obj (field "services" (obj (field "web" (obj web) (field "worker" (obj worker) end))) end)

abbrev no_preview : Preview
no_preview = record { services = []; service = ""; port = ""; host = ""; dropped = [] }

abbrev or_none : Result Failure Preview → Preview
or_none (ok p) = p
or_none (err e) = no_preview

run : Json → Result Failure Preview
unfolding preview is_app_name is_pr_number is_nonempty all_chars services_of get keys keep_keys pop
    set rewrite_all route scan_labels rewrite_service environment_of write_depends_on is_allowed
    finish_at is_own_image sorted
run = preview ascii options

output : Preview
unfolding run
output = or_none (run fragment)

run_ok : preview ascii options fragment ≡ ok output
unfolding output
run_ok = refl

dropped_keys : output.dropped ≡ ("web", "build" ∷ []) ∷ []
unfolding output
dropped_keys = refl

kept_dependency : get_in "worker" "depends_on" output.services ≡ some (strs ("web" ∷ []))
unfolding output get_in
kept_dependency = refl

preview-document_example :
    preview ascii options (document output.services) ≡ ok (record output { dropped = [] })
preview-document_example = preview-document ascii options fragment output run_ok

preview-AllIsolated_example : AllIsolated options output.services
preview-AllIsolated_example = preview-AllIsolated ascii options fragment output run_ok

preview_strict_example : get_in output.service "image" output.services ≡ some (str options.image)
preview_strict_example = preview_strict ascii options fragment output run_ok refl

preview_routes_one_example :
    (keys output.services ≡ "web" ∷ "worker" ∷ [])
    × (get_in output.service "labels" output.services
        ≡ some (strs (router_labels (project options) (preview_host options) output.port)))
    × ((output.service ≡ "worker")
        ⊎ ((has "worker" output.services ≡ false)
            ⊎ (get_in "worker" "labels" output.services ≡ some (strs []))))
unfolding output keys services_of
preview_routes_one_example =
    preview_routes_one ascii options fragment output
      (("web", obj web) ∷ ("worker", obj worker) ∷ []) "worker" run_ok refl

-- A label map whose value is the JSON `true` is not read as an enabled route.
abbrev mapped : Json
mapped = obj (
    field "services"
      (obj
        (field "web" (obj (field "labels" (obj (field "traefik.enable" (bool true) end)) end)) end))
      end)

true_label_not_read :
    run mapped ≡ err (exit "no service has traefik.enable=true; nothing to preview")
unfolding run
true_label_not_read = refl
