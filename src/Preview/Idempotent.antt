-- ===== src/Preview/Idempotent.antt =====
-- Running the script on its own output changes nothing.
use nyc_pa_aws_gitops.Prelude.{◌≡◌, ◌≢◌, refl, ◌∙◌, [], ◌∷◌}
use nyc_pa_aws_gitops.Prelude.Dict.{Dict, get, keys}
use nyc_pa_aws_gitops.Prelude.Json.{Json, strs, to_dict-of_dict, truthy}
use nyc_pa_aws_gitops.Prelude.Results.{ok}
use nyc_pa_aws_gitops.Preview.Fragment.{Python}
use nyc_pa_aws_gitops.Preview.Fragment.Router.{router_labels, scan_router_labels}
use nyc_pa_aws_gitops.Preview.Service.{Options, project}
use nyc_pa_aws_gitops.Preview.Again.{rewrite_routed}
use nyc_pa_aws_gitops.Preview.Output.{keys-set_in, keys-services_json, set_in-ne-nil}
use nyc_pa_aws_gitops.Preview.Run.{preview-Run, project_no_dot}
use nyc_pa_aws_gitops.Preview.{
  Service, Preview, set_in, preview_host, services_json, document, services_of, finish_at, preview,
}

-- What the script reads from a document that it wrote.
services_of-document : (d : Dict Service) → d ≢ [] → services_of (document d) ≡ ok (services_json d)
unfolding services_of document services_json get truthy
services_of-document [] h = absurd (h refl)
services_of-document ((j, svc) ∷ d) h = rw to_dict-of_dict

module _ (py : Python) (o : Options) where
  -- A preview that the script wrote is written again, the same service for service, and nothing is
  -- reported as dropped.
  pub preview-document :
      (src : Json) (p : Preview)
      → preview py o src ≡ ok p
      → preview py o (document p.services) ≡ ok (record p { dropped = [] })
  unfolding preview finish_at
  preview-document src p h =
      let r = preview-Run py o src p h in
      let shown = strs (router_labels (project o) (preview_host o) p.port) in
      let (n, d) = project_no_dot o r.app r.pr in
      let scanned = scan_router_labels py (project o) p.port n r.port (preview_host o) d in
      let names : keys (services_json (set_in p.service "labels" shown r.rewritten))
          ≡ keys r.entries =
        keys-services_json _ ∙ keys-set_in p.service "labels" shown r.rewritten ∙ r.same_keys in
      let again =
        rewrite_routed py o (keys r.entries) p.service p.port shown r.rewritten scanned r.there
          r.clean in
      rw (r.app, r.pr)
        (rw r.written (
          rw (services_of-document _ (set_in-ne-nil p.service "labels" shown r.rewritten r.there))
            (rw names (rw again (rw (r.strict, r.host))))))
