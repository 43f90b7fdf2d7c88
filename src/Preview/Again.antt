-- ===== src/Preview/Again.antt =====
-- Running the script on its own output.
use nyc_pa_aws_gitops.Prelude.{
  String, ◌≡◌, refl, sym, ap, true, Option, none, some, List, [], ◌∷◌, ◌==◌, eq_iff, subst,
  Bool-cases, inl, inr,
}
use nyc_pa_aws_gitops.Prelude.Dict.{Dict, set, has}
use nyc_pa_aws_gitops.Prelude.DictLaws.{get-set, set_same}
use nyc_pa_aws_gitops.Prelude.Json.{Json, obj, strs, of_dict, to_dict-of_dict}
use nyc_pa_aws_gitops.Prelude.Results.{ok}
use nyc_pa_aws_gitops.Preview.Fragment.{Python, Scan, start, scan_labels}
use nyc_pa_aws_gitops.Preview.Service.{Options}
use nyc_pa_aws_gitops.Preview.Service.Clean.{IsClean, rewrite_service_same}
use nyc_pa_aws_gitops.Preview.Loop.{AllClean}
use nyc_pa_aws_gitops.Preview.{Service, Progress, route, rewrite_all, services_json, set_in}

module _ (py : Python) (o : Options) (names : List String) where
  abbrev settled : Option (String × String) → Dict Service → Progress
  settled routed d = record { routed = routed; services = d; dropped = [] }

  -- One entry whose labels were set to `shown`.
  rewrite_entry :
      (name : String) (svc : Service) (shown : Json) (s : Scan)
      (routed mid out : Option (String × String)) (rest : Dict Service) (tail : Dict Json)
      → IsClean py o names svc
      → scan_labels py (some shown) ≡ ok s
      → route name s routed ≡ ok mid
      → rewrite_all py o names mid tail ≡ ok (settled out rest)
      → rewrite_all py o names routed ((name, obj (of_dict (set "labels" shown svc))) ∷ tail)
        ≡ ok (settled out ((name, svc) ∷ rest))
  unfolding rewrite_all
  rewrite_entry name svc shown s routed mid out rest tail c scanned routes ih =
      rw (to_dict-of_dict, get-set)
        (rw (scanned, routes, rewrite_service_same py o names svc c shown, ih))

  -- An entry with the labels that the loop gave it.
  rewrite_plain :
      (name : String) (svc : Service) (routed out : Option (String × String)) (rest : Dict Service)
      (tail : Dict Json)
      → IsClean py o names svc
      → rewrite_all py o names routed tail ≡ ok (settled out rest)
      → rewrite_all py o names routed ((name, obj (of_dict svc)) ∷ tail)
        ≡ ok (settled out ((name, svc) ∷ rest))
  unfolding scan_labels route
  rewrite_plain name svc routed out rest tail c ih =
      subst
        (λ x.
          rewrite_all py o names routed ((name, obj (of_dict x)) ∷ tail)
          ≡ ok (settled out ((name, svc) ∷ rest)))
        (set_same "labels" (strs []) svc c.labels)
        (rewrite_entry name svc (strs []) (start py) routed routed out rest tail c refl refl ih)

  rewrite_unrouted :
      (routed : Option (String × String)) (d : Dict Service)
      → AllClean py o names d
      → rewrite_all py o names routed (services_json d) ≡ ok (settled routed d)
  unfolding rewrite_all services_json
  rewrite_unrouted routed [] c = refl
  rewrite_unrouted routed ((name, svc) ∷ d) (c, cs) =
      rewrite_plain name svc routed routed d (services_json d) c (rewrite_unrouted routed d cs)

  -- The one service with the router's labels is found again, and nothing else changes.
  pub rewrite_routed :
      (name port : String) (shown : Json) (d : Dict Service)
      → scan_labels py (some shown) ≡ ok (record { enabled = true; port = some port })
      → has name d ≡ true
      → AllClean py o names d
      → rewrite_all py o names none (services_json (set_in name "labels" shown d))
        ≡ ok (settled (some (name, port)) d)
  unfolding services_json set_in has route
  rewrite_routed name port shown [] scanned there c = cc
  rewrite_routed name port shown ((j, svc) ∷ d) scanned there (c, cs) =
      elim (Bool-cases (name == j)) [
        | inl same ↦ rw same (
            rewrite_entry j svc shown _ none (some (name, port)) (some (name, port)) d
              (services_json d) c scanned
              (ap (λ n. ok (some (n, port))) (sym ((eq_iff name j).0 same)))
              (rewrite_unrouted (some (name, port)) d cs))
        | inr other ↦ rw other (
            rewrite_plain j svc none (some (name, port)) d _ c
              (rewrite_routed name port shown d scanned (rw other at there) cs))
      ]
