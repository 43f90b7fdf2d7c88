-- ===== src/Preview/Fragment/Router.antt =====
-- The labels that the script gives to the routed service, as its own loop reads them back.
use text.Mathlib.TextLemmas.{cons-append, append-nil}
use nyc_pa_aws_gitops.Prelude.{
  String, ◌<>◌, ◌≡◌, refl, ap, ◌∙◌, true, not, ◌&&◌, Option, none, some, List, [], map, ◌++◌, ◌∷◌,
  eqb, arith, strip_prefix-append, strip_prefix_clash, clashes, split_first, split_first-append,
  all_chars, is_nonempty,
}
use nyc_pa_aws_gitops.Prelude.Json.{strs, str_items}
use nyc_pa_aws_gitops.Prelude.Results.{ok}
use nyc_pa_aws_gitops.Preview.Fragment.{
  Python, Scan, is_decimal, port_behind, port_at_router, port_at_services, port_of, scan_label,
  scan_items, scan_labels,
}

-- The labels of the routed service, with `r` for the router's name.
unfoldable pub router_labels : String → String → String → List String
router_labels r host port =
    "traefik.enable=true"
    ∷ "traefik.docker.network=preview"
    ∷ ("traefik.http.routers." <> (r <> (".rule=Host(`" <> (host <> "`)"))))
    ∷ ("traefik.http.routers." <> (r <> ".entrypoints=websecure"))
    ∷ ("traefik.http.routers." <> (r <> ".tls.certresolver=route53"))
    ∷ ("traefik.http.routers." <> (r <> ".tls.domains[0].main=*.preview.billandjessie.com"))
    ∷ ("traefik.http.routers." <> (r <> ".middlewares=hsts@docker,authentik-forward-auth@docker"))
    ∷ ("traefik.http.services." <> (r <> (".loadbalancer.server.port=" <> port)))
    ∷ []

module _ (py : Python) where
  abbrev pub IsPort : String → Type 0
  IsPort port = (is_nonempty port && all_chars (is_decimal py) port) ≡ true

  port_of_other :
      (s t : String) → clashes "traefik.http.services." s ≡ true → port_of py (s <> t) ≡ none
  unfolding port_of port_at_services
  port_of_other s t h = rw (strip_prefix_clash "traefik.http.services." s t h)

  module _ (r port : String) (n : is_nonempty r ≡ true) (p : IsPort port) where
    behind_dot :
        split_first b'.' (".loadbalancer.server.port=" <> port)
        ≡ some ("", "loadbalancer.server.port=" <> port)
    unfolding split_first
    behind_dot = rw (cons-append "." "loadbalancer.server.port=" port)

    port_of_router :
        all_chars (λ c. not (eqb c b'.')) r ≡ true
        → port_of py ("traefik.http.services." <> (r <> (".loadbalancer.server.port=" <> port)))
          ≡ some port
    unfolding port_of port_at_services port_at_router port_behind
    port_of_router d = rw (
      strip_prefix-append "traefik.http.services.",
      split_first-append b'.' r _ _ _ d behind_dot,
      append-nil r,
      strip_prefix-append "loadbalancer.server.port=" port,
      n,
      p,
    )

    -- Once the service is enabled, a label is only looked at for its port.
    scan_label_enabled :
        (o : Option String) (label : String)
        → scan_label py (record { enabled = true; port = o }) label
          ≡ record { enabled = true; port = elim (port_of py label) [ none ↦ o | some q ↦ some q ] }
    scan_label_enabled o label = ground arith

    scan_routers :
        (o : Option String) (t : String)
        → scan_label py (record { enabled = true; port = o }) ("traefik.http.routers." <> t)
          ≡ record { enabled = true; port = o }
    unfolding clashes
    scan_routers o t = rw scan_label_enabled (rw (port_of_other "traefik.http.routers." t refl))

    enabled_with : Option String → Scan
    enabled_with o = record { enabled = true; port = o }

    scan_all_routers :
        (o : Option String) (ts rest : List String)
        → scan_items py
            (enabled_with o)
            (str_items (map (λ t. "traefik.http.routers." <> t) ts ++ rest))
          ≡ scan_items py (enabled_with o) (str_items rest)
    unfolding enabled_with scan_items
    scan_all_routers o [] rest = refl
    scan_all_routers o (t ∷ ts) rest =
        ap (λ s. scan_items py s (str_items (map (λ t. "traefik.http.routers." <> t) ts ++ rest)))
          (scan_routers o t)
        ∙ scan_all_routers o ts rest

    scan_last :
        all_chars (λ c. not (eqb c b'.')) r ≡ true
        → scan_label py
            (enabled_with none)
            ("traefik.http.services." <> (r <> (".loadbalancer.server.port=" <> port)))
          ≡ enabled_with (some port)
    unfolding enabled_with
    scan_last d = rw scan_label_enabled (rw (port_of_router d))

    -- The router's labels are read as routed, with the port that they were made from.
    pub scan_router_labels :
        (host : String)
        → all_chars (λ c. not (eqb c b'.')) r ≡ true
        → scan_labels py (some (strs (router_labels r host port)))
          ≡ ok (record { enabled = true; port = some port })
    unfolding scan_labels router_labels enabled_with
    scan_router_labels host d =
        scan_all_routers none
          ((r <> (".rule=Host(`" <> (host <> "`)")))
            ∷ (r <> ".entrypoints=websecure")
            ∷ (r <> ".tls.certresolver=route53")
            ∷ (r <> ".tls.domains[0].main=*.preview.billandjessie.com")
            ∷ (r <> ".middlewares=hsts@docker,authentik-forward-auth@docker")
            ∷ [])
          (("traefik.http.services." <> (r <> (".loadbalancer.server.port=" <> port))) ∷ [])
        ∙ ap ok (scan_last d)
