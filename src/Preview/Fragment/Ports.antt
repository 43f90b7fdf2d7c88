-- ===== src/Preview/Fragment/Ports.antt =====
-- The port that the loop over the labels finds is a text of decimal digits.
use nyc_pa_aws_gitops.Prelude.{
  String, ◌≡◌, Bool, true, false, ◌&&◌, Option, none, some, List, [], ◌∷◌, if◌then◌else◌,
  is_nonempty, all_chars, subst, inl, inr, Bool-cases, strip_prefix,
}
use nyc_pa_aws_gitops.Prelude.Json.{Json, null, bool, num, str, arr, obj, Items, nil, cons, truthy}
use nyc_pa_aws_gitops.Prelude.Results.{Result, ok, err}
use nyc_pa_aws_gitops.Preview.Fragment.{
  Python, Failure, crash, Scan, is_decimal, port_behind, port_at_router, port_at_services, port_of,
  scan_label, scan_texts, scan_items, scan_labels, start, label_texts,
}
use nyc_pa_aws_gitops.Preview.Fragment.Router.{IsPort}

module _ (py : Python) where
  abbrev pub IsPortIfAny : Option String → Type 0
  IsPortIfAny none = Unit
  IsPortIfAny (some p) = IsPort py p

  port_behind-IsPort : (r : String) (o : Option String) → IsPortIfAny (port_behind py r o)
  unfolding port_behind
  port_behind-IsPort r none = tt
  port_behind-IsPort r (some p) = elim (Bool-cases (is_nonempty p && all_chars (is_decimal py) p)) [
    | inl h ↦ elim (Bool-cases (is_nonempty r)) [ inl n ↦ rw (n, h) h | inr n ↦ rw n tt ]
    | inr h ↦ elim (Bool-cases (is_nonempty r)) [ inl n ↦ rw (n, h) tt | inr n ↦ rw n tt ]
  ]

  port_at_router-IsPort : (o : Option (String × String)) → IsPortIfAny (port_at_router py o)
  unfolding port_at_router
  port_at_router-IsPort none = tt
  port_at_router-IsPort (some (r, behind)) = port_behind-IsPort r _

  port_at_services-IsPort : (o : Option String) → IsPortIfAny (port_at_services py o)
  unfolding port_at_services
  port_at_services-IsPort none = tt
  port_at_services-IsPort (some rest) = port_at_router-IsPort _

  newer :
      (found old : Option String)
      → IsPortIfAny found
      → IsPortIfAny old
      → IsPortIfAny (elim found [ none ↦ old | some p ↦ some p ])
  newer none old f h = h
  newer (some p) old f h = f

  scan_label-IsPort :
      (s : Scan) (label : String) → IsPortIfAny s.port → IsPortIfAny (scan_label py s label).port
  unfolding port_of
  scan_label-IsPort s label h =
      newer (port_of py label) s.port
        (port_at_services-IsPort (strip_prefix "traefik.http.services." label)) h

  scan_texts-IsPort :
      (s : Scan) (ls : List String) → IsPortIfAny s.port → IsPortIfAny (scan_texts py s ls).port
  unfolding scan_texts
  scan_texts-IsPort s [] h = h
  scan_texts-IsPort s (l ∷ ls) h =
      scan_texts-IsPort (scan_label py s l) ls (scan_label-IsPort s l h)

  done :
      (s t : Scan)
      → IsPortIfAny s.port
      → ◌≡◌ {A = Result Failure Scan} (ok s) (ok t)
      → IsPortIfAny t.port
  done s t h e = let same : s ≡ t = cc in subst (λ x. IsPortIfAny x.port) same h

  unless :
      (b : Bool) (t : Scan) → (if b then err crash else ok (start py)) ≡ ok t → IsPortIfAny t.port
  unless true t e = cc
  unless false t e = done (start py) t tt e

  scan_items-IsPort :
      (s t : Scan) (ls : Items)
      → IsPortIfAny s.port
      → scan_items py s ls ≡ ok t
      → IsPortIfAny t.port
  unfolding scan_items
  scan_items-IsPort s t nil h e = done s t h e
  scan_items-IsPort s t (cons (str l) ls) h e =
      scan_items-IsPort (scan_label py s l) t ls (scan_label-IsPort s l h) e
  scan_items-IsPort s t (cons _ ls) h e = cc

  -- A port that the scan of the labels finds is a text of decimal digits.
  pub scan_labels-IsPort :
      (v : Option Json) (t : Scan) → scan_labels py v ≡ ok t → IsPortIfAny t.port
  unfolding scan_labels
  scan_labels-IsPort none t e = done (start py) t tt e
  scan_labels-IsPort (some (obj fs)) t e =
      done (scan_texts py (start py) (label_texts py fs)) t
        (scan_texts-IsPort (start py) (label_texts py fs) tt) e
  scan_labels-IsPort (some (arr xs)) t e = scan_items-IsPort (start py) t xs tt e
  scan_labels-IsPort (some (str x)) t e = done (start py) t tt e
  scan_labels-IsPort (some null) t e = done (start py) t tt e
  scan_labels-IsPort (some (bool b)) t e = unless b t e
  scan_labels-IsPort (some (num x)) t e = unless (truthy (num x)) t e
