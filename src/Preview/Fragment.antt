-- ===== src/Preview/Fragment.antt =====
-- Reading a service of the fragment: its labels, its environment and its image.
pub mod Router
pub mod Ports
use Prim.Native.String
use nyc_pa_aws_gitops.Prelude.{
  ℕ, String, ◌<>◌, Bool, true, false, not, ◌&&◌, ◌||◌, Option, none, some, List, [], ◌∷◌, ◌==◌, ltb,
  eqb, if◌then◌else◌, all_chars, is_nonempty, is_digit, strip_prefix, split_first, code,
}
pub use nyc_pa_aws_gitops.Prelude.Python.{Python}
unfoldable pub use nyc_pa_aws_gitops.Prelude.Python.{is_decimal, text_of}
use nyc_pa_aws_gitops.Prelude.Dict.{Dict, get, set}
use nyc_pa_aws_gitops.Prelude.Json.{
  Json, null, bool, num, str, arr, obj, Items, nil, cons, Fields, end, field, to_dict, truthy,
}
use nyc_pa_aws_gitops.Prelude.Results.{Result, ok, err, ◌>>=◌}

-- `exit` is `sys.exit(message)`, `crash` an uncaught exception. Both leave no output file.
pub data Failure : Type 0 where
  exit : String → Failure
  crash : Failure

-- What the loop over the labels finds: `traefik.enable=true`, and the last port label.
pub record Scan : Type 0 where
  pub enabled : Bool
  pub port : Option String

module _ (py : Python) where
  -- `[f"{k}={v}" for k, v in labels.items()]`
  unfoldable pub label_texts : Fields → List String
  unfolding text_of
  label_texts end = []
  label_texts (field k v fs) = (k <> ("=" <> text_of py v)) ∷ label_texts fs

  -- `[^.]+` is the text before the first dot, and what follows it has to be the rest of the pattern.
  port_behind : String → Option String → Option String
  unfolding all_chars is_nonempty
  port_behind router none = none
  port_behind router (some port) =
      if is_nonempty router && (is_nonempty port && all_chars (is_decimal py) port)
      then some port
      else none

  port_at_router : Option (String × String) → Option String
  unfolding strip_prefix
  port_at_router none = none
  port_at_router (some (router, behind)) =
      port_behind router (strip_prefix "loadbalancer.server.port=" behind)

  port_at_services : Option String → Option String
  unfolding split_first
  port_at_services none = none
  port_at_services (some rest) = port_at_router (split_first b'.' rest)

  -- The group of `traefik\.http\.services\.[^.]+\.loadbalancer\.server\.port=(\d+)`, where the
  -- whole label matches.
  pub port_of : String → Option String
  unfolding strip_prefix port_behind port_at_router port_at_services
  port_of label = port_at_services (strip_prefix "traefik.http.services." label)

  abbrev pub scan_label : Scan → String → Scan
  scan_label s label = record {
    enabled = label == "traefik.enable=true" || s.enabled;
    port = elim (port_of label) [ none ↦ s.port | some p ↦ some p ];
  }

  unfoldable pub scan_texts : Scan → List String → Scan
  unfolding port_of
  scan_texts s [] = s
  scan_texts s (label ∷ labels) = scan_texts (scan_label s label) labels

  -- The labels of a list; `re.fullmatch` raises for one that is no text.
  unfoldable pub scan_items : Scan → Items → Result Failure Scan
  unfolding port_of
  scan_items s nil = ok s
  scan_items s (cons (str label) labels) = scan_items (scan_label s label) labels
  scan_items s (cons _ labels) = err crash

  abbrev pub start : Scan
  start = record { enabled = false; port = none }

  -- `labels = svc.get("labels") or []` and the loop over them. A text is walked by its characters,
  -- none of which is a label that counts.
  unfoldable pub scan_labels : Option Json → Result Failure Scan
  unfolding scan_texts scan_items label_texts truthy
  scan_labels none = ok start
  scan_labels (some (obj fs)) = ok (scan_texts start (label_texts fs))
  scan_labels (some (arr xs)) = scan_items start xs
  scan_labels (some (str t)) = ok start
  scan_labels (some v) = if truthy v then err crash else ok start

-- `dict(e.split("=", 1) if "=" in e else (e, "") for e in env)`
unfoldable pub env_of_items : Dict Json → Items → Result Failure (Dict Json)
unfolding split_first set
env_of_items env nil = ok env
env_of_items env (cons (str e) es) =
    env_of_items
      (elim (split_first b'=' e) [ some (k, v) ↦ set k (str v) env | none ↦ set e (str "") env ]) es
env_of_items env (cons _ es) = err crash

-- `env = svc.get("environment") or {}`, with the conversion of the list form; assigning a key of
-- any other value raises.
unfoldable pub environment_of : Option Json → Result Failure (Dict Json)
unfolding env_of_items truthy
environment_of none = ok []
environment_of (some (obj fs)) = ok (to_dict fs)
environment_of (some (arr xs)) = env_of_items [] xs
environment_of (some v) = if truthy v then err crash else ok []
