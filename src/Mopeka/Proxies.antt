-- ===== src/Mopeka/Proxies.antt =====
-- compose/nuc/mopeka-exporter/mopeka_exporter.py: the list of the proxies, and a connection to one. What
-- the client of a proxy answers is a parameter.
pub mod Down
use nyc_pa_aws_gitops.Prelude.{
  ℕ, String, ◌<>◌, Bool, true, false, not, Option, none, some, List, [], ◌∷◌, ◌++◌, map, ◌==◌, eqb,
  if◌then◌else◌, length, keep, strip,
}
use nyc_pa_aws_gitops.Prelude.Results.{Result, ok, err, ◌>>=◌}
use nyc_pa_aws_gitops.Prelude.Dict.{Dict, get, set}
use nyc_pa_aws_gitops.Prelude.Paths.{split_on}
use nyc_pa_aws_gitops.Mopeka.Tanks.{Numbers, Step, Tank}
use nyc_pa_aws_gitops.Mopeka.Sensors.{Advertisement, Library, Exporter, on_raw}

pub record Proxy : Type 0 where
  pub host : String
  pub key : String
  pub name : String

abbrev is_text : String → Bool
is_text s = not (s == "")

unfoldable stripped : List String → List String
unfolding strip
stripped [] = []
stripped (s ∷ ss) = strip s ∷ stripped ss

-- `zip(hosts, keys, names)`
unfoldable zip_proxies : List String → List String → List String → List Proxy
zip_proxies (h ∷ hs) (k ∷ ks) (n ∷ ns) =
    record { host = h; key = k; name = n } ∷ zip_proxies hs ks ns
zip_proxies _ _ _ = []

abbrev names_or_hosts : List String → List String → List String
names_or_hosts hosts names = if eqb (length names) (length hosts) then names else hosts

abbrev proxies_of : List String → List String → List String → Step (List Proxy)
proxies_of hosts keys names =
    if eqb (length hosts) (length keys)
    then ok (zip_proxies hosts keys (names_or_hosts hosts names))
    else err "SystemExit"

-- `PROXIES` from the three variables of the environment.
unfoldable pub proxies : String → String → String → Step (List Proxy)
unfolding split_on stripped zip_proxies
proxies hosts keys names =
    proxies_of (keep is_text (stripped (split_on b',' hosts))) (stripped (split_on b',' keys))
      (keep is_text (stripped (split_on b',' names)))

-- A connection: what its calls give, and the responses that come until the proxy ends it.
pub record Link (N R : Type 0) : Type 0 where
  pub connect : Step (Unit {0})
  pub device_info : Step (Unit {0})
  pub subscribe : Step (Unit {0})
  pub responses : List (List (Advertisement N R))
  pub disconnect : Step (Unit {0})

-- The exporter with the gauges of the proxies: `mopeka_proxy_up` and the time of the last success.
pub record Station (N D : Type 0) : Type 0 where
  pub exporter : Exporter N D
  pub up : Dict N
  pub success : Dict N

module _ {N R S D : Type 0} (lib : Library N R S D) (one : N) (tanks : Dict Tank) where
  -- The responses of a subscription.
  unfoldable pub receive : String → List (List (Advertisement N R)) → Exporter N D → Exporter N D
  unfolding on_raw
  receive name [] x = x
  receive name (r ∷ rs) x = receive name rs (on_raw lib tanks name r x)

  abbrev pub subscribed :
      String → Link N R → Station N D → Step (Unit {0}) → Step (Unit {0}) × Station N D
  subscribed name link st (err e) = (err e, st)
  subscribed name link st (ok u) = (
    ok tt,
    record { exporter = receive name link.responses st.exporter; up = st.up; success = st.success },
  )

  abbrev pub informed :
      String → Link N R → Station N D → Step (Unit {0}) → Step (Unit {0}) × Station N D
  informed name link st (err e) = (err e, st)
  informed name link st (ok u) =
      subscribed name link
        (record {
          exporter = st.exporter;
          up = set name one st.up;
          success = set name lib.now st.success;
        })
        link.subscribe

  abbrev pub connected :
      String → Link N R → Station N D → Step (Unit {0}) → Step (Unit {0}) × Station N D
  connected name link st (err e) = (err e, st)
  connected name link st (ok u) = informed name link st link.device_info

  -- The `finally` clause, in which an exception of the disconnection is dropped.
  abbrev pub finally_down : String → Step (Unit {0}) × Station N D → Step (Unit {0}) × Station N D
  finally_down name (r, st) = (
    r,
    record { exporter = st.exporter; up = set name lib.numbers.zero st.up; success = st.success },
  )

  -- `_run_once`
  unfoldable pub run_once : String → Link N R → Station N D → Step (Unit {0}) × Station N D
  unfolding set receive
  run_once name link st = finally_down name (connected name link st link.connect)

  -- `_proxy_loop` over the connections that are made one after the other: an exception is logged.
  unfoldable pub proxy_loop : String → List (Link N R) → Station N D → Station N D
  unfolding run_once
  proxy_loop name [] st = st
  proxy_loop name (l ∷ ls) st = proxy_loop name ls (run_once name l st).1

  -- `main`: each proxy is down at first.
  unfoldable pub start_down : List Proxy → Station N D → Station N D
  unfolding set
  start_down [] st = st
  start_down (p ∷ ps) st = start_down ps (record {
    exporter = st.exporter;
    up = set p.name lib.numbers.zero st.up;
    success = st.success;
  })
