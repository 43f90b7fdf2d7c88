-- ===== src/Mopeka/Proxies/Down.antt =====
-- A proxy whose connection has ended is told to be down, however it ended.
use nyc_pa_aws_gitops.Prelude.{String, ◌≡◌, refl, ◌∙◌, false, some, List, [], ◌∷◌, ◌==◌, eq_refl}
use nyc_pa_aws_gitops.Prelude.Results.{ok, err}
use nyc_pa_aws_gitops.Prelude.Dict.{Dict, get, set}
use nyc_pa_aws_gitops.Prelude.DictLaws.{get-set}
use nyc_pa_aws_gitops.Mopeka.Tanks.{Numbers, Step, Tank}
use nyc_pa_aws_gitops.Mopeka.Sensors.{Advertisement, Library, Exporter, on_raw}
use nyc_pa_aws_gitops.Mopeka.Sensors.Known.{Keeps, Keeps-same, Keeps-then, on_raw-Keeps}
use nyc_pa_aws_gitops.Mopeka.Proxies.{
  Link, Station, receive, subscribed, informed, connected, run_once,
}

-- What a connection to the proxy `name` does to the gauge of the other proxies, and to the sensors.
pub record Apart {N D : Type 0} (name : String) (x y : Station N D) : Type 0 where
  pub others : (m : String) → m == name ≡ false → get m y.up ≡ get m x.up
  pub keeps : Keeps x.exporter y.exporter

-- After a connection the proxy `name` is down.
pub record Down {N D : Type 0} (nb : Numbers N) (name : String) (x y : Station N D) : Type 0 where
  pub down : get name y.up ≡ some nb.zero
  pub apart : Apart name x y

Apart-same : {N D : Type 0} (name : String) (x : Station N D) → Apart name x x
Apart-same name x = record { others = λ m h. refl; keeps = Keeps-same x.exporter }

Apart-then :
    {N D : Type 0} (name : String) (x y z : Station N D)
    → Apart name x y
    → Apart name y z
    → Apart name x z
Apart-then name x y z a b = record {
  others = λ m h. b.others m h ∙ a.others m h;
  keeps = Keeps-then x.exporter y.exporter z.exporter a.keeps b.keeps;
}

module _ {N R S D : Type 0} (lib : Library N R S D) (one : N) (tanks : Dict Tank)
    (name : String) where
  get-set_other :
      (m : String) (v : N) (up : Dict N) → m == name ≡ false → get m (set name v up) ≡ get m up
  get-set_other m v up h = rw (get-set m name v up, h) refl

  Apart-set :
      (v : N) (success : Dict N) (x : Station N D)
      → Apart name x (record { exporter = x.exporter; up = set name v x.up; success = success })
  Apart-set v success x = record {
    others = λ m h. get-set_other m v x.up h;
    keeps = Keeps-same x.exporter;
  }

  receive-Keeps :
      (rs : List (List (Advertisement N R))) (x : Exporter N D)
      → Keeps x (receive lib one tanks name rs x)
  unfolding receive
  receive-Keeps [] x = Keeps-same x
  receive-Keeps (r ∷ rs) x =
      Keeps-then x (on_raw lib tanks name r x) _ (on_raw-Keeps lib tanks name r x)
        (receive-Keeps rs (on_raw lib tanks name r x))

  subscribed-Apart :
      (link : Link N R) (st : Station N D) (r : Step (Unit {0}))
      → Apart name st (subscribed lib one tanks name link st r).1
  subscribed-Apart link st (err e) = Apart-same name st
  subscribed-Apart link st (ok u) = record {
    others = λ m h. refl;
    keeps = receive-Keeps link.responses st.exporter;
  }

  informed-Apart :
      (link : Link N R) (st : Station N D) (r : Step (Unit {0}))
      → Apart name st (informed lib one tanks name link st r).1
  informed-Apart link st (err e) = Apart-same name st
  informed-Apart link st (ok u) =
      Apart-then name st _ _ (Apart-set one (set name lib.now st.success) st)
        (subscribed-Apart link _ link.subscribe)

  connected-Apart :
      (link : Link N R) (st : Station N D) (r : Step (Unit {0}))
      → Apart name st (connected lib one tanks name link st r).1
  connected-Apart link st (err e) = Apart-same name st
  connected-Apart link st (ok u) = informed-Apart link st link.device_info

  -- However a connection ends, by itself or by an exception at any step, its proxy is told to be down
  -- after it, the gauges of the other proxies are what they were, no sensor is forgotten, and each gauge
  -- of a sensor still has the address of a sensor that is known.
  pub run_once-Down :
      (link : Link N R) (st : Station N D)
      → Down lib.numbers name st (run_once lib one tanks name link st).1
  unfolding run_once
  run_once-Down link st =
      let mid = (connected lib one tanks name link st link.connect).1 in
      record {
        down = rw (get-set name name lib.numbers.zero mid.up, eq_refl name) refl;
        apart =
            Apart-then name st mid _ (connected-Apart link st link.connect)
              (Apart-set lib.numbers.zero mid.success mid);
      }
