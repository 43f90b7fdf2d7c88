-- ===== src/Mopeka/Sensors/Known.antt =====
-- Every gauge that is set is one of a sensor that was discovered, and no sensor is forgotten.
use nyc_pa_aws_gitops.Prelude.{
  String, ◌≡◌, refl, Bool, true, false, Option, none, some, List, [], ◌∷◌, ◌++◌, arith, eq_refl,
  subst, All,
}
use nyc_pa_aws_gitops.Prelude.Results.{ok, err, >>=-eq-ok, ok_inj}
use nyc_pa_aws_gitops.Prelude.Dict.{Dict, get, set, has}
use nyc_pa_aws_gitops.Prelude.DictLaws.{has-set}
use nyc_pa_aws_gitops.Mopeka.Address.{mac_of}
use nyc_pa_aws_gitops.Mopeka.Tanks.{Step, Tank, fill_percent}
use nyc_pa_aws_gitops.Mopeka.Sensors.{
  Setting, Entity, Update, Advertisement, Library, Exporter, metric_of, setting_for,
  entity_settings, settings_of, fill_setting, tank_or_bare, level_of, sensor_name, fill_settings,
  last_settings, with_fill, publish, updated, admitted, known, heard, handle_advertisement, on_raw,
}

module _ {N : Type 0} where
  -- Each of the settings has the address `mac`.
  abbrev Of : String → List (Setting N) → Type 0
  Of mac gs = All (λ g. g.mac ≡ mac) gs

  Of-append : (mac : String) (gs hs : List (Setting N)) → Of mac gs → Of mac hs → Of mac (gs ++ hs)
  Of-append mac [] hs a b = b
  Of-append mac (g ∷ gs) hs a b = (a.0, Of-append mac gs hs a.1 b)

module _ {D : Type 0} where
  has-set_same : (mac : String) (d : D) (sensors : Dict D) → has mac (set mac d sensors) ≡ true
  has-set_same mac d sensors = rw (has-set mac mac d sensors, eq_refl mac) refl

  has-set_other :
      (m mac : String) (d : D) (sensors : Dict D)
      → has m sensors ≡ true
      → has m (set mac d sensors) ≡ true
  has-set_other m mac d sensors h = rw (has-set m mac d sensors) (ground (arith, h))

module _ {N D : Type 0} where
  -- Each gauge that was set has the address of a sensor that is known.
  abbrev pub IsKnown : Exporter N D → Type 0
  IsKnown x = All (λ g. has g.mac x.sensors ≡ true) x.gauges

  IsKnown-Of :
      (mac : String) (d : Dict D) (gs hs : List (Setting N))
      → has mac d ≡ true
      → All (λ g. has g.mac d ≡ true) gs
      → Of mac hs
      → All (λ g. has g.mac d ≡ true) (gs ++ hs)
  IsKnown-Of mac d [] [] m a b = tt
  IsKnown-Of mac d [] (h ∷ hs) m a b = (rw b.0 m, IsKnown-Of mac d [] hs m a b.1)
  IsKnown-Of mac d (g ∷ gs) hs m a b = (a.0, IsKnown-Of mac d gs hs m a.1 b)

  IsKnown-set :
      (mac : String) (d : D) (sensors : Dict D) (gs : List (Setting N))
      → All (λ g. has g.mac sensors ≡ true) gs
      → All (λ g. has g.mac (set mac d sensors) ≡ true) gs
  IsKnown-set mac d sensors [] a = tt
  IsKnown-set mac d sensors (g ∷ gs) a =
      (has-set_other g.mac mac d sensors a.0, IsKnown-set mac d sensors gs a.1)

  -- What a step keeps: the sensors that are known, and that all gauges are theirs.
  pub record Keeps (x y : Exporter N D) : Type 0 where
    pub grown : (m : String) → has m x.sensors ≡ true → has m y.sensors ≡ true
    pub known : IsKnown x → IsKnown y

  pub Keeps-same : (x : Exporter N D) → Keeps x x
  Keeps-same x = record { grown = λ m h. h; known = λ k. k }

  pub Keeps-then : (x y z : Exporter N D) → Keeps x y → Keeps y z → Keeps x z
  Keeps-then x y z a b = record {
    grown = λ m h. b.grown m (a.grown m h);
    known = λ k. b.known (a.known k);
  }

  Keeps-set :
      (mac : String) (d : D) (x : Exporter N D)
      → Keeps x (record { sensors = set mac d x.sensors; gauges = x.gauges })
  Keeps-set mac d x = record {
    grown = λ m h. has-set_other m mac d x.sensors h;
    known = λ k. IsKnown-set mac d x.sensors x.gauges k;
  }

  Keeps-settings :
      (mac : String) (x : Exporter N D) (gs : List (Setting N))
      → has mac x.sensors ≡ true
      → Of mac gs
      → Keeps x (record { sensors = x.sensors; gauges = x.gauges ++ gs })
  Keeps-settings mac x gs m o = record {
    grown = λ n h. h;
    known = λ k. IsKnown-Of mac x.sensors x.gauges gs m k o;
  }

module _ {N R S D : Type 0} (lib : Library N R S D) where
  entity-Of :
      (name mac : String) (metric : Option String) (v : N)
      → Of mac (setting_for lib name mac metric v)
  entity-Of name mac none v = tt
  entity-Of name mac (some g) v = (refl, tt)

  value-Of : (name mac key : String) (v : Option N) → Of mac (entity_settings lib name mac key v)
  value-Of name mac key none = tt
  value-Of name mac key (some v) = entity-Of name mac (metric_of key) v

  settings-Of : (name mac : String) (es : List (Entity N)) → Of mac (settings_of lib name mac es)
  unfolding settings_of
  settings-Of name mac [] = tt
  settings-Of name mac (e ∷ es) =
      Of-append mac (entity_settings lib name mac e.key e.value) (settings_of lib name mac es)
        (value-Of name mac e.key e.value) (settings-Of name mac es)

  fill-Of : (name mac : String) (pct : Option N) → Of mac (fill_setting lib name mac pct)
  fill-Of name mac none = tt
  fill-Of name mac (some pct) = (refl, tt)

  fill_settings-Of :
      (name mac : String) (cfg : Option Tank) (level : Option N) (gs : List (Setting N))
      → fill_settings lib name mac cfg level ≡ ok gs
      → Of mac gs
  unfolding fill_settings
  fill_settings-Of name mac cfg none gs h = subst (λ z. Of mac z) (ok_inj h) tt
  fill_settings-Of name mac cfg (some level) gs h =
      let (pct, e, h1) = >>=-eq-ok (fill_percent lib.numbers level (tank_or_bare lib cfg)) _ h in
      subst (λ z. Of mac z) (ok_inj h1) (fill-Of name mac pct)

  with_fill-Keeps :
      (proxy name mac : String) (rssi : N) (x : Exporter N D) (fill : Step (List (Setting N)))
      → has mac x.sensors ≡ true
      → ((gs : List (Setting N)) → fill ≡ ok gs → Of mac gs)
      → Keeps x (with_fill lib proxy name mac rssi x fill).1
  with_fill-Keeps proxy name mac rssi x (err e) m o = Keeps-same x
  with_fill-Keeps proxy name mac rssi x (ok gs) m o =
      Keeps-settings mac x _ m
        (Of-append mac gs (last_settings lib proxy name mac rssi) (o gs refl) (refl, (refl, tt)))

  publish-Keeps :
      (tanks : Dict Tank) (proxy mac : String) (rssi : N) (x : Exporter N D) (u : Update N)
      → has mac x.sensors ≡ true
      → Keeps x (publish lib tanks proxy mac rssi x u).1
  unfolding publish
  publish-Keeps tanks proxy mac rssi x u m =
      let name = sensor_name lib (get mac tanks) u.devices mac in
      let y : Exporter N D = record {
        sensors = x.sensors;
        gauges = x.gauges ++ settings_of lib name mac u.entities;
      } in
      Keeps-then x y _ (Keeps-settings mac x _ m (settings-Of name mac u.entities)) (
        with_fill-Keeps proxy name mac rssi y
          (fill_settings lib name mac (get mac tanks) (level_of lib u.entities none)) m
          (λ gs e. fill_settings-Of name mac (get mac tanks) (level_of lib u.entities none) gs e))

  updated-Keeps :
      (tanks : Dict Tank) (proxy mac : String) (rssi : N) (x : Exporter N D)
      (r : Step (Update N) × D)
      → Keeps x (updated lib tanks proxy mac rssi x r).1
  updated-Keeps tanks proxy mac rssi x (err e, d) = Keeps-set mac d x
  updated-Keeps tanks proxy mac rssi x (ok u, d) =
      Keeps-then x (record { sensors = set mac d x.sensors; gauges = x.gauges }) _
        (Keeps-set mac d x) (publish-Keeps tanks proxy mac rssi _ u (has-set_same mac d x.sensors))

  admitted-Keeps :
      (tanks : Dict Tank) (proxy mac : String) (rssi : N) (x : Exporter N D) (s : S)
      (r : Step Bool × D)
      → Keeps x (admitted lib tanks proxy mac rssi x s r).1
  admitted-Keeps tanks proxy mac rssi x s (err e, d) = Keeps-same x
  admitted-Keeps tanks proxy mac rssi x s (ok false, d) = Keeps-same x
  admitted-Keeps tanks proxy mac rssi x s (ok true, d) =
      updated-Keeps tanks proxy mac rssi x (lib.update d s)

  known-Keeps :
      (tanks : Dict Tank) (proxy mac : String) (rssi : N) (x : Exporter N D) (s : S) (o : Option D)
      → Keeps x (known lib tanks proxy mac rssi x s o).1
  known-Keeps tanks proxy mac rssi x s none =
      admitted-Keeps tanks proxy mac rssi x s (lib.supported lib.fresh s)
  known-Keeps tanks proxy mac rssi x s (some d) =
      updated-Keeps tanks proxy mac rssi x (lib.update d s)

  heard-Keeps :
      (tanks : Dict Tank) (proxy mac : String) (rssi : N) (x : Exporter N D) (r : Step S)
      → Keeps x (heard lib tanks proxy mac rssi x r).1
  heard-Keeps tanks proxy mac rssi x (err e) = Keeps-same x
  heard-Keeps tanks proxy mac rssi x (ok s) =
      known-Keeps tanks proxy mac rssi x s (get mac x.sensors)

  -- A response, whichever of its advertisements fail, makes the exporter forget no sensor, and when
  -- each gauge that was set had the address of a sensor that was known, so it is after the response.
  pub on_raw-Keeps :
      (tanks : Dict Tank) (proxy : String) (as' : List (Advertisement N R)) (x : Exporter N D)
      → Keeps x (on_raw lib tanks proxy as' x)
  unfolding on_raw handle_advertisement
  on_raw-Keeps tanks proxy [] x = Keeps-same x
  on_raw-Keeps tanks proxy (a ∷ as') x =
      let mac = mac_of a.address in
      let y = (handle_advertisement lib tanks proxy a x).1 in
      Keeps-then x y _ (heard-Keeps tanks proxy mac a.rssi x (lib.parse mac a.rssi a.raw))
        (on_raw-Keeps tanks proxy as' y)
