-- ===== src/Mopeka/Sensors.antt =====
-- compose/nuc/mopeka-exporter/mopeka_exporter.py: the handling of advertisements. The parser of an
-- advertisement and the decoder of a sensor, which has a state of its own, are parameters. The gauges
-- are the list of what they were set to, in order.
pub mod Known
use nyc_pa_aws_gitops.Prelude.{
  ℕ, String, ◌<>◌, Bool, true, false, not, ◌&&◌, ◌||◌, Option, none, some, List, [], ◌∷◌, ◌++◌,
  ◌==◌, if◌then◌else◌,
}
use nyc_pa_aws_gitops.Prelude.Results.{Result, ok, err, ◌>>=◌}
use nyc_pa_aws_gitops.Prelude.Dict.{Dict, get, set}
use nyc_pa_aws_gitops.Prelude.Json.{Json, null, bool, num, str, arr, obj, truthy}
use nyc_pa_aws_gitops.Prelude.Python.{Python, text_of}
use nyc_pa_aws_gitops.Mopeka.Address.{mac_of}
use nyc_pa_aws_gitops.Mopeka.Tanks.{Numbers, Step, Tank, fill_percent}

-- A gauge set for a sensor: the name of the gauge, its labels and its value.
pub record Setting (N : Type 0) : Type 0 where
  pub gauge : String
  pub sensor : String
  pub mac : String
  pub proxy : Option String
  pub value : N

-- A value of an update: its key and, if it is a number, the number.
pub record Entity (N : Type 0) : Type 0 where
  pub key : String
  pub value : Option N

-- What a decoder makes of an advertisement: the names of the devices, the empty text where one is
-- missing, and the values.
pub record Update (N : Type 0) : Type 0 where
  pub devices : List String
  pub entities : List (Entity N)

pub record Advertisement (N : Type 0) (R : Type 0) : Type 0 where
  pub address : ℕ
  pub rssi : N
  pub raw : R

-- The libraries: `parse` makes the service of an advertisement from its address, its signal and its
-- bytes; a decoder `D` begins as `fresh`, and is changed by `supported` and `update`.
pub record Library (N R S D : Type 0) : Type 0 where
  pub numbers : Numbers N
  pub python : Python
  pub parse : String → N → R → Step S
  pub fresh : D
  pub supported : D → S → Step Bool × D
  pub update : D → S → Step (Update N) × D
  pub now : N

-- `_sensors` and the gauges.
pub record Exporter (N D : Type 0) : Type 0 where
  pub sensors : Dict D
  pub gauges : List (Setting N)

-- `_METRIC_BY_KEY`
abbrev pub metric_of : String → Option String
metric_of key =
    if key == "temperature"
    then some "mopeka_sensor_temperature_celsius"
    else if key == "battery"
    then some "mopeka_sensor_battery_percent"
    else if key == "battery_voltage"
    then some "mopeka_sensor_battery_volts"
    else if key == "tank_level"
    then some "mopeka_sensor_tank_level_mm"
    else if key == "reading_quality"
    then some "mopeka_sensor_reading_quality_percent"
    else none

-- `_firmware_name`
abbrev pub firmware_name : List String → String → String
firmware_name [] fallback = fallback
firmware_name (n ∷ ns) fallback =
    let rest = firmware_name ns fallback in if n == "" then rest else n

module _ {N R S D : Type 0} (lib : Library N R S D) where
  -- `cfg.get("name") or _firmware_name(update, mac)`
  abbrev pub sensor_name : Option Tank → List String → String → String
  sensor_name none devices mac = firmware_name devices mac
  sensor_name (some t) devices mac =
      if truthy t.name then text_of lib.python t.name else firmware_name devices mac

  -- What the value of a known key sets.
  abbrev pub setting_for : String → String → Option String → N → List (Setting N)
  setting_for name mac none v = []
  setting_for name mac (some gauge) v =
      record { gauge = gauge; sensor = name; mac = mac; proxy = none; value = v } ∷ []

  abbrev pub entity_settings : String → String → String → Option N → List (Setting N)
  entity_settings name mac key none = []
  entity_settings name mac key (some v) = setting_for name mac (metric_of key) v

  -- The loop over the values: what it sets.
  unfoldable pub settings_of : String → String → List (Entity N) → List (Setting N)
  settings_of name mac [] = []
  settings_of name mac (e ∷ es) = entity_settings name mac e.key e.value ++ settings_of name mac es

  abbrev pub level_entity : String → Option N → Option N → Option N
  level_entity key none level = level
  level_entity key (some v) level = if key == "tank_level" then some v else level

  -- The loop over the values: the level of the tank, if there is one, where the last one counts.
  unfoldable pub level_of : List (Entity N) → Option N → Option N
  level_of [] level = level
  level_of (e ∷ es) level = level_of es (level_entity e.key e.value level)

  abbrev pub bare : Tank
  bare = record { name = null; full_mm = null; empty_mm = null }

  abbrev pub tank_or_bare : Option Tank → Tank
  tank_or_bare none = bare
  tank_or_bare (some t) = t

  abbrev pub fill_setting : String → String → Option N → List (Setting N)
  fill_setting name mac none = []
  fill_setting name mac (some pct) =
      record {
        gauge = "mopeka_sensor_fill_percent";
        sensor = name;
        mac = mac;
        proxy = none;
        value = pct;
      }
      ∷ []

  -- The gauge of the fill level, if there is a level.
  unfoldable pub fill_settings : String → String → Option Tank → Option N → Step (List (Setting N))
  unfolding fill_percent
  fill_settings name mac cfg none = ok []
  fill_settings name mac cfg (some level) = do
    pct ← fill_percent lib.numbers level (tank_or_bare cfg)
    ok (fill_setting name mac pct)

  abbrev pub last_settings : String → String → String → N → List (Setting N)
  last_settings proxy name mac rssi =
      record {
        gauge = "mopeka_sensor_signal_dbm";
        sensor = name;
        mac = mac;
        proxy = some proxy;
        value = rssi;
      }
      ∷ record {
        gauge = "mopeka_sensor_last_seen_timestamp_seconds";
        sensor = name;
        mac = mac;
        proxy = none;
        value = lib.now;
      }
      ∷ []

  abbrev pub Handled : Type 0
  Handled = Step (Unit {0}) × Exporter N D

  abbrev pub with_fill :
      String → String → String → N → Exporter N D → Step (List (Setting N)) → Handled
  with_fill proxy name mac rssi x (err e) = (err e, x)
  with_fill proxy name mac rssi x (ok fill) = (
    ok tt,
    record {
      sensors = x.sensors;
      gauges = x.gauges ++ (fill ++ last_settings proxy name mac rssi);
    },
  )

  -- The values of an update, and what is set for them.
  unfoldable pub publish : Dict Tank → String → String → N → Exporter N D → Update N → Handled
  unfolding get truthy text_of settings_of level_of fill_settings
  publish tanks proxy mac rssi x u =
      let name = sensor_name (get mac tanks) u.devices mac in
      with_fill proxy name mac rssi
        (record { sensors = x.sensors; gauges = x.gauges ++ settings_of name mac u.entities })
        (fill_settings name mac (get mac tanks) (level_of u.entities none))

  -- The decoder's update, which is kept even when it raises.
  abbrev pub updated :
      Dict Tank → String → String → N → Exporter N D → Step (Update N) × D → Handled
  updated tanks proxy mac rssi x (err e, d) =
      (err e, record { sensors = set mac d x.sensors; gauges = x.gauges })
  updated tanks proxy mac rssi x (ok u, d) =
      publish tanks proxy mac rssi (record { sensors = set mac d x.sensors; gauges = x.gauges }) u

  -- A new decoder is kept when it supports the advertisement.
  abbrev pub admitted : Dict Tank → String → String → N → Exporter N D → S → Step Bool × D → Handled
  admitted tanks proxy mac rssi x s (err e, d) = (err e, x)
  admitted tanks proxy mac rssi x s (ok false, d) = (ok tt, x)
  admitted tanks proxy mac rssi x s (ok true, d) = updated tanks proxy mac rssi x (lib.update d s)

  abbrev pub known : Dict Tank → String → String → N → Exporter N D → S → Option D → Handled
  known tanks proxy mac rssi x s none =
      admitted tanks proxy mac rssi x s (lib.supported lib.fresh s)
  known tanks proxy mac rssi x s (some d) = updated tanks proxy mac rssi x (lib.update d s)

  abbrev pub heard : Dict Tank → String → String → N → Exporter N D → Step S → Handled
  heard tanks proxy mac rssi x (err e) = (err e, x)
  heard tanks proxy mac rssi x (ok s) = known tanks proxy mac rssi x s (get mac x.sensors)

  -- `_handle_advertisement`
  unfoldable pub handle_advertisement :
      Dict Tank → String → Advertisement N R → Exporter N D → Handled
  unfolding get set publish mac_of
  handle_advertisement tanks proxy a x =
      heard tanks proxy (mac_of a.address) a.rssi x (lib.parse (mac_of a.address) a.rssi a.raw)

  -- `_on_raw`: an exception is logged, and the next advertisement is handled.
  unfoldable pub on_raw :
      Dict Tank → String → List (Advertisement N R) → Exporter N D → Exporter N D
  unfolding handle_advertisement
  on_raw tanks proxy [] x = x
  on_raw tanks proxy (a ∷ as') x = on_raw tanks proxy as' (handle_advertisement tanks proxy a x).1
