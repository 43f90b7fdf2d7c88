-- ===== src/Mopeka/Tanks.antt =====
-- compose/nuc/mopeka-exporter/mopeka_exporter.py: the file of the sensors and `_fill_percent`. The
-- numbers, which are floats in the code, are a parameter.
pub mod Bounds
use nyc_pa_aws_gitops.Prelude.{
  ℕ, String, ◌<>◌, Bool, true, false, not, ◌&&◌, ◌||◌, Option, none, some, List, [], ◌∷◌, ◌==◌,
  if◌then◌else◌,
}
use nyc_pa_aws_gitops.Prelude.Letters.{upper}
use nyc_pa_aws_gitops.Prelude.Results.{Result, ok, err, ◌>>=◌}
use nyc_pa_aws_gitops.Prelude.Dict.{Dict, get, set}
use nyc_pa_aws_gitops.Prelude.Json.{Json, null, bool, num, str, arr, obj, to_dict, truthy}

-- Python's numbers, as far as the exporter calculates: `number` is the value of a number in a text.
pub record Numbers (N : Type 0) : Type 0 where
  pub zero : N
  pub hundred : N
  pub number : String → N
  pub lt : N → N → Bool
  pub le : N → N → Bool
  pub minus : N → N → N
  pub times : N → N → N
  pub over : N → N → N

-- An exception, by the name of its class.
abbrev pub Step {ℓ} : Type ℓ → Type ℓ
Step A = Result String A

-- A sensor's entry in the map, the values as they stand in the file.
pub record Tank : Type 0 where
  pub name : Json
  pub full_mm : Json
  pub empty_mm : Json

abbrev or_null : Option Json → Json
or_null none = null
or_null (some v) = v

-- `cfg.get("empty_mm", 0)`
abbrev or_zero : Option Json → Json
or_zero none = num "0"
or_zero (some v) = v

-- The entry of `cfg`, for `cfg or {}`.
unfoldable pub tank_of : Json → Step Tank
unfolding get truthy
tank_of (obj fs) = ok (record {
  name = or_null (get "name" (to_dict fs));
  full_mm = or_null (get "full_mm" (to_dict fs));
  empty_mm = or_zero (get "empty_mm" (to_dict fs));
})
tank_of v =
    if truthy v
    then err "AttributeError"
    else ok (record { name = null; full_mm = null; empty_mm = num "0" })

-- The loop over the sensors, whose keys are texts in ASCII.
unfoldable pub add_tanks : Dict Json → Dict Tank → Step (Dict Tank)
unfolding set tank_of upper
add_tanks [] out = ok out
add_tanks ((mac, cfg) ∷ more) out = do t ← tank_of cfg; add_tanks more (set (upper mac) t out)

-- `raw.get("sensors") or {}`, gone through with `.items()`
abbrev items_of : Json → Step (Dict Json)
items_of (obj fs) = ok (to_dict fs)
items_of v = if truthy v then err "AttributeError" else ok []

abbrev sensors_of : Json → Step (Dict Json)
sensors_of (obj fs) = items_of (or_null (get "sensors" (to_dict fs)))
sensors_of v = if truthy v then err "AttributeError" else ok []

-- What opening and parsing the file gives: its value, that it is not there, or another failure that the
-- code catches.
pub data SensorsFile : Type 0 where
  parsed : Json → SensorsFile
  absent : SensorsFile
  unreadable : SensorsFile

-- `_load_sensor_map`
unfoldable pub load_sensor_map : SensorsFile → Step (Dict Tank)
unfolding get truthy add_tanks
load_sensor_map absent = ok []
load_sensor_map unreadable = ok []
load_sensor_map (parsed raw) = do tanks ← sensors_of raw; add_tanks tanks []

module _ {N : Type 0} (nb : Numbers N) where
  -- A value that is calculated with.
  abbrev pub number_of : Json → Step N
  number_of (num t) = ok (nb.number t)
  number_of (bool true) = ok (nb.number "1")
  number_of (bool false) = ok (nb.number "0")
  number_of v = err "TypeError"

  -- `max(0.0, min(100.0, pct))`
  abbrev pub lower : N → N
  lower pct = if nb.lt pct nb.hundred then pct else nb.hundred

  abbrev pub clamp : N → N
  clamp pct = if nb.lt nb.zero (lower pct) then lower pct else nb.zero

  abbrev pub percent : N → N → N → Option N
  percent level full empty =
      let span = nb.minus full empty in
      if nb.le span nb.zero
      then none
      else some (clamp (nb.over (nb.times nb.hundred (nb.minus level empty)) span))

  -- `cfg.get("empty_mm") or 0`
  abbrev pub empty_of : Json → Json
  empty_of v = if truthy v then v else num "0"

  abbrev pub with_full : N → Tank → Step (Option N)
  with_full level cfg = do
    full ← number_of cfg.full_mm
    empty ← number_of (empty_of cfg.empty_mm)
    ok (percent level full empty)

  -- `_fill_percent`
  unfoldable pub fill_percent : N → Tank → Step (Option N)
  unfolding truthy
  fill_percent level cfg = if truthy cfg.full_mm then with_full level cfg else ok none
