-- ===== src/Mopeka/Tests.antt =====
-- Runs of the exporter on whole numbers, with a decoder that counts.
use nyc_pa_aws_gitops.Prelude.{
  ℕ, ◌+◌, ◌-◌, ◌*◌, ◌/◌, ◌%◌, ◌^◌, ◌≡◌, refl, Bool, true, false, some, List, [], ◌∷◌, ◌==◌, arith,
  ltb, leb, if◌then◌else◌,
}
use nyc_pa_aws_gitops.Prelude.Results.{ok, err}
use nyc_pa_aws_gitops.Prelude.Json.{null, num, str, obj, field, end}
use nyc_pa_aws_gitops.Mopeka.Address.{mac_of, read_mac}
use nyc_pa_aws_gitops.Mopeka.Address.Reading.{read_mac-mac_of}
use nyc_pa_aws_gitops.Mopeka.Tanks.{Numbers, Tank, parsed, load_sensor_map, fill_percent}
use nyc_pa_aws_gitops.Mopeka.Tanks.Bounds.{Ordered, InBounds, fill_percent-InBounds}
use nyc_pa_aws_gitops.Mopeka.Sensors.{Advertisement, Library, Exporter, on_raw}
use nyc_pa_aws_gitops.Mopeka.Sensors.Known.{Keeps, on_raw-Keeps}
use nyc_pa_aws_gitops.Mopeka.Proxies.{Link, Station, proxies, run_once}
use nyc_pa_aws_gitops.Mopeka.Proxies.Down.{Down, run_once-Down}

-- Two numbers are read from texts here.
abbrev whole : Numbers ℕ
whole = record {
  zero = 0;
  hundred = 100;
  number = λ t. (if t == "400" then 400 else 0);
  lt = ltb;
  le = leb;
  minus = λ a b. a - b;
  times = λ a b. a * b;
  over = λ a b. a / b;
}

abbrev grill : Tank
grill = record { name = str "Grill"; full_mm = num "400"; empty_mm = num "0" }

-- A decoder that supports the bytes `true`.
abbrev counting : Library ℕ Bool Bool ℕ
counting = record {
  numbers = whole;
  python = record { wide_digit = λ c. false; container_text = λ v. "?" };
  parse = λ mac rssi raw. ok raw;
  fresh = 0;
  supported = λ d s. (ok s, d);
  update = λ d s. (
    ok (record { devices = []; entities = record { key = "tank_level"; value = some 300 } ∷ [] }),
    d + 1,
  );
  now = 9;
}

abbrev empty : Exporter ℕ ℕ
empty = record { sensors = []; gauges = [] }

abbrev two_heard : List (Advertisement ℕ Bool)
two_heard =
    record { address = 1; rssi = 50; raw = true }
    ∷ record { address = 2; rssi = 60; raw = false }
    ∷ []

mac_example : mac_of 211106232537087 ≡ "C0:00:00:00:0F:FF"
unfolding mac_of
mac_example = refl

map_example :
    load_sensor_map (
      parsed
        (obj (field "sensors" (obj (field "c0:0f" (obj (field "name" (str "RV") end)) end)) end)))
    ≡ ok (("C0:0F", record { name = str "RV"; full_mm = null; empty_mm = num "0" }) ∷ [])
unfolding load_sensor_map
map_example = refl

three_quarters : fill_percent whole 300 grill ≡ ok (some 75)
unfolding fill_percent
three_quarters = refl

one_discovered :
    (on_raw counting (("00:00:00:00:00:01", grill) ∷ []) "shed" two_heard empty).sensors
    ≡ ("00:00:00:00:00:01", 1) ∷ []
unfolding on_raw
one_discovered = refl

proxies_example :
    proxies "a, b" "k, l" ""
    ≡ ok (
        record { host = "a"; key = "k"; name = "a" }
        ∷ record { host = "b"; key = "l"; name = "b" }
        ∷ [])
unfolding proxies
proxies_example = refl

uneven_example : proxies "a,b" "k" "" ≡ err "SystemExit"
unfolding proxies
uneven_example = refl

read_mac-mac_of_example : read_mac 0 (mac_of 211106232537087) ≡ some (211106232537087 % 2 ^ 48)
read_mac-mac_of_example = read_mac-mac_of 211106232537087

whole-Ordered : Ordered whole
whole-Ordered = record { irrefl = λ a. ground arith; asym = λ a b h. ground arith; bounds = refl }

fill_percent-InBounds_example : InBounds whole 75
unfolding fill_percent
fill_percent-InBounds_example = fill_percent-InBounds whole whole-Ordered 300 grill 75 refl

on_raw-Keeps_example : Keeps empty (on_raw counting [] "shed" two_heard empty)
on_raw-Keeps_example = on_raw-Keeps counting [] "shed" two_heard empty

abbrev broken : Link ℕ Bool
broken = record {
  connect = ok tt;
  device_info = ok tt;
  subscribe = ok tt;
  responses = two_heard ∷ [];
  disconnect = err "APIConnectionError";
}

abbrev station : Station ℕ ℕ
station = record { exporter = empty; up = ("shed", 0) ∷ ("house", 1) ∷ []; success = [] }

run_once-Down_example : Down whole "shed" station (run_once counting 1 [] "shed" broken station).1
run_once-Down_example = run_once-Down counting 1 [] "shed" broken station
