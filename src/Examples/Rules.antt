-- ===== src/Examples/Rules.antt =====
-- A rule on every axis of an accelerometer, its file, and the registry and the windowed consumer.
use sense_grid.Common.{
  ℕ, ◌+◌, ◌≡◌, refl, true, false, Option, none, some, List, [], ◌∷◌, arith, Text, codes, ok,
}
use sense_grid.Rules.Rule.{Rule, load, check_rules}
use sense_grid.Rules.Watch.{Watcher, new_watcher}
use sense_grid.Window.Registry.{Key, Entry, Registry, key_Eq}
use sense_grid.Window.Buffer.{new}
use sense_grid.Windowed.Redelivery.{process_sample-again}
use sense_grid.Window.Registry.{get}
use sense_grid.Window.Dedupe.{IsRing}
use sense_grid.Windowed.Consumer.{process_sample, Services, Consumer}
use sense_grid.Examples.Window.{whole}

abbrev shaking : Rule ℕ
shaking = record {
  name = codes "shaking";
  sensor_type = codes "accel.*";
  detector = codes "zscore";
  severity = codes "high";
  threshold = 3;
  silence_timeout = 0;
  consecutive = 2;
}

abbrev parse_any : Text → Option (List (Rule ℕ))
parse_any t = some (shaking ∷ [])

abbrev watcher : Watcher ℕ
watcher = record { current = shaking ∷ []; last_mod = some 1 }

made : new_watcher parse_any (some []) (some 1) ≡ ok watcher
unfolding new_watcher load check_rules
made = refl

abbrev cpu : Key
cpu = record { device_id = codes "d1"; sensor_type = codes "cpu" }

abbrev touched : Entry ℕ
touched = record { window = new whole 2 0 1; last_seen = 10 }

abbrev registry : Registry ℕ
registry = record { max_count = 2; max_age = 0; ewma_alpha = 1; entries = (cpu, touched) ∷ [] }

-- The world is the clock.
abbrev silent : Services ℕ Text ℕ
silent = record {
  now = λ w. (w, w + 1);
  new_id = λ w. (codes "a1", w);
  is_down = λ w. (false, w);
  db_now = λ w. (w, w);
  publish = λ subject body w. (true, w);
  metrics = record { marshal = λ e. some []; unmarshal = λ t. none };
  alert_events = record { marshal = λ e. some []; unmarshal = λ t. none };
  details = record { marshal = λ t. some t; unmarshal = λ t. some t };
  detail_of = λ score threshold detector. detector;
  no_detail = [];
  seconds = λ n. n;
}

abbrev starting : Consumer ℕ ℕ
starting = record { registry = registry; evaluator = []; alerts = []; world = 20 }

abbrev rules_one : Option (List (Rule ℕ))
rules_one = some (shaking ∷ [])

-- Starting, after one sample of the key.
abbrev once : Consumer ℕ ℕ
once = process_sample whole silent rules_one (codes "d1") 30 7 [] (codes "cpu", 4) starting

abbrev twice : Consumer ℕ ℕ
twice = process_sample whole silent rules_one (codes "d1") 30 7 [] (codes "cpu", 4) once

ring : IsRing (get whole registry cpu 20).0
unfolding get new
ring = record { size_bound = omega arith; head_bound = omega arith; head_when_filling = λ l. refl }

process_sample-again_example :
    (twice.evaluator ≡ once.evaluator)
    × (twice.alerts ≡ once.alerts)
    × ((get whole twice.registry cpu 50).0 ≡ (get whole once.registry cpu 50).0)
process_sample-again_example =
    process_sample-again whole silent rules_one (codes "d1") (codes "cpu") 4 30 7 [] 50 starting
      ring
