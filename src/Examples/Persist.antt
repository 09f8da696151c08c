-- ===== src/Examples/Persist.antt =====
-- A batch of one message, whose row is stored already.
use sense_grid.Common.{ℕ, true, false, some, List, [], ◌∷◌, codes, Codec}
use sense_grid.Telemetry.Schema.{StampedReading}
use sense_grid.Persist.Rows.{FlatRow, flat_row}
use sense_grid.Persist.Consumer.{Message, new_consumer}
use sense_grid.Persist.Durability.{Call, receives, flushes, IsDurable, run, run-IsDurable}
use sense_grid.Examples.Ingest.{reading}

abbrev stamped : StampedReading ℕ
stamped = record { reading = reading; ingest_time_ms = 4 }

abbrev always : StampedReading ℕ → Codec (StampedReading ℕ)
always sr = record { marshal = λ r. some []; unmarshal = λ t. some sr }

abbrev message : Message
message = record { delivery = 1; body = codes "{}" }

abbrev calls : List Call
calls = receives message false ∷ flushes true ∷ receives message false ∷ flushes false ∷ []

run-IsDurable_example :
    IsDurable
      (always stamped)
      (run (always stamped) calls (new_consumer (always stamped))).table
      (run (always stamped) calls (new_consumer (always stamped))).settled
run-IsDurable_example = run-IsDurable (always stamped) calls

abbrev row : FlatRow ℕ
row = flat_row reading 4000000 (codes "cpu") 7
