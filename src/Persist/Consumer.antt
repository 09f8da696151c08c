-- ===== src/Persist/Consumer.antt =====
-- The consumer of cmd/processor/consumer.go. A message is a delivery with its body; `settled` is the
-- log of what the consumer told JetStream. A flush takes the batch under the mutex and owns it from
-- then on, so that a flush is one step. Metrics, spans and log lines are left out.
use sense_grid.Common.{
  ℕ, Bool, true, false, none, some, List, [], ◌∷◌, ◌++◌, leb, if◌then◌else◌, Text, length, Codec,
}
use sense_grid.Telemetry.Schema.{StampedReading}
use sense_grid.Shadow.Drift.{unix_milli}
use sense_grid.Persist.Rows.{FlatRow, flatten, insert_batch}

pub record Message : Type 0 where
  pub delivery : ℕ
  pub body : Text

pub data Verdict : Type 0 where
  acknowledged redelivered terminated : Verdict

pub record PendingItem : Type 0 where
  pub msg : Message
  pub device_time : ℕ
  pub ingest_time : ℕ
  pub trace_id : Text

pub record Consumer (F : Type 0) : Type 0 where
  pub rows : List (FlatRow F)
  pub items : List PendingItem
  pub table : List (FlatRow F)
  pub settled : List (Message × Verdict)

abbrev pub batch_size : ℕ
batch_size = 100

abbrev pub is_nil : {A : Type 0} → List A → Bool
is_nil [] = true
is_nil (x ∷ xs) = false

-- The loops over the items: each message is told the same.
abbrev pub tell : Verdict → List PendingItem → List (Message × Verdict)
tell v [] = []
tell v (i ∷ is) = (i.msg, v) ∷ tell v is

module _ {F : Type 0} (readings : Codec (StampedReading F)) where
  unfoldable pub new_consumer : Consumer F
  new_consumer = record { rows = []; items = []; table = []; settled = [] }

  -- `down` says that the database does not take the batch.
  unfoldable pub flush : Bool → Consumer F → Consumer F
  flush down c =
      let (inserted, table) = insert_batch down c.rows c.table in
      let drained : Consumer F = record c { rows = []; items = [] } in
      if is_nil c.rows then drained else record drained {
        table = table;
        settled = c.settled ++ tell (if inserted then acknowledged else redelivered) c.items;
      }

  unfoldable pub append : Message → StampedReading F → Consumer F → Consumer F
  append msg sr c =
      let ingest_time = unix_milli sr.ingest_time_ms in
      record c {
        rows = c.rows ++ flatten sr ingest_time;
        items =
            c.items
            ++ record {
              msg = msg;
              device_time = unix_milli sr.reading.device_time_ms;
              ingest_time = ingest_time;
              trace_id = sr.reading.trace_id;
            }
              ∷ [];
      }

  unfoldable pub on_message : Message → Bool → Consumer F → Consumer F
  on_message msg down c = elim (readings.unmarshal msg.body) [
    | none ↦ record c { settled = c.settled ++ (msg, terminated) ∷ [] }
    | some sr ↦
        let c' = append msg sr c in if leb batch_size (length c'.rows) then flush down c' else c'
  ]
