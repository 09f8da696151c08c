-- ===== src/Persist/Durability.antt =====
-- What an acknowledgement of the persistence consumer means.
use sense_grid.Common.{
  ◌≡◌, refl, sym, ap, ◌∙◌, inl, inr, Bool, false, none, some, List, [], ◌∷◌, ◌++◌, leb, length, All,
  append_assoc, append-nil, Codec, Bool-cases, Option-cases,
}
use sense_grid.Telemetry.Schema.{StampedReading}
use sense_grid.Shadow.Drift.{unix_milli}
use sense_grid.Persist.Rows.{
  FlatRow, flatten, insert_batch, insert_rows, IsStored, first, or_else, first-append,
  first-insert_rows, insert_rows-stored,
}
use sense_grid.Persist.Consumer.{
  Message, Verdict, acknowledged, redelivered, terminated, PendingItem, Consumer, batch_size,
  is_nil, tell, new_consumer, flush, append, on_message,
}

pub data Call : Type 0 where
  receives : Message → Bool → Call
  flushes : Bool → Call

module _ {F : Type 0} (readings : Codec (StampedReading F)) where
  -- The rows that a message stands for.
  abbrev pub rows_of : Message → List (FlatRow F)
  rows_of m = elim (readings.unmarshal m.body) [
    | none ↦ []
    | some sr ↦ flatten sr (unix_milli sr.ingest_time_ms)
  ]

  abbrev pub rows_of_items : List PendingItem → List (FlatRow F)
  rows_of_items [] = []
  rows_of_items (i ∷ is) = rows_of i.msg ++ rows_of_items is

  -- The rows of the messages that were acknowledged, in the order of their acknowledgements.
  abbrev pub acknowledged_rows : List (Message × Verdict) → List (FlatRow F)
  acknowledged_rows [] = []
  acknowledged_rows ((m, acknowledged) ∷ log) = rows_of m ++ acknowledged_rows log
  acknowledged_rows ((m, redelivered) ∷ log) = acknowledged_rows log
  acknowledged_rows ((m, terminated) ∷ log) = acknowledged_rows log

  -- A look for a key in the table finds the first of these rows with that key, or nothing where none has it.
  abbrev pub IsDurable : List (FlatRow F) → List (Message × Verdict) → Type 0
  IsDurable table log = (r : FlatRow F) → first r table ≡ first r (acknowledged_rows log)

  record Good (c : Consumer F) : Type 0 where
    pending : c.rows ≡ rows_of_items c.items
    durable : IsDurable c.table c.settled

  rows_of_items-append :
      (xs ys : List PendingItem) → rows_of_items (xs ++ ys) ≡ rows_of_items xs ++ rows_of_items ys
  rows_of_items-append [] ys = refl
  rows_of_items-append (x ∷ xs) ys =
      ap (λ l. rows_of x.msg ++ l) (rows_of_items-append xs ys)
      ∙ sym (append_assoc (rows_of x.msg) (rows_of_items xs) (rows_of_items ys))

  acknowledged_rows-append :
      (xs ys : List (Message × Verdict))
      → acknowledged_rows (xs ++ ys) ≡ acknowledged_rows xs ++ acknowledged_rows ys
  acknowledged_rows-append [] ys = refl
  acknowledged_rows-append ((m, acknowledged) ∷ xs) ys =
      ap (λ l. rows_of m ++ l) (acknowledged_rows-append xs ys)
      ∙ sym (append_assoc (rows_of m) (acknowledged_rows xs) (acknowledged_rows ys))
  acknowledged_rows-append ((m, redelivered) ∷ xs) ys = acknowledged_rows-append xs ys
  acknowledged_rows-append ((m, terminated) ∷ xs) ys = acknowledged_rows-append xs ys

  told-redelivered : (is : List PendingItem) → acknowledged_rows (tell redelivered is) ≡ []
  told-redelivered [] = refl
  told-redelivered (i ∷ is) = told-redelivered is

  told-acknowledged :
      (is : List PendingItem) → acknowledged_rows (tell acknowledged is) ≡ rows_of_items is
  told-acknowledged [] = refl
  told-acknowledged (i ∷ is) = ap (λ l. rows_of i.msg ++ l) (told-acknowledged is)

  -- Entries of the log that acknowledge no row change nothing.
  IsDurable-quiet :
      (table : List (FlatRow F)) (log more : List (Message × Verdict))
      → acknowledged_rows more ≡ []
      → IsDurable table log
      → IsDurable table (log ++ more)
  IsDurable-quiet table log more quiet h r =
      h r
      ∙ ap (first r) (
          sym (
            acknowledged_rows-append log more
            ∙ ap (λ l. acknowledged_rows log ++ l) quiet
            ∙ append-nil (acknowledged_rows log)))

  IsDurable-stored :
      (rs table : List (FlatRow F)) (log more : List (Message × Verdict))
      → acknowledged_rows more ≡ rs
      → IsDurable table log
      → IsDurable (insert_rows rs table) (log ++ more)
  IsDurable-stored rs table log more e h r =
      first-insert_rows r rs table
      ∙ ap (λ o. or_else o (first r rs)) (h r)
      ∙ sym (
          ap (first r) (acknowledged_rows-append log more ∙ ap (λ l. acknowledged_rows log ++ l) e)
          ∙ first-append r (acknowledged_rows log) rs)

  flush-Good : (down : Bool) (c : Consumer F) → Good c → Good (flush readings down c)
  unfolding flush insert_batch
  flush-Good down c g = elim (Bool-cases (is_nil c.rows)) [
    | inl empty ↦ rw (empty, flush) (record { pending = refl; durable = g.durable })
    | inr full ↦
        rw (full, flush)
          (elim (Bool-cases down) [
            | inl lost ↦ rw lost (record {
              pending = refl;
              durable = IsDurable-quiet c.table c.settled _ (told-redelivered c.items) g.durable;
            })
            | inr stored ↦ rw stored (record {
              pending = refl;
              durable =
                  IsDurable-stored c.rows c.table c.settled _
                    (told-acknowledged c.items ∙ sym g.pending) g.durable;
            })
          ])
  ]

  append-Good :
      (m : Message) (sr : StampedReading F) (c : Consumer F)
      → readings.unmarshal m.body ≡ some sr
      → Good c
      → Good (append readings m sr c)
  unfolding append
  append-Good m sr c read g = record {
    pending =
        ap (λ l. l ++ flatten sr (unix_milli sr.ingest_time_ms)) g.pending
        ∙ sym (
            rows_of_items-append c.items (_ ∷ [])
            ∙ ap (λ l. rows_of_items c.items ++ l)
                (append-nil (rows_of m) ∙ rw (read, rows_of) refl));
    durable = g.durable;
  }

  on_message-Good :
      (m : Message) (down : Bool) (c : Consumer F) → Good c → Good (on_message readings m down c)
  unfolding on_message
  on_message-Good m down c g = elim (Option-cases (readings.unmarshal m.body)) [
    | inl bad ↦
        rw (bad, on_message)
          (record {
            pending = g.pending;
            durable = IsDurable-quiet c.table c.settled _ refl g.durable;
          })
    | inr (sr, read) ↦
        let g' = append-Good m sr c read g in
        rw (read, on_message)
          (elim (Bool-cases (leb batch_size (length (append readings m sr c).rows))) [
            | inl full ↦ rw full (flush-Good down _ g')
            | inr room ↦ rw room g'
          ])
  ]

  unfoldable pub run : List Call → Consumer F → Consumer F
  run [] c = c
  run (receives m down ∷ cs) c = run cs (on_message readings m down c)
  run (flushes down ∷ cs) c = run cs (flush readings down c)

  run-Good : (cs : List Call) (c : Consumer F) → Good c → Good (run cs c)
  unfolding run
  run-Good [] c g = g
  run-Good (receives m down ∷ cs) c g = run-Good cs _ (on_message-Good m down c g)
  run-Good (flushes down ∷ cs) c g = run-Good cs _ (flush-Good down c g)

  -- After any messages and flushes of a new consumer, with the database up or down at each: the
  -- row that a look for a key finds in the table is the first of that key among the rows of the
  -- acknowledged messages, in the order of their acknowledgements, with its value; nothing is found where no such message has
  -- one.
  pub run-IsDurable :
      (cs : List Call)
      → IsDurable (run cs (new_consumer readings)).table (run cs (new_consumer readings)).settled
  unfolding new_consumer
  run-IsDurable cs =
      (run-Good cs (new_consumer readings) (record { pending = refl; durable = λ r. refl })).durable

  -- A batch whose rows all stand in the table already, as that of redelivered messages, leaves the
  -- table as it was, and its messages are acknowledged when it has a row and the database is up.
  pub flush-redelivered :
      (c : Consumer F)
      → All (IsStored c.table) c.rows
      → is_nil c.rows ≡ false
      → ((flush readings false c).table ≡ c.table)
        × ((flush readings false c).settled ≡ c.settled ++ tell acknowledged c.items)
  unfolding flush insert_batch
  flush-redelivered c a full = rw full (insert_rows-stored c.rows c.table a, refl)

  -- A message whose reading gives no row leaves no trace when no other row waits: after the flush
  -- that follows, the consumer has told JetStream nothing of it, and has forgotten it and every
  -- other message that waited.
  pub flush-forgets :
      (m : Message) (sr : StampedReading F) (down down' : Bool) (c : Consumer F)
      → readings.unmarshal m.body ≡ some sr
      → flatten sr (unix_milli sr.ingest_time_ms) ≡ []
      → c.rows ≡ []
      → flush readings down' (on_message readings m down c) ≡ record c { rows = []; items = [] }
  unfolding on_message append flush
  flush-forgets m sr down down' c read none_left fresh =
      rw (read, on_message) (rw (fresh, none_left) refl)
