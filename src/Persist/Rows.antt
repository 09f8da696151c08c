-- ===== src/Persist/Rows.antt =====
-- flatRow, flatten and insertBatch of cmd/processor/consumer.go, over the table and the unique index
-- of deploy/migrations/0002_readings.sql. Times are nanoseconds.
use sense_grid.Common.{
  ℕ, ◌-◌, ◌^◌, ◌≡◌, refl, ap, sym, ◌∙◌, Option, Option-cases, text_eq_iff, inl, inr, Bool, true,
  false, ◌&&◌, ◌||◌, none, some, List, [], ◌∷◌, ◌++◌, arith, ltb, nat_eq, nat_Eq, if◌then◌else◌,
  ◌==◌, text_Eq, Text, codes, All, ℤ, pos, negsuc, Bool-cases,
}
use sense_grid.Telemetry.Schema.{Reading, StampedReading}
use sense_grid.Shadow.Drift.{unix_milli}

pub record FlatRow (F : Type 0) : Type 0 where
  pub time : ℕ
  pub device_id : Text
  pub sensor_type : Text
  pub value : F
  pub device_time : ℕ
  pub ingest_time : ℕ
  pub seq : ℤ

-- `int64(n)` of a uint64.
abbrev pub as_int64 : ℕ → ℤ
as_int64 n = if ltb n (2 ^ 63) then pos n else negsuc (2 ^ 64 - 1 - n)

abbrev pub flat_row : {F : Type 0} → Reading F → ℕ → Text → F → FlatRow F
flat_row r t sensor_type value = record {
  time = t;
  device_id = r.device_id;
  sensor_type = sensor_type;
  value = value;
  device_time = unix_milli r.device_time_ms;
  ingest_time = t;
  seq = as_int64 r.seq;
}

-- One row for each axis; a nil map has none.
abbrev pub axis_rows : {F : Type 0} → Reading F → ℕ → List (Text × F) → List (FlatRow F)
axis_rows r t [] = []
axis_rows r t ((axis, v) ∷ axes) =
    flat_row r t (r.sensor_type ++ codes "." ++ axis) v ∷ axis_rows r t axes

unfoldable pub flatten : {F : Type 0} → StampedReading F → ℕ → List (FlatRow F)
flatten sr t = elim sr.reading.value [
  | some v ↦ flat_row sr.reading t sr.reading.sensor_type v ∷ []
  | none ↦ elim sr.reading.values [ none ↦ [] | some axes ↦ axis_rows sr.reading t axes ]
]

abbrev pub int_eq : ℤ → ℤ → Bool
int_eq (pos a) (pos b) = nat_eq a b
int_eq (pos a) (negsuc b) = false
int_eq (negsuc a) (pos b) = false
int_eq (negsuc a) (negsuc b) = nat_eq a b

int_eq-same : (a b : ℤ) → int_eq a b ≡ true → a ≡ b
int_eq-same (pos a) (pos b) h = ap pos (ground arith)
int_eq-same (pos a) (negsuc b) h = absurd (cc h)
int_eq-same (negsuc a) (pos b) h = absurd (cc h)
int_eq-same (negsuc a) (negsuc b) h = ap negsuc (ground arith)

module _ {F : Type 0} where
  -- The unique index (device_id, sensor_type, seq, time).
  unfoldable pub same_key : FlatRow F → FlatRow F → Bool
  same_key a b =
      a.device_id == b.device_id
      && (a.sensor_type == b.sensor_type && (int_eq a.seq b.seq && nat_eq a.time b.time))

  unfoldable pub has_key : FlatRow F → List (FlatRow F) → Bool
  has_key r [] = false
  has_key r (x ∷ xs) = same_key x r || has_key r xs

  -- INSERT ... ON CONFLICT DO NOTHING.
  abbrev pub insert_row : FlatRow F → List (FlatRow F) → List (FlatRow F)
  insert_row r table = if has_key r table then table else r ∷ table

  abbrev pub insert_rows : List (FlatRow F) → List (FlatRow F) → List (FlatRow F)
  insert_rows [] table = table
  insert_rows (r ∷ rs) table = insert_rows rs (insert_row r table)

  -- The answer is false where the database refuses or does not answer; then no row is inserted.
  unfoldable pub insert_batch : Bool → List (FlatRow F) → List (FlatRow F) → Bool × List (FlatRow F)
  insert_batch down rows table = if down then (false, table) else (true, insert_rows rows table)

  -- The first row of the key of `r`.
  abbrev pub first : FlatRow F → List (FlatRow F) → Option (FlatRow F)
  first r [] = none
  first r (x ∷ xs) = if same_key x r then some x else first r xs

  abbrev pub or_else : Option (FlatRow F) → Option (FlatRow F) → Option (FlatRow F)
  or_else none o = o
  or_else (some x) o = some x

  pub first-append :
      (r : FlatRow F) (xs ys : List (FlatRow F))
      → first r (xs ++ ys) ≡ or_else (first r xs) (first r ys)
  first-append r [] ys = refl
  first-append r (x ∷ xs) ys = elim (Bool-cases (same_key x r)) [
    | inl own ↦ rw own refl
    | inr other ↦ rw other (first-append r xs ys)
  ]

  -- Rows of one key have the same key as any third row.
  same_key-same : (q r x : FlatRow F) → same_key q r ≡ true → same_key x q ≡ same_key x r
  unfolding same_key
  same_key-same q r x h =
      let device : q.device_id ≡ r.device_id = (text_eq_iff _ _).0 (ground arith) in
      let sensor : q.sensor_type ≡ r.sensor_type = (text_eq_iff _ _).0 (ground arith) in
      let seq : q.seq ≡ r.seq = int_eq-same q.seq r.seq (ground arith) in
      let time : q.time ≡ r.time = ground arith in rw (device, sensor, seq, time) refl

  first-has_key :
      (q r : FlatRow F) (table : List (FlatRow F))
      → same_key q r ≡ true
      → (has_key q table ≡ true → (x : FlatRow F) × (first r table ≡ some x))
        × (has_key q table ≡ false → first r table ≡ none)
  unfolding has_key
  first-has_key q r [] h = (λ e. absurd (cc e), λ e. refl)
  first-has_key q r (x ∷ table) h =
      let same = same_key-same q r x h in
      let rest = first-has_key q r table h in
      elim (Bool-cases (same_key x r)) [
        | inl own ↦ (λ e. (x, rw own refl), λ e. ground (arith, same))
        | inr other ↦
            rw other (λ e. rest.0 (ground (arith, same)), λ e. rest.1 (ground (arith, same)))
      ]

  first-insert_row :
      (r q : FlatRow F) (table : List (FlatRow F))
      → first r (insert_row q table) ≡ or_else (first r table) (first r (q ∷ []))
  first-insert_row r q table = elim (Bool-cases (same_key q r)) [
    | inl own ↦
        let (found, missing) = first-has_key q r table own in
        elim (Bool-cases (has_key q table)) [
          | inl stands ↦ let (x, e) = found stands in rw (stands, own, e) refl
          | inr new ↦ let e = missing new in rw (new, own, e) refl
        ]
    | inr other ↦ elim (Bool-cases (has_key q table)) [
      | inl stands ↦ rw (stands, other) (or_else-none (first r table))
      | inr new ↦ rw (new, other) (or_else-none (first r table))
    ]
  ]
    where
      or_else-none : (o : Option (FlatRow F)) → o ≡ or_else o none
      or_else-none none = refl
      or_else-none (some x) = refl

  -- An insertion gives each key that has no row yet the first row of that key.
  pub first-insert_rows :
      (r : FlatRow F) (rs table : List (FlatRow F))
      → first r (insert_rows rs table) ≡ or_else (first r table) (first r rs)
  first-insert_rows r [] table = elim (Option-cases (first r table)) [
    | inl e ↦ rw e refl
    | inr (x, e) ↦ rw e refl
  ]
  first-insert_rows r (q ∷ rs) table =
      first-insert_rows r rs (insert_row q table)
      ∙ ap (λ o. or_else o (first r rs)) (first-insert_row r q table)
      ∙ or_else-assoc (first r table) (first r (q ∷ [])) (first r rs)
      ∙ ap (or_else (first r table)) (sym (first-append r (q ∷ []) rs))
    where
      or_else-assoc :
          (a b c : Option (FlatRow F)) → or_else (or_else a b) c ≡ or_else a (or_else b c)
      or_else-assoc none b c = refl
      or_else-assoc (some x) b c = refl

  -- A row of this key stands in the table.
  abbrev pub IsStored : List (FlatRow F) → FlatRow F → Type 0
  IsStored table r = has_key r table ≡ true

  -- Rows whose keys stand in the table already change nothing.
  pub insert_rows-stored :
      (rs : List (FlatRow F)) (table : List (FlatRow F))
      → All (IsStored table) rs
      → insert_rows rs table ≡ table
  insert_rows-stored [] table a = refl
  insert_rows-stored (r ∷ rs) table (h, a) = rw h (insert_rows-stored rs table a)
