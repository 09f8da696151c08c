-- ===== src/Rollout/Rows.antt =====
-- What the statements of internal/rollout/store.go make of the rollouts that a table holds.
use sense_grid.Common.{
  ℕ, ◌≡◌, refl, inl, inr, Bool, true, false, Option, none, some, List, [], ◌∷◌, ◌++◌, arith,
  if◌then◌else◌, ◌==◌, text_Eq, text_eq_iff, ==_refl, Text, In, ok, err,
}
use mathlib.Core.Option
use sense_grid.Rollout.Types.{Rollout, State}
use sense_grid.Rollout.Tables.{
  RolloutRow, Columns, is_open, find_row, update_row, has_id, with_state, with_stage,
}
use sense_grid.Rollout.Store.{row_of, scan_rollout}

-- A rollout without the times that only the table keeps.
abbrev pub plain : {F : Type 0} → Rollout F → Rollout F
plain r = record r { created_at = 0; updated_at = 0 }

unfoldable pub Distinct : List RolloutRow → Type 0
Distinct [] = Unit
Distinct (row ∷ rows) = (has_id row.id rows ≡ false) × Distinct rows

module _ {F : Type 0} (c : Columns F) where
  unfoldable pub stored : RolloutRow → Option (Rollout F)
  stored row = elim (scan_rollout c row) [ err e ↦ none | ok r ↦ some (plain r) ]

  unfoldable pub live_row : Option RolloutRow → Option (Rollout F)
  live_row none = none
  live_row (some row) = if is_open row.state then stored row else none

  -- The running or paused rollout of this id that a table holds.
  unfoldable pub live : Text → List RolloutRow → Option (Rollout F)
  unfolding live_row
  live id rows = live_row (find_row id rows)

  pub stored-ok :
      (row : RolloutRow) (r : Rollout F) → scan_rollout c row ≡ ok r → stored row ≡ some (plain r)
  unfolding stored
  stored-ok row r e = rw (e, stored) refl

  pub live_row-some :
      (row : RolloutRow) (p : Rollout F) (b : Bool)
      → stored row ≡ some p
      → is_open row.state ≡ b
      → live_row (some row) ≡ (if b then some p else none)
  unfolding live_row
  live_row-some row p b s up = rw up (rw s refl)

  -- What encoding/json and jsonb give back of the documents of a rollout is what was written.
  pub record ReadsBack (r : Rollout F) : Type 0 where
    pub cohort :
        (body : Text)
        → c.cohort.marshal r.cohort ≡ some body
        → c.cohort.unmarshal (c.jsonb body) ≡ some r.cohort
    pub desired :
        (body : Text)
        → c.desired.marshal r.desired_config ≡ some body
        → c.desired.unmarshal (c.jsonb body) ≡ some r.desired_config
    pub stages :
        (body : Text)
        → c.stages.marshal r.stages ≡ some body
        → c.stages.unmarshal (c.jsonb body) ≡ some r.stages
    pub criteria :
        (body : Text)
        → c.criteria.marshal r.health_criteria ≡ some body
        → c.criteria.unmarshal (c.jsonb body) ≡ some r.health_criteria

  pub row_of-stored :
      (t : ℕ) (r : Rollout F) (row : RolloutRow)
      → ReadsBack r
      → row_of c t r ≡ ok row
      → scan_rollout c row ≡ ok (record r { created_at = t; updated_at = t })
  unfolding row_of scan_rollout
  row_of-stored t r row b made = ground (
    arith,
    b.cohort row.cohort,
    b.desired row.desired_config,
    b.stages row.stages,
    b.criteria row.health_criteria,
  )

  pub scan_rollout-state :
      (row : RolloutRow) (r : Rollout F) (s : State) (t : ℕ)
      → scan_rollout c row ≡ ok r
      → scan_rollout c (with_state s t row) ≡ ok (record r { state = s; updated_at = t })
  unfolding scan_rollout
  scan_rollout-state row r s t h = ground arith

  pub scan_rollout-id :
      (row : RolloutRow) (r : Rollout F)
      → scan_rollout c row ≡ ok r
      → (r.id ≡ row.id) × (r.state ≡ row.state)
  unfolding scan_rollout
  scan_rollout-id row r h = ground arith

  pub scan_rollout-stage :
      (row : RolloutRow) (r : Rollout F) (i started_at t : ℕ)
      → scan_rollout c row ≡ ok r
      → scan_rollout c (with_stage i started_at t row)
        ≡ ok (record r {
          current_stage_index = i;
          current_stage_started_at = started_at;
          updated_at = t;
        })
  unfolding scan_rollout
  scan_rollout-stage row r i started_at t h = ground arith

-- Statements by the key.
pub find_row-update :
    (id j : Text) (f : RolloutRow → RolloutRow) (rows : List RolloutRow)
    → ((row : RolloutRow) → (f row).id ≡ row.id)
    → find_row j (update_row id f rows)
      ≡ (if id == j then Option.map f (find_row j rows) else find_row j rows)
unfolding find_row update_row
find_row-update id j f [] same = ground arith
find_row-update id j f (row ∷ rows) same = ground (
  arith,
  same row,
  text_eq_iff row.id id,
  text_eq_iff row.id j,
  text_eq_iff (f row).id j,
  text_eq_iff id j,
  find_row-update id j f rows same,
)

pub find_row-append :
    (j : Text) (new : RolloutRow) (rows : List RolloutRow)
    → has_id new.id rows ≡ false
    → find_row j (rows ++ new ∷ []) ≡ (if new.id == j then some new else find_row j rows)
unfolding find_row has_id
find_row-append j new [] fresh = refl
find_row-append j new (row ∷ rows) fresh = ground (
  arith,
  text_eq_iff row.id j,
  text_eq_iff new.id j,
  text_eq_iff row.id new.id,
  find_row-append j new rows,
)

has_id-update :
    (id j : Text) (f : RolloutRow → RolloutRow) (rows : List RolloutRow)
    → ((row : RolloutRow) → (f row).id ≡ row.id)
    → has_id j (update_row id f rows) ≡ has_id j rows
unfolding has_id update_row
has_id-update id j f [] same = refl
has_id-update id j f (row ∷ rows) same = ground (arith, same row, has_id-update id j f rows same)

pub update_row-Distinct :
    (id : Text) (f : RolloutRow → RolloutRow) (rows : List RolloutRow)
    → ((row : RolloutRow) → (f row).id ≡ row.id)
    → Distinct rows
    → Distinct (update_row id f rows)
unfolding Distinct update_row
update_row-Distinct id f [] same d = d
update_row-Distinct id f (row ∷ rows) same (fresh, d) = (
  ground (arith, same row, has_id-update id row.id f rows same),
  update_row-Distinct id f rows same d,
)

has_id-append :
    (j : Text) (new : RolloutRow) (rows : List RolloutRow)
    → has_id j rows ≡ false
    → (new.id == j) ≡ false
    → has_id j (rows ++ new ∷ []) ≡ false
unfolding has_id
has_id-append j new [] fresh other = ground arith
has_id-append j new (row ∷ rows) fresh other = ground (arith, has_id-append j new rows)

pub append-Distinct :
    (new : RolloutRow) (rows : List RolloutRow)
    → Distinct rows
    → has_id new.id rows ≡ false
    → Distinct (rows ++ new ∷ [])
unfolding Distinct has_id
append-Distinct new [] d fresh = (refl, tt)
append-Distinct new (row ∷ rows) (first, d) fresh = (
  has_id-append row.id new rows first
      (ground (arith, text_eq_iff row.id new.id, text_eq_iff new.id row.id)),
  append-Distinct new rows d (ground arith),
)

pub find_row-In :
    (id : Text) (row : RolloutRow) (rows : List RolloutRow)
    → find_row id rows ≡ some row
    → In row rows × (row.id ≡ id)
unfolding find_row
find_row-In id row [] h = cc
find_row-In id row (x ∷ rows) h = ground (arith, text_eq_iff x.id id, find_row-In id row rows)

has_id-In : (row : RolloutRow) (rows : List RolloutRow) → In row rows → has_id row.id rows ≡ true
unfolding has_id
has_id-In row [] m = absurd m
has_id-In row (x ∷ rows) (inl e) = rw e (rw (==_refl row.id) refl)
has_id-In row (x ∷ rows) (inr m) = ground (arith, has_id-In row rows m)

pub In-find_row :
    (row : RolloutRow) (rows : List RolloutRow)
    → Distinct rows
    → In row rows
    → find_row row.id rows ≡ some row
unfolding find_row Distinct
In-find_row row [] d m = absurd m
In-find_row row (x ∷ rows) (fresh, d) (inl e) = rw e (rw (==_refl row.id) refl)
In-find_row row (x ∷ rows) (fresh, d) (inr m) =
    ground (arith, text_eq_iff x.id row.id, has_id-In row rows m, In-find_row row rows d m)
