-- ===== src/Rollout/Agreement.antt =====
-- When the engine's map of active rollouts and the table agree, and what keeps them so.
use sense_grid.Common.{
  ℕ, ◌≡◌, refl, sym, ap, ◌∙◌, inl, inr, Bool, true, false, none, some, List, [], ◌∷◌, ◌++◌,
  if◌then◌else◌, ◌==◌, text_Eq, text_eq_iff, ==_refl, Text, ok, Bool-cases, lookup, insert, delete,
  lookup-insert, lookup-delete,
}
use mathlib.Core.Option
use sense_grid.Rollout.Types.{Rollout, State}
use sense_grid.Rollout.Tables.{
  RolloutRow, Columns, is_open, find_row, update_row, has_id, with_state, with_stage,
}
use sense_grid.Rollout.Store.{scan_rollout, row_of}
use sense_grid.Rollout.Rows.{
  Distinct, plain, stored-ok, live_row-some, live, find_row-update, find_row-append,
  update_row-Distinct, append-Distinct, scan_rollout-id, scan_rollout-state, scan_rollout-stage,
  row_of-stored, find_row-In, ReadsBack,
}
use sense_grid.Rollout.Listing.{Readable, live-row}

-- The map holds the running and paused rollouts of the table, up to the times that only the table
-- keeps; ids of rows are distinct, and each row can be scanned.
pub record Agrees {F : Type 0} (c : Columns F) (active : List (Text × Rollout F))
    (rows : List RolloutRow) : Type 0 where
  pub held : (id : Text) → Option.map plain (lookup id active) ≡ live c id rows
  pub distinct : Distinct rows
  pub readable : Readable c rows

-- `f` makes of a row what `g` makes of its rollout.
pub record Moves {F : Type 0} (c : Columns F) (f : RolloutRow → RolloutRow)
    (g : Rollout F → Rollout F) : Type 0 where
  pub same_id : (row : RolloutRow) → (f row).id ≡ row.id
  pub moved :
      (row : RolloutRow) (r : Rollout F)
      → scan_rollout c row ≡ ok r
      → (r' : Rollout F) × (scan_rollout c (f row) ≡ ok r') × (plain r' ≡ g (plain r))

module _ {F : Type 0} (c : Columns F) where
  pub Agrees-eq :
      (a b : List (Text × Rollout F)) (rows rows' : List RolloutRow)
      → Agrees c a rows
      → b ≡ a
      → rows' ≡ rows
      → Agrees c b rows'
  Agrees-eq a b rows rows' h e e' = rw e (rw e' h)

  pub state-Moves : (s : State) (t : ℕ) → Moves c (with_state s t) (λ r. record r { state = s })
  state-Moves s t = record {
    same_id = λ row. refl;
    moved =
        λ row r e. (record r { state = s; updated_at = t }, scan_rollout-state c row r s t e, refl);
  }

  pub stage-Moves :
      (i started_at t : ℕ)
      → Moves c
          (with_stage i started_at t)
          (λ r. record r { current_stage_index = i; current_stage_started_at = started_at })
  stage-Moves i started_at t = record {
    same_id = λ row. refl;
    moved = λ row r e. (
      record r { current_stage_index = i; current_stage_started_at = started_at; updated_at = t },
      scan_rollout-stage c row r i started_at t e,
      refl,
    );
  }

  update_row-Readable :
      (id : Text) (f : RolloutRow → RolloutRow) (g : Rollout F → Rollout F) (rows : List RolloutRow)
      → Moves c f g
      → Readable c rows
      → Readable c (update_row id f rows)
  unfolding Readable update_row
  update_row-Readable id f g [] m a = a
  update_row-Readable id f g (row ∷ rows) m ((r, e), a) = elim (Bool-cases (row.id == id)) [
    | inl same ↦
        let (r', e', _) = m.moved row r e in rw same ((r', e'), update_row-Readable id f g rows m a)
    | inr other ↦ rw other ((r, e), update_row-Readable id f g rows m a)
  ]

  append-Readable :
      (row : RolloutRow) (r : Rollout F) (rows : List RolloutRow)
      → scan_rollout c row ≡ ok r
      → Readable c rows
      → Readable c (rows ++ row ∷ [])
  unfolding Readable
  append-Readable row r [] e a = ((r, e), tt)
  append-Readable row r (x ∷ rows) e (h, a) = (h, append-Readable row r rows e a)

  live-update_other :
      (id j : Text) (f : RolloutRow → RolloutRow) (rows : List RolloutRow)
      → ((row : RolloutRow) → (f row).id ≡ row.id)
      → (id == j) ≡ false
      → live c j (update_row id f rows) ≡ live c j rows
  unfolding live
  live-update_other id j f rows same other = rw (find_row-update id j f rows same) (rw other refl)

  live-update :
      (id : Text) (f : RolloutRow → RolloutRow) (g : Rollout F → Rollout F) (rows : List RolloutRow)
      (p : Rollout F)
      → Moves c f g
      → live c id rows ≡ some p
      → live c id (update_row id f rows) ≡ (if is_open (g p).state then some (g p) else none)
  unfolding live
  live-update id f g rows p m held =
      let (row, found, up, (r, e, same)) = live-row c id rows p held in
      let (r', e', eq) = m.moved row r e in
      let now : plain r' ≡ g p = eq ∙ ap g same in
      let state : (f row).state ≡ (g p).state =
        sym (scan_rollout-id c (f row) r' e').1 ∙ ap (λ (x : Rollout F). x.state) now in
      rw (find_row-update id id f rows m.same_id) (
        rw (==_refl id) (
          rw found (
            live_row-some c (f row) (g p) (is_open (g p).state)
              (stored-ok c (f row) r' e' ∙ ap some now) (ap is_open state))))

  -- The rollout of the map has the id that it stands under.
  pub Agrees-id :
      (active : List (Text × Rollout F)) (rows : List RolloutRow) (id : Text) (r : Rollout F)
      → Agrees c active rows
      → lookup id active ≡ some r
      → (live c id rows ≡ some (plain r)) × (r.id ≡ id) × (is_open r.state ≡ true)
  Agrees-id active rows id r a found =
      let held : live c id rows ≡ some (plain r) = sym (a.held id) ∙ ap (Option.map plain) found in
      let (row, at, up, (x, e, same)) = live-row c id rows (plain r) held in
      let (x_id, x_state) = scan_rollout-id c row x e in
      (
        held,
        ap (λ (y : Rollout F). y.id) (sym same) ∙ x_id ∙ (find_row-In id row rows at).1,
        ap (λ (y : Rollout F). is_open y.state) (sym same) ∙ ap is_open x_state ∙ up,
      )

  -- A statement on the row of a rollout that the map holds.
  module _ (active : List (Text × Rollout F)) (rows : List RolloutRow) (r : Rollout F)
      (f : RolloutRow → RolloutRow) (g : Rollout F → Rollout F) (m : Moves c f g)
      (a : Agrees c active rows) (found : lookup r.id active ≡ some r) where
    updated :
        (b : Bool)
        → is_open (g (plain r)).state ≡ b
        → (id : Text) → (r.id == id) ≡ true
        → live c id (update_row r.id f rows) ≡ (if b then some (g (plain r)) else none)
    updated b up id same =
        ap (λ (k : Text). live c k (update_row r.id f rows)) (sym ((text_eq_iff r.id id).0 same))
        ∙ live-update r.id f g rows (plain r) m (Agrees-id active rows r.id r a found).0
        ∙ ap (λ (b : Bool). if b then some (g (plain r)) else none) up

    pub insert-Agrees :
        (r' : Rollout F)
        → plain r' ≡ g (plain r)
        → is_open (g (plain r)).state ≡ true
        → Agrees c (insert r.id r' active) (update_row r.id f rows)
    insert-Agrees r' now up = record {
      held = λ id. rw (lookup-insert r.id id r' active) (elim (Bool-cases (r.id == id)) [
        | inl same ↦ rw same (ap some now ∙ sym (updated true up id same))
        | inr other ↦ rw other (a.held id ∙ sym (live-update_other r.id id f rows m.same_id other))
      ]);
      distinct = update_row-Distinct r.id f rows m.same_id a.distinct;
      readable = update_row-Readable r.id f g rows m a.readable;
    }

    pub delete-Agrees :
        is_open (g (plain r)).state ≡ false → Agrees c (delete r.id active) (update_row r.id f rows)
    delete-Agrees over = record {
      held = λ id. rw (lookup-delete r.id id active) (elim (Bool-cases (r.id == id)) [
        | inl same ↦ rw same (sym (updated false over id same))
        | inr other ↦ rw other (a.held id ∙ sym (live-update_other r.id id f rows m.same_id other))
      ]);
      distinct = update_row-Distinct r.id f rows m.same_id a.distinct;
      readable = update_row-Readable r.id f g rows m a.readable;
    }

  -- A new row.
  pub append-Agrees :
      (active : List (Text × Rollout F)) (rows : List RolloutRow) (r : Rollout F) (t : ℕ)
      (row : RolloutRow)
      → Agrees c active rows
      → ReadsBack c r
      → row_of c t r ≡ ok row
      → is_open r.state ≡ true
      → has_id r.id rows ≡ false
      → Agrees c (insert r.id r active) (rows ++ row ∷ [])
  unfolding live
  append-Agrees active rows r t row a back made up fresh =
      let e = row_of-stored c t r row back made in
      let (r_id, r_state) = scan_rollout-id c row _ e in
      let fresh' : has_id row.id rows ≡ false =
        ap (λ (k : Text). has_id k rows) (sym r_id) ∙ fresh in
      record {
        held = λ id. rw (lookup-insert r.id id r active) (
            rw
              (find_row-append id row rows fresh'
                ∙ ap (λ (k : Text). if k == id then some row else find_row id rows) (sym r_id))
              ((elim (Bool-cases (r.id == id)) [
                | inl same ↦ rw same (
                    sym (
                      live_row-some c row (plain r) true (stored-ok c row _ e)
                        (ap is_open (sym r_state) ∙ up)))
                | inr other ↦ rw other (a.held id)
              ])));
        distinct = append-Distinct row rows a.distinct fresh';
        readable = append-Readable row _ rows e a.readable;
      }
