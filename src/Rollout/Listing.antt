-- ===== src/Rollout/Listing.antt =====
-- What ListNonTerminal of internal/rollout/store.go answers, and what ResumeAll makes of it.
use sense_grid.Common.{
  ℕ, ◌≡◌, refl, ap, ◌∙◌, inl, inr, ◌⊎◌, ◌↔◌, true, false, some, List, [], ◌∷◌, arith, ◌==◌, text_Eq,
  text_eq_iff, Text, In, ok, Result-cases, insert_asc, sort_asc, Bool-cases, Option-cases, lookup,
  lookup-insert, Float,
}
use sense_grid.Rollout.Types.{Rollout}
use sense_grid.Rollout.Services.{Services}
use sense_grid.Rollout.Engine.{Engine, put}
use sense_grid.Rollout.Commands.{add_all}
use sense_grid.Rollout.Tables.{RolloutRow, Tables, Columns, is_open, find_row, open_rows}
use sense_grid.Rollout.Store.{scan_rollout, scan_all, list_non_terminal, query}
use sense_grid.Rollout.Rows.{
  Distinct, plain, stored, live_row, live, scan_rollout-id, find_row-In, In-find_row,
}

module _ {A : Type 0} (key : A → ℕ) where
  In-insert_asc : (a x : A) (xs : List A) → In a (insert_asc key x xs) ↔ ((x ≡ a) ⊎ In a xs)
  In-insert_asc a x [] = ground arith
  In-insert_asc a x (y ∷ xs) = ground (arith, In-insert_asc a x xs)

  In-sort_asc : (a : A) (xs : List A) → In a (sort_asc key xs) ↔ In a xs
  In-sort_asc a [] = ground arith
  In-sort_asc a (x ∷ xs) = ground (arith, In-sort_asc a xs, In-insert_asc a x (sort_asc key xs))

In-open_rows :
    (row : RolloutRow) (rows : List RolloutRow)
    → In row (open_rows rows) ↔ (In row rows × (is_open row.state ≡ true))
unfolding open_rows
In-open_rows row [] = ground arith
In-open_rows row (x ∷ rows) =
    ground
      (arith, In-open_rows row rows, λ (e : x ≡ row). ap (λ (r : RolloutRow). is_open r.state) e)

-- Every row can be scanned.
unfoldable pub Readable : {F : Type 0} → Columns F → List RolloutRow → Type 0
Readable {F} c [] = Unit
Readable {F} c (row ∷ rows) = ((r : Rollout F) × (scan_rollout c row ≡ ok r)) × Readable c rows

module _ {F : Type 0} (c : Columns F) where
  In-Readable :
      (row : RolloutRow) (rows : List RolloutRow)
      → Readable c rows
      → In row rows
      → (r : Rollout F) × (scan_rollout c row ≡ ok r)
  unfolding Readable
  In-Readable row [] d m = absurd m
  In-Readable row (x ∷ rows) (h, d) (inl e) = rw (← e) h
  In-Readable row (x ∷ rows) (h, d) (inr m) = In-Readable row rows d m

  -- The rollouts of these rows, in order.
  abbrev pub Scanned : List RolloutRow → List (Rollout F) → Type 0
  Scanned [] [] = Unit
  Scanned [] (r ∷ rs) = ⊥
  Scanned (row ∷ rows) [] = ⊥
  Scanned (row ∷ rows) (r ∷ rs) = (scan_rollout c row ≡ ok r) × Scanned rows rs

  scan_all-Scanned :
      (rows : List RolloutRow)
      → ((row : RolloutRow) → In row rows → (r : Rollout F) × (scan_rollout c row ≡ ok r))
      → (rs : List (Rollout F)) × (scan_all c rows ≡ ok rs) × Scanned rows rs
  unfolding scan_all
  scan_all-Scanned [] h = ([], refl, tt)
  scan_all-Scanned (row ∷ rows) h =
      let (r, e) = h row (inl refl) in
      let (rs, es, scanned) = scan_all-Scanned rows (λ x m. h x (inr m)) in
      (r ∷ rs, rw e (rw es refl), (e, scanned))

  pub Scanned-row :
      (rows : List RolloutRow) (rs : List (Rollout F)) (r : Rollout F)
      → Scanned rows rs
      → In r rs
      → (row : RolloutRow) × In row rows × (scan_rollout c row ≡ ok r)
  Scanned-row [] [] r s m = absurd m
  Scanned-row [] (x ∷ rs) r s m = absurd s
  Scanned-row (row ∷ rows) [] r s m = absurd m
  Scanned-row (row ∷ rows) (x ∷ rs) r (e, s) (inl same) = (row, inl refl, rw (← same) e)
  Scanned-row (row ∷ rows) (x ∷ rs) r (e, s) (inr m) =
      let (found, at, e') = Scanned-row rows rs r s m in (found, inr at, e')

  pub Scanned-rollout :
      (rows : List RolloutRow) (rs : List (Rollout F)) (row : RolloutRow)
      → Scanned rows rs
      → In row rows
      → (r : Rollout F) × In r rs × (scan_rollout c row ≡ ok r)
  Scanned-rollout [] [] row s m = absurd m
  Scanned-rollout [] (x ∷ rs) row s m = absurd s
  Scanned-rollout (first ∷ rows) [] row s m = absurd s
  Scanned-rollout (first ∷ rows) (x ∷ rs) row (e, s) (inl same) = (x, inl refl, rw (← same) e)
  Scanned-rollout (first ∷ rows) (x ∷ rs) row (e, s) (inr m) =
      let (found, at, e') = Scanned-rollout rows rs row s m in (found, inr at, e')

  live-of :
      (row : RolloutRow) (rows : List RolloutRow) (r : Rollout F)
      → Distinct rows
      → In row rows
      → is_open row.state ≡ true
      → scan_rollout c row ≡ ok r
      → live c r.id rows ≡ some (plain r)
  unfolding live live_row stored
  live-of row rows r d m up e =
      ap (λ (k : Text). live c k rows) (scan_rollout-id c row r e).0
      ∙ rw (In-find_row row rows d m) (rw up (rw (e, stored) refl))

  stored-scan :
      (row : RolloutRow) (p : Rollout F)
      → stored c row ≡ some p
      → (r : Rollout F) × (scan_rollout c row ≡ ok r) × (plain r ≡ p)
  unfolding stored
  stored-scan row p h = elim (Result-cases (scan_rollout c row)) [
    | inl (e, bad) ↦ absurd (cc (rw (bad, stored) at h))
    | inr (r, good) ↦ (r, good, cc (rw (good, stored) at h))
  ]

  pub live-row :
      (id : Text) (rows : List RolloutRow) (p : Rollout F)
      → live c id rows ≡ some p
      → (row : RolloutRow) × (find_row id rows ≡ some row)
        × (is_open row.state ≡ true)
        × ((r : Rollout F) × (scan_rollout c row ≡ ok r) × (plain r ≡ p))
  unfolding live live_row
  live-row id rows p held = elim (Option-cases (find_row id rows)) [
    | inl gone ↦ absurd (cc (rw gone at held))
    | inr (row, found) ↦ elim (Bool-cases (is_open row.state)) [
      | inl up ↦ (row, found, up, stored-scan row p (rw up at (rw found at held)))
      | inr over ↦ absurd (cc (rw over at (rw found at held)))
    ]
  ]

  -- What ListNonTerminal answers of a readable table: each rollout is a live one of the table, and
  -- each live one is among them.
  pub list_non_terminal_lem :
      (t : Tables)
      → Readable c t.rollouts
      → Distinct t.rollouts
      → (rs : List (Rollout F)) × (list_non_terminal c true t ≡ ok rs)
        × ((r : Rollout F) → In r rs → live c r.id t.rollouts ≡ some (plain r))
        × ((id : Text) (p : Rollout F)
            → live c id t.rollouts ≡ some p
            → (r : Rollout F) × In r rs × (r.id ≡ id))
  unfolding list_non_terminal query live live_row stored
  list_non_terminal_lem t read d =
      let key = λ (row : RolloutRow). row.created_at in
      let sorted = sort_asc key (open_rows t.rollouts) in
      let from = λ (row : RolloutRow) (m : In row sorted).
        (In-open_rows row t.rollouts).0 ((In-sort_asc key row (open_rows t.rollouts)).0 m) in
      let (rs, answered, scanned) =
        scan_all-Scanned sorted (λ row m. In-Readable row t.rollouts read (from row m).0) in
      (
        rs,
        answered,
        (λ r m.
            let (row, at, e) = Scanned-row sorted rs r scanned m in
            let (there, up) = from row at in live-of row t.rollouts r d there up e),
        λ id p held.
            let (row, found, up, s) = live-row id t.rollouts p held in
            let (there, same) = find_row-In id row t.rollouts found in
            let at =
              (In-sort_asc key row (open_rows t.rollouts)).1
                ((In-open_rows row t.rollouts).1 (there, up)) in
            let (r, m, e) = Scanned-rollout sorted rs row scanned at in
            (r, m, (scan_rollout-id c row r e).0 ∙ same),
      )

module _ {F W : Type 0} (fl : Float F) (sv : Services F W) (stale : ℕ) where
  -- An id is held by the last rollout of the list that has it, or as before.
  pub add_all-lookup :
      (rs : List (Rollout F)) (e : Engine F W) (id : Text)
      → ((lookup id (add_all fl sv stale rs e).active ≡ lookup id e.active)
          × ((r : Rollout F) → In r rs → (r.id == id) ≡ false))
        ⊎ ((r : Rollout F) × In r rs
            × (r.id ≡ id)
            × (lookup id (add_all fl sv stale rs e).active ≡ some r))
  unfolding add_all
  add_all-lookup [] e id = inl (refl, λ r m. absurd m)
  add_all-lookup (r ∷ rs) e id = elim (add_all-lookup rs (put e r) id) [
    | inr (x, m, same, held) ↦ inr (x, inr m, same, held)
    | inl (kept, others) ↦ elim (Bool-cases (r.id == id)) [
      | inl same ↦ inr (
        r,
        inl refl,
        (text_eq_iff r.id id).0 same,
        kept ∙ rw (lookup-insert r.id id r e.active) (rw same refl),
      )
      | inr other ↦ inl (
        kept ∙ rw (lookup-insert r.id id r e.active) (rw other refl),
        λ x m. elim m [ inl s ↦ rw (← s) other | inr later ↦ others x later ],
      )
    ]
  ]
