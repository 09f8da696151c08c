-- ===== src/Alerts/History.antt =====
-- What any history of calls makes of the table of alerts.
use sense_grid.Common.{
  ℕ, suc, ◌+◌, ◌≤◌, ◌≡◌, refl, ◌⊎◌, inl, inr, Bool, true, false, none, List, [], ◌∷◌, ◌++◌, arith,
  if◌then◌else◌, ◌==◌, text_Eq, Text, text_eq_iff, All, Codec, Bool-cases, Option-cases,
}
use sense_grid.Alerts.Machine.{firing, Event, acknowledge, clear, next}
use sense_grid.Alerts.Store.{
  Row, is_resolved, is_firing, open_for, open_by_id, firing_by_id, update_where, violates_unique,
  as_resolved, as_acknowledged, firing_row, open_alert, resolve, resolve_by_id, acknowledge_alert,
}

-- The calls that write, with their arguments.
pub data Call {ℓ} (D : Type ℓ) : Type ℓ where
  opens : Bool → Bool → Text → Text → Text → Text → Text → D → ℕ → ℕ → Call D
  resolves : Bool → Text → Text → Text → ℕ → ℕ → Call D
  resolves_id : Bool → Text → ℕ → ℕ → Call D
  acknowledges : Bool → Text → ℕ → Call D

-- The row keeps its identity, and its state stays or moves as Machine.Next allows.
pub record Follows (old new : Row) : Type 0 where
  pub same_id : new.id ≡ old.id
  pub same_device : new.device_id ≡ old.device_id
  pub same_sensor : new.sensor_type ≡ old.sensor_type
  pub same_rule : new.rule_name ≡ old.rule_name
  pub moved : (new.state ≡ old.state) ⊎ ((e : Event) × (next old.state e ≡ (new.state, none)))

-- No row goes away, each old row follows itself, and the rows that are new are firing.
abbrev pub Evolves : List Row → List Row → Type 0
Evolves [] new = All (λ r. r.state ≡ firing) new
Evolves (o ∷ os) [] = ⊥
Evolves (o ∷ os) (n ∷ ns) = Follows o n × Evolves os ns

abbrev pub count_where : (Row → Bool) → List Row → ℕ
count_where p [] = 0
count_where p (r ∷ rs) = let rest = count_where p rs in if p r then suc rest else rest

-- The primary key, and at most one open alert for each device, sensor and rule.
pub record IsUnique (rows : List Row) : Type 0 where
  pub by_id : (id : Text) → count_where (λ r. r.id == id) rows ≤ 1
  pub by_key : (d s r : Text) → count_where (open_for d s r) rows ≤ 1

Follows-refl : (r : Row) → Follows r r
Follows-refl r = record {
  same_id = refl;
  same_device = refl;
  same_sensor = refl;
  same_rule = refl;
  moved = inl refl;
}

Evolves-refl : (rows : List Row) → Evolves rows rows
Evolves-refl [] = tt
Evolves-refl (r ∷ rs) = (Follows-refl r, Evolves-refl rs)

Evolves-snoc : (rows : List Row) (r : Row) → r.state ≡ firing → Evolves rows (rows ++ r ∷ [])
Evolves-snoc [] r h = (h, tt)
Evolves-snoc (o ∷ os) r h = (Follows-refl o, Evolves-snoc os r h)

Evolves-update_where :
    (p : Row → Bool) (f : Row → Row)
    → ((r : Row) → p r ≡ true → Follows r (f r))
    → (rows : List Row) → Evolves rows (update_where p f rows)
unfolding update_where
Evolves-update_where p f follows [] = tt
Evolves-update_where p f follows (r ∷ rs) = elim (Bool-cases (p r)) [
  | inl e ↦ rw e (follows r e, Evolves-update_where p f follows rs)
  | inr e ↦ rw e (Follows-refl r, Evolves-update_where p f follows rs)
]

resolved-Follows :
    (at db_now : ℕ) (r : Row) → is_resolved r.state ≡ false → Follows r (as_resolved at db_now r)
unfolding next
resolved-Follows at db_now r h = record {
  same_id = refl;
  same_device = refl;
  same_sensor = refl;
  same_rule = refl;
  moved = inr (clear, ground arith);
}

acknowledged-Follows :
    (db_now : ℕ) (r : Row) → is_firing r.state ≡ true → Follows r (as_acknowledged db_now r)
unfolding next
acknowledged-Follows db_now r h = record {
  same_id = refl;
  same_device = refl;
  same_sensor = refl;
  same_rule = refl;
  moved = inr (acknowledge, ground arith);
}

count-snoc :
    (p : Row → Bool) (rows : List Row) (r : Row)
    → count_where p (rows ++ r ∷ []) ≡ count_where p rows + (if p r then 1 else 0)
count-snoc p [] r = ground arith
count-snoc p (x ∷ rows) r = ground (arith, count-snoc p rows r)

count-update_where :
    (p q : Row → Bool) (f : Row → Row)
    → ((r : Row) → q r ≡ true → p (f r) ≡ true → p r ≡ true)
    → (rows : List Row) → count_where p (update_where q f rows) ≤ count_where p rows
unfolding update_where
count-update_where p q f back [] = omega arith
count-update_where p q f back (r ∷ rs) = ground (arith, back r, count-update_where p q f back rs)

IsUnique-update_where :
    (q : Row → Bool) (f : Row → Row)
    → ((r : Row) → (f r).id ≡ r.id)
    → ((r : Row) (d s k : Text)
        → q r ≡ true
        → open_for d s k (f r) ≡ true
        → open_for d s k r ≡ true)
    → (rows : List Row) → IsUnique rows
    → IsUnique (update_where q f rows)
IsUnique-update_where q f same_id back rows u = record {
  by_id = λ id. omega (
    arith,
    count-update_where (λ x. x.id == id) q f (λ r _ e. rw (same_id r) at e) rows,
    u.by_id id,
  );
  by_key = λ d s k.
      omega
        (arith, count-update_where (open_for d s k) q f (λ r. back r d s k) rows, u.by_key d s k);
}

new_id :
    (new : Row) (rows : List Row)
    → violates_unique new rows ≡ false
    → count_where (λ r. r.id == new.id) rows ≡ 0
unfolding violates_unique
new_id new [] h = refl
new_id new (r ∷ rs) h = ground (arith, new_id new rs)

new_key :
    (new : Row) (rows : List Row)
    → is_resolved new.state ≡ false
    → violates_unique new rows ≡ false
    → count_where (open_for new.device_id new.sensor_type new.rule_name) rows ≡ 0
unfolding violates_unique
new_key new [] o h = refl
new_key new (r ∷ rs) o h = ground (arith, new_key new rs)

open_for_key :
    (d s k : Text) (r : Row)
    → open_for d s k r ≡ true
    → (r.device_id ≡ d) × (r.sensor_type ≡ s) × (r.rule_name ≡ k)
unfolding open_for
open_for_key d s k r h =
    ground
      (arith, text_eq_iff r.device_id d, text_eq_iff r.sensor_type s, text_eq_iff r.rule_name k)

IsUnique-snoc :
    (rows : List Row) (new : Row)
    → is_resolved new.state ≡ false
    → violates_unique new rows ≡ false
    → IsUnique rows
    → IsUnique (rows ++ new ∷ [])
IsUnique-snoc rows new o h u = record {
  by_id = λ id. ground (
    arith,
    count-snoc (λ r. r.id == id) rows new,
    u.by_id id,
    text_eq_iff new.id id,
    new_id new rows h,
  );
  by_key = λ d s k. ground (
    arith,
    count-snoc (open_for d s k) rows new,
    u.by_key d s k,
    open_for_key d s k new,
    new_key new rows o h,
  );
}

module _ {ℓ} {D : Type ℓ} (json : Codec D) (no_detail : D) where
  unfoldable pub step : Call D → List Row → List Row
  step (opens down again id d s r severity detail fired_at db_now) rows =
      (open_alert json no_detail down again id d s r severity detail fired_at db_now rows).1
  step (resolves down d s r at db_now) rows = (resolve json no_detail down d s r at db_now rows).1
  step (resolves_id down id at db_now) rows =
      (resolve_by_id json no_detail down id at db_now rows).1
  step (acknowledges down id db_now) rows = (acknowledge_alert json no_detail down id db_now rows).1

  unfoldable pub run : List (Call D) → List Row → List Row
  run [] rows = rows
  run (c ∷ cs) rows = run cs (step c rows)

  open_cases {κ} :
      (P : List Row → Type κ) (down again : Bool) (id d s r severity : Text) (detail : D)
      (fired_at db_now : ℕ) (rows : List Row)
      → P rows
      → ((new : Row) → new.state ≡ firing → violates_unique new rows ≡ false → P (rows ++ new ∷ []))
      → P (open_alert json no_detail down again id d s r severity detail fired_at db_now rows).1
  unfolding open_alert
  open_cases P down again id d s r severity detail fired_at db_now rows stay add =
      elim (Option-cases (json.marshal detail)) [
        | inl e ↦ rw (e, open_alert) stay
        | inr (text, e) ↦
            rw (e, open_alert)
              (elim (Bool-cases down) [
                | inl lost ↦ rw lost stay
                | inr up ↦ rw up (elim (Bool-cases (violates_unique (new text) rows)) [
                  | inl v ↦ rw (v, open_alert) stay
                  | inr v ↦ rw (v, open_alert) (add (new text) refl v)
                ])
              ])
      ]
    where
      new : Text → Row
      new text = firing_row json no_detail id d s r severity text fired_at db_now

  -- Every call, answered or not, moves the state of each alert only as Machine.Next allows, keeps
  -- the alert's identity, deletes no row, and makes new rows firing.
  pub step-Evolves : (c : Call D) (rows : List Row) → Evolves rows (step c rows)
  unfolding step open_alert resolve resolve_by_id acknowledge_alert
  step-Evolves (opens down again id d s r severity detail fired_at db_now) rows =
      open_cases (Evolves rows) down again id d s r severity detail fired_at db_now rows
        (Evolves-refl rows) (λ new e _. Evolves-snoc rows new e)
  step-Evolves (resolves true d s r at db_now) rows = Evolves-refl rows
  step-Evolves (resolves false d s r at db_now) rows =
      Evolves-update_where (open_for d s r) (as_resolved at db_now)
        (λ x e. resolved-Follows at db_now x (unfold open_for in ground arith)) rows
  step-Evolves (resolves_id true id at db_now) rows = Evolves-refl rows
  step-Evolves (resolves_id false id at db_now) rows =
      Evolves-update_where (open_by_id id) (as_resolved at db_now)
        (λ x e. resolved-Follows at db_now x (ground arith)) rows
  step-Evolves (acknowledges true id db_now) rows = Evolves-refl rows
  step-Evolves (acknowledges false id db_now) rows =
      Evolves-update_where (firing_by_id id) (as_acknowledged db_now)
        (λ x e. acknowledged-Follows db_now x (ground arith)) rows

  -- Every call keeps the ids distinct and at most one alert open for a device, sensor and rule.
  pub step-IsUnique : (c : Call D) (rows : List Row) → IsUnique rows → IsUnique (step c rows)
  unfolding step resolve resolve_by_id acknowledge_alert
  step-IsUnique (opens down again id d s r severity detail fired_at db_now) rows u =
      open_cases IsUnique down again id d s r severity detail fired_at db_now rows u
        (λ new e h. IsUnique-snoc rows new (ground arith) h u)
  step-IsUnique (resolves true d s r at db_now) rows u = u
  step-IsUnique (resolves false d s r at db_now) rows u =
      IsUnique-update_where (open_for d s r) (as_resolved at db_now) (λ x. refl)
        (λ x d s k q e. unfold open_for in ground arith) rows u
  step-IsUnique (resolves_id true id at db_now) rows u = u
  step-IsUnique (resolves_id false id at db_now) rows u =
      IsUnique-update_where (open_by_id id) (as_resolved at db_now) (λ x. refl)
        (λ x d s k q e. unfold open_for in ground arith) rows u
  step-IsUnique (acknowledges true id db_now) rows u = u
  step-IsUnique (acknowledges false id db_now) rows u =
      IsUnique-update_where (firing_by_id id) (as_acknowledged db_now) (λ x. refl)
        (λ x d s k q e. unfold open_for in ground arith) rows u
