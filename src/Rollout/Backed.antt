-- ===== src/Rollout/Backed.antt =====
-- The engine over the store of store.go: the world holds the two tables beside what lies behind the
-- other interfaces, which says of each statement whether the database answers and what now() is.
use sense_grid.Common.{ℕ, Bool, true, Option, none, some, Result, ok, err}
use mathlib.Core.Option
use sense_grid.Rollout.Services.{Services}
use sense_grid.Rollout.Tables.{Tables, Columns}
use sense_grid.Rollout.Store
use sense_grid.Rollout.Store.{Error}

pub record World (V : Type 0) : Type 0 where
  pub tables : Tables
  pub rest : V

-- Is the next statement answered, and at what time of the database?
abbrev pub Answers : Type 0 → Type 0
Answers V = V → Bool × ℕ × V

abbrev pub beside : {V A : Type 0} → (V → A × V) → World V → A × World V
beside f w = let (a, v) = f w.rest in (a, record w { rest = v })

-- `err == nil`, and the value where there was no error.
abbrev pub no_error : Option Error → Bool
no_error none = true
no_error (some e) = Bool.false

abbrev pub value_of : {A : Type 0} → Result Error A → Option A
value_of (ok a) = some a
value_of (err e) = none

module _ {F V : Type 0} (c : Columns F) (answers : Answers V) where
  abbrev pub reads : {A : Type 0} → (Bool → Tables → Result Error A) → World V → Option A × World V
  reads f w =
      let (up, db_now, v) = answers w.rest in (value_of (f up w.tables), record w { rest = v })

  abbrev pub writes : (Bool → ℕ → Tables → Option Error × Tables) → World V → Bool × World V
  writes f w =
      let (up, db_now, v) = answers w.rest in
      let (e, t) = f up db_now w.tables in (no_error e, record { tables = t; rest = v })

  abbrev pub backed : Services F V → Services F (World V)
  backed sv = record {
    set_desired = λ id d. beside (sv.set_desired id d);
    get_desired = λ id. beside (sv.get_desired id);
    get_reported = λ id. beside (sv.get_reported id);
    publish_desired = Option.map (λ send id d. beside (send id d)) sv.publish_desired;
    list_devices = beside sv.list_devices;
    firing_count = Option.map (λ count ids since. beside (count ids since)) sv.firing_count;
    create = λ r. writes (λ up db_now. Store.create c up db_now r);
    get = λ id. reads (λ up. Store.get c up id);
    list = reads (Store.list c);
    list_non_terminal = reads (Store.list_non_terminal c);
    update_state = λ id s. writes (λ up db_now. Store.update_state c up db_now id s);
    advance_stage = λ id i t. writes (λ up db_now. Store.advance_stage c up db_now id i t);
    record_target = λ id t. writes (λ up db_now. Store.record_target c up id t);
    list_targets = λ id. reads (λ up. Store.list_targets c up id);
    publish_event = Option.map (λ send event. beside (send event)) sv.publish_event;
    now = beside sv.now;
    new_id = beside sv.new_id;
  }
