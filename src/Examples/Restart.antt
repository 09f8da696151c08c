-- ===== src/Examples/Restart.antt =====
-- A control plane over its two tables that restarts.
use sense_grid.Common.{
  ℕ, ◌+◌, ◌≡◌, refl, sym, subst, ==_refl, inl, inr, true, false, not, none, some, [], ◌∷◌, ◌==◌,
  text_Eq, if◌then◌else◌, nat_eq, codes, Text, lookup, Codec, Bool-cases, arith, ◌∙◌,
}
use mathlib.Core.Option
use sense_grid.Rollout.Types.{Rollout, running}
use sense_grid.Rollout.Services.{Services}
use sense_grid.Rollout.Engine.{Engine, new_engine, complete_locked, announce}
use sense_grid.Rollout.Signals.{publish, publish_to}
use sense_grid.Rollout.Commands.{resume_all}
use sense_grid.Rollout.Invariant.{creates, ticks, pauses, run}
use sense_grid.Rollout.Tables.{RolloutRow, Tables, Columns, find_row, has_id}
use sense_grid.Rollout.Store.{scan_rollout}
use sense_grid.Rollout.Backed.{World, Answers, backed}
use sense_grid.Rollout.Rows.{Distinct, ReadsBack, plain, live, live_row, stored}
use sense_grid.Rollout.Listing.{Readable}
use sense_grid.Rollout.Agreement.{Agrees}
use sense_grid.Rollout.Restart.{run-resume_all}
use sense_grid.Rollout.Lifecycle.{IsLive, Inv}
use sense_grid.Rollout.Safety.{OpenLive, run-resumed-Inv, run-OpenLive}
use sense_grid.Rollout.Revival.{complete_locked-revived}
use sense_grid.Examples.Window.{whole}
use sense_grid.Examples.Memory.{Memory, memory, d1, d2, empty_memory, plan}

-- A codec that knows one document.
abbrev only : {A : Type 0} → Text → A → Codec A
only name a = record {
  marshal = λ x. some name;
  unmarshal = λ text. if text == name then some a else none;
}

abbrev pub columns : Columns ℕ
columns = record {
  cohort = only (codes "cohort") plan.cohort;
  desired = only (codes "desired") plan.desired_config;
  stages = only (codes "stages") plan.stages;
  criteria = only (codes "criteria") plan.health_criteria;
  jsonb = λ text. text;
}

-- Is every statement but those of this time of the clock answered?
abbrev but_at : ℕ → Answers Memory
but_at lost m = (not (nat_eq m.clock lost), m.clock, record m { clock = m.clock + 1 })

abbrev always : Answers Memory
always m = (true, m.clock, record m { clock = m.clock + 1 })

abbrev behind : Services ℕ Memory
behind = memory (d1 ∷ d2 ∷ []) true

abbrev r1 : Text
r1 = codes "r1"

abbrev row : RolloutRow
row = record {
  id = r1;
  name = codes "faster";
  cohort = codes "cohort";
  desired_config = codes "desired";
  stages = codes "stages";
  health_criteria = codes "criteria";
  state = running;
  current_stage_index = 0;
  current_stage_started_at = 0;
  created_at = 0;
  updated_at = 0;
}

abbrev pub empty_tables : Tables
empty_tables = record { rollouts = []; targets = [] }

only-reads :
    {A : Type 0} (name : Text) (a : A) (body : Text)
    → some name ≡ some body
    → (if body == name then some a else none) ≡ some a
only-reads name a body e =
    let same : name ≡ body = cc e in
    subst (λ (text : Text). (if text == name then some a else none) ≡ some a) same
      (rw (==_refl name) refl)

plan-ReadsBack : ReadsBack columns plan
plan-ReadsBack = record {
  cohort = only-reads (codes "cohort") plan.cohort;
  desired = only-reads (codes "desired") plan.desired_config;
  stages = only-reads (codes "stages") plan.stages;
  criteria = only-reads (codes "criteria") plan.health_criteria;
}

run-resume_all_example :
    let sv = backed columns always behind in
    let e =
      run whole sv 10
        (creates plan ∷ ticks (r1 ∷ []) ∷ pauses r1 ∷ [])
        (resume_all whole sv 10
          (new_engine whole sv 10 (record { tables = empty_tables; rest = empty_memory }))).1 in
    let (done, e') = resume_all whole sv 10 (new_engine whole sv 10 e.world) in
    (done ≡ true)
    × ((id : Text) → Option.map plain (lookup id e'.active) ≡ Option.map plain (lookup id e.active))
run-resume_all_example =
    run-resume_all whole columns always behind 10 (λ v. refl)
      (creates plan ∷ ticks (r1 ∷ []) ∷ pauses r1 ∷ [])
      (record { tables = empty_tables; rest = empty_memory }) (unfold Distinct in tt)
      (unfold Readable in tt) (plan-ReadsBack, (tt, (tt, tt)))

abbrev held : Rollout ℕ
held = record plan { id = r1 }

abbrev holding : Engine ℕ (World Memory)
holding = record {
  active = (r1, held) ∷ [];
  world = record { tables = record { rollouts = row ∷ []; targets = [] }; rest = empty_memory };
  panicked = false;
}

row-stored : stored columns row ≡ some held
unfolding stored scan_rollout
row-stored = refl

holding-Agrees : Agrees columns holding.active holding.world.tables.rollouts
unfolding Distinct live live_row Readable find_row scan_rollout has_id
holding-Agrees = record {
  held = λ id. elim (Bool-cases (r1 == id)) [
    | inl same ↦ rw same (sym row-stored)
    | inr other ↦ rw other refl
  ];
  distinct = (refl, tt);
  readable = ((held, refl), tt);
}

abbrev resumable : World Memory
resumable = holding.world

held-IsLive : IsLive (plain held)
held-IsLive = record { unfinished = refl; stage_exists = omega arith }

resumable-OpenLive : OpenLive columns resumable.tables.rollouts
resumable-OpenLive id p there =
    let agreed = holding-Agrees.held id ∙ there in
    elim (Bool-cases (r1 == id)) [
      | inl same ↦ let e : plain held ≡ p = cc (rw same at agreed) in subst IsLive e held-IsLive
      | inr other ↦ absurd (cc (rw other at agreed))
    ]

-- The third statement is not answered.
run-resumed-Inv_example :
    let sv = backed columns (but_at 3) behind in
    Inv (
      run whole sv 10
        (creates plan ∷ ticks (r1 ∷ []) ∷ pauses r1 ∷ [])
        (resume_all whole sv 10 (new_engine whole sv 10 resumable)).1)
run-resumed-Inv_example =
    run-resumed-Inv whole columns (but_at 3) behind 10
      (creates plan ∷ ticks (r1 ∷ []) ∷ pauses r1 ∷ []) resumable holding-Agrees.distinct
      holding-Agrees.readable resumable-OpenLive (tt, (tt, (tt, tt)))

run-OpenLive_example :
    let sv = backed columns always behind in
    let e =
      run whole sv 10
        (creates plan ∷ ticks (r1 ∷ []) ∷ pauses r1 ∷ [])
        (resume_all whole sv 10 (new_engine whole sv 10 resumable)).1 in
    Distinct e.world.tables.rollouts
    × Readable columns e.world.tables.rollouts
    × OpenLive columns e.world.tables.rollouts
run-OpenLive_example =
    run-OpenLive whole columns always behind 10 (λ v. refl)
      (creates plan ∷ ticks (r1 ∷ []) ∷ pauses r1 ∷ []) resumable holding-Agrees.distinct
      holding-Agrees.readable resumable-OpenLive (plan-ReadsBack, (tt, (tt, tt)))

-- The first statement after the completion is not answered, and the second is.
complete_locked-revived_example :
    let sv = backed columns (but_at 1) behind in
    let e1 = complete_locked whole sv 10 holding held in
    let (done, e2) = resume_all whole sv 10 (new_engine whole sv 10 e1.world) in
    (lookup r1 e1.active ≡ none)
    × (done ≡ true)
    × (Option.map plain (lookup r1 e2.active) ≡ some (plain held))
unfolding complete_locked announce publish publish_to
complete_locked-revived_example =
    complete_locked-revived whole columns (but_at 1) behind 10 holding held holding-Agrees refl refl
      refl
