-- ===== src/Rollout/Signals.antt =====
-- evaluateStageHealth of internal/rollout/engine.go, and the calls of the two publishers that may be nil.
use sense_grid.Common.{
  ℕ, ◌+◌, Bool, true, false, ◌&&◌, Option, none, some, List, [], ◌∷◌, nat_eq, if◌then◌else◌,
  text_Eq, Text, lookup, insert,
}
use sense_grid.Shadow.Types.{Desired, Reported}
use sense_grid.Shadow.Drift.{since_exceeds}
use sense_grid.Rollout.Types.{Rollout, Target, Device, EventType, Detail, RolloutEvent}
use sense_grid.Rollout.Services.{Services}

-- The counts of a stage's health.
pub record Counts : Type 0 where
  pub rejected : ℕ
  pub disconnected : ℕ
  pub errored : ℕ

abbrev pub device_ids : {F : Type 0} → List (Target F) → List Text
device_ids [] = []
device_ids (t ∷ ts) = t.device_id ∷ device_ids ts

-- `lastSeen`: a later device of the same id overwrites an earlier one.
abbrev pub last_seen_map : List Device → List (Text × Option ℕ) → List (Text × Option ℕ)
last_seen_map [] m = m
last_seen_map (d ∷ ds) m = last_seen_map ds (insert d.id d.last_seen m)

-- `byID`, of which only the pushed revision is read; 0 for a missing key.
abbrev pub pushed_map : {F : Type 0} → List (Target F) → List (Text × ℕ) → List (Text × ℕ)
pushed_map [] m = m
pushed_map (t ∷ ts) m = pushed_map ts (insert t.device_id t.pushed_revision m)

abbrev pub pushed_of : List (Text × ℕ) → Text → ℕ
pushed_of m id = elim (lookup id m) [ none ↦ 0 | some r ↦ r ]

-- `ls == nil || now.Sub(*ls) > e.disconnectStaleAfter`.
abbrev pub is_disconnected : ℕ → ℕ → Option (Option ℕ) → Bool
is_disconnected now stale_after (some (some t)) = since_exceeds now t stale_after
is_disconnected now stale_after _ = true

-- `err == nil && rep != nil && rep.Rejected && rep.RejectedRevision == byID[id].PushedRevision`.
abbrev pub is_rejection : {F : Type 0} → ℕ → Option (Option (Reported F)) → Bool
is_rejection pushed (some (some r)) = r.rejected && nat_eq r.rejected_revision pushed
is_rejection pushed _ = false

module _ {F W : Type 0} (sv : Services F W) where
  open sv use {now as clock}

  unfoldable pub publish_to :
      Option (RolloutEvent F → W → Bool × W) → W → Rollout F → EventType → Detail F → W
  publish_to none w r event what = w
  publish_to (some send) w r event what =
      let (t, w1) = clock w in
      let (sent, w2) =
        send
          (record {
            rollout_id = r.id;
            event_type = event;
            at_stage = r.current_stage_index;
            detail = what;
            timestamp = t;
          })
          w1 in
      w2

  unfoldable pub publish : W → Rollout F → EventType → Detail F → W
  unfolding publish_to
  publish w r event what = publish_to sv.publish_event w r event what

  unfoldable pub push_to : Option (Text → Desired F → W → Bool × W) → Text → Desired F → W → W
  push_to none id d w = w
  push_to (some send) id d w = (send id d w).1

  unfoldable pub publish_desired : Text → Desired F → W → W
  unfolding push_to
  publish_desired id d w = push_to sv.publish_desired id d w

  -- The loop over the targets in evaluateStageHealth.
  unfoldable pub count_unhealthy :
      ℕ → ℕ → List (Text × Option ℕ) → List (Text × ℕ) → List Text → Counts → W → Counts × W
  count_unhealthy stale_after t seen pushed [] c w = (c, w)
  count_unhealthy stale_after t seen pushed (id ∷ ids) c w =
      let (rep, w') = sv.get_reported id w in
      let c' : Counts = record c {
        disconnected =
            if is_disconnected t stale_after (lookup id seen)
            then c.disconnected + 1
            else c.disconnected;
        rejected = if is_rejection (pushed_of pushed id) rep then c.rejected + 1 else c.rejected;
      } in
      count_unhealthy stale_after t seen pushed ids c' w'

  unfoldable pub count_errored :
      Option (List Text → ℕ → W → Option ℕ × W) → List Text → ℕ → Counts → W → Counts × W
  count_errored none ids since c w = (c, w)
  count_errored (some signal) ids since c w =
      let (n, w') = signal ids since w in
      (record c { errored = elim n [ none ↦ 0 | some k ↦ k ] }, w')

  unfoldable pub evaluate_stage_health : ℕ → Rollout F → List (Target F) → W → Counts × W
  unfolding count_unhealthy count_errored
  evaluate_stage_health stale_after r targets w =
      let (all, w1) = sv.list_devices w in
      let devices : List Device = elim all [ none ↦ [] | some ds ↦ ds ] in
      let (t, w2) = clock w1 in
      let start : Counts = record { rejected = 0; disconnected = 0; errored = 0 } in
      let (c, w3) =
        count_unhealthy stale_after t (last_seen_map devices []) (pushed_map targets [])
          (device_ids targets) start w2 in
      count_errored sv.firing_count (device_ids targets) r.current_stage_started_at c w3
