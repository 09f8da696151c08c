-- ===== src/Control/RolloutApi.antt =====
-- cmd/control/rollout_handlers.go: the handlers of /v1/rollouts over the engine. A duration is given in
-- seconds by the API, and in nanoseconds by the engine. A percentage is not negative.
use sense_grid.Common.{
  ℤ, quot, of_seconds, ℕ, Option, none, some, List, [], ◌∷◌, Text, codes, Result, ok, err, Float,
}
use sense_grid.Shadow.Types.{Desired}
use sense_grid.Rollout.Types.{Cohort, Stage, HealthCriteria, State, running, Rollout}
use sense_grid.Rollout.Services.{Services}
use sense_grid.Rollout.Engine.{Engine, with_world}
use sense_grid.Rollout.Commands
use sense_grid.Rollout.Commands.{Error}
use sense_grid.Control.Http.{Reply, answered, refused, internal_error, invalid_body}

pub record StageRequest : Type 0 where
  pub percent : ℕ
  pub bake_seconds : ℤ

pub record RolloutRequest (F : Type 0) : Type 0 where
  pub name : Text
  pub cohort : Cohort
  pub desired_config : Desired F
  pub stages : List StageRequest
  pub health_criteria : HealthCriteria F

pub record StageView : Type 0 where
  pub percent : ℕ
  pub bake_seconds : ℤ

-- The time is formatted outside.
pub record RolloutView (F : Type 0) : Type 0 where
  pub id : Text
  pub name : Text
  pub cohort : Cohort
  pub desired_config : Desired F
  pub stages : List StageView
  pub health_criteria : HealthCriteria F
  pub state : State
  pub current_stage_index : ℕ
  pub current_stage_started_at : ℕ

-- An int64 of nanoseconds, which wraps around.
unfoldable pub seconds_to_duration : ℤ → ℤ
seconds_to_duration s = of_seconds s

abbrev pub to_stages : List StageRequest → List Stage
to_stages [] = []
to_stages (s ∷ ss) =
    record { percent = s.percent; bake_duration = seconds_to_duration s.bake_seconds }
    ∷ to_stages ss

abbrev pub to_stage_views : List Stage → List StageView
to_stage_views [] = []
to_stage_views (s ∷ ss) =
    record { percent = s.percent; bake_seconds = quot 1000000000 s.bake_duration }
    ∷ to_stage_views ss

abbrev pub to_rollout_view : {F : Type 0} → Rollout F → RolloutView F
to_rollout_view r = record {
  id = r.id;
  name = r.name;
  cohort = r.cohort;
  desired_config = r.desired_config;
  stages = to_stage_views r.stages;
  health_criteria = r.health_criteria;
  state = r.state;
  current_stage_index = r.current_stage_index;
  current_stage_started_at = r.current_stage_started_at;
}

abbrev pub to_rollout_views : {F : Type 0} → List (Rollout F) → List (RolloutView F)
to_rollout_views [] = []
to_rollout_views (r ∷ rs) = to_rollout_view r ∷ to_rollout_views rs

-- The rollout that is handed to Create, which fills in the id, the state and the stage; here the state
-- is `running` before that, as it has no empty value.
abbrev pub requested : {F : Type 0} → RolloutRequest F → Rollout F
requested req = record {
  id = codes "";
  name = req.name;
  cohort = req.cohort;
  desired_config = req.desired_config;
  stages = to_stages req.stages;
  health_criteria = req.health_criteria;
  state = running;
  current_stage_index = 0;
  current_stage_started_at = 0;
  created_at = 0;
  updated_at = 0;
}

-- The answer to a call of the engine: the message of its error is made outside.
abbrev pub view_of :
    {F : Type 0} → (Error → Text) → Result Error (Rollout F) → Reply (RolloutView F)
view_of message (ok r) = answered (to_rollout_view r)
view_of message (err e) = refused 400 (message e)

module _ {F W : Type 0} (fl : Float F) (sv : Services F W) (stale_after : ℕ)
    (message : Error → Text) where
  -- POST /v1/rollouts; the body is none where it does not decode.
  unfoldable pub post_rollout :
      Option (RolloutRequest F) → Engine F W → Reply (RolloutView F) × Engine F W
  post_rollout none e = (invalid_body, e)
  post_rollout (some req) e =
      let (created, e') = Commands.create fl sv stale_after e (requested req) in
      (view_of message created, e')

  -- GET /v1/rollouts: List passes on what the store answers.
  unfoldable pub get_rollouts : Engine F W → Reply (List (RolloutView F)) × Engine F W
  get_rollouts e =
      let (listed, w) = sv.list e.world in
      (
        elim listed [ none ↦ internal_error | some rs ↦ answered (to_rollout_views rs) ],
        with_world e w,
      )

  -- GET /v1/rollouts/{id}.
  unfoldable pub get_rollout : Text → Engine F W → Reply (RolloutView F) × Engine F W
  get_rollout id e =
      let (found, e') = Commands.get fl sv stale_after e id in
      (
        elim found [
          | none ↦ internal_error
          | some none ↦ refused 404 (codes "rollout not found")
          | some (some r) ↦ answered (to_rollout_view r)
        ],
        e',
      )

  unfoldable pub post_pause : Text → Engine F W → Reply (RolloutView F) × Engine F W
  post_pause id e =
      let (done, e') = Commands.pause fl sv stale_after e id in (view_of message done, e')

  unfoldable pub post_resume : Text → Engine F W → Reply (RolloutView F) × Engine F W
  post_resume id e =
      let (done, e') = Commands.resume fl sv stale_after e id in (view_of message done, e')

  unfoldable pub post_abort : Text → Engine F W → Reply (RolloutView F) × Engine F W
  post_abort id e =
      let (done, e') = Commands.abort fl sv stale_after e id in (view_of message done, e')
