-- ===== src/Control/Planned.antt =====
-- What POST /v1/rollouts answers of a rollout that it created.
use mathlib.Core.Option
use sense_grid.Common.{
  ℤ, pos, negsuc, All, leb, ltb, quot, Bool, true, false, ◌%◌, ◌^◌, ◌-◌, ◌+◌, ℕ, ◌*◌, ◌/◌, ◌≡◌,
  refl, sym, ap, ◌∙◌, inl, inr, none, some, List, [], ◌∷◌, arith, Text, text_Eq, lookup,
  lookup-insert, ==_refl, ok, Float, Bool-cases, Option-cases, Result-cases,
}
use sense_grid.Rollout.Types.{Rollout, running, stage_started, stage_index}
use sense_grid.Rollout.Services.{Services}
use sense_grid.Rollout.Validate.{validate}
use sense_grid.Rollout.Engine.{Engine, put, announce, with_world, apply_stage}
use sense_grid.Rollout.Commands.{create, started, Error}
use sense_grid.Control.Http.{answered}
use sense_grid.Control.RolloutApi.{
  StageRequest, StageView, RolloutRequest, RolloutView, seconds_to_duration, to_stages,
  to_stage_views, to_rollout_view, requested, post_rollout,
}

-- The stages of a request, as the API shows them.
abbrev pub shown : List StageRequest → List StageView
shown [] = []
shown (s ∷ ss) = record { percent = s.percent; bake_seconds = s.bake_seconds } ∷ shown ss

-- The seconds of a request that an int64 of nanoseconds can hold.
unfoldable pub fits : ℤ → Bool
fits (pos n) = leb n 9223372036
fits (negsuc n) = ltb n 9223372036

abbrev pub Fits : StageRequest → Type 0
Fits s = fits s.bake_seconds ≡ true

seconds-back : (n : ℤ) → fits n ≡ true → quot 1000000000 (seconds_to_duration n) ≡ n
unfolding fits seconds_to_duration
seconds-back (pos n) h =
    let small : ltb ((n * 1000000000) % 2 ^ 64) (2 ^ 63) ≡ true = ground arith in
    let back : ((n * 1000000000) % 2 ^ 64) / 1000000000 ≡ n = ground arith in rw small (ap pos back)
seconds-back (negsuc n) h =
    let small : ltb (((n + 1) * 1000000000 - 1) % 2 ^ 64) (2 ^ 63) ≡ true = ground arith in
    let large : ltb (((n + 1) * 1000000000 - 1) % 2 ^ 64 + 1) 1000000000 ≡ false = ground arith in
    let back : (((n + 1) * 1000000000 - 1) % 2 ^ 64 + 1) / 1000000000 - 1 ≡ n = ground arith in
    rw small (rw large (ap negsuc back))

stages-shown : (ss : List StageRequest) → All Fits ss → to_stage_views (to_stages ss) ≡ shown ss
stages-shown [] a = refl
stages-shown (s ∷ ss) (h, a) =
    let same : quot 1000000000 (seconds_to_duration s.bake_seconds) ≡ s.bake_seconds =
      seconds-back s.bake_seconds h in
    ap
      (λ (n : ℤ).
        (let v : StageView = record { percent = s.percent; bake_seconds = n } in v)
        ∷ to_stage_views (to_stages ss))
      same
    ∙ ap
        (λ (vs : List StageView).
          (let v : StageView = record { percent = s.percent; bake_seconds = s.bake_seconds } in v)
          ∷ vs)
        (stages-shown ss a)

-- The view that the request asks for, under an id and a time of the start.
abbrev pub asked : {F : Type 0} → RolloutRequest F → Text → ℕ → RolloutView F
asked req id t = record {
  id = id;
  name = req.name;
  cohort = req.cohort;
  desired_config = req.desired_config;
  stages = shown req.stages;
  health_criteria = req.health_criteria;
  state = running;
  current_stage_index = 0;
  current_stage_started_at = t;
}

module _ {F W : Type 0} (fl : Float F) (sv : Services F W) (stale_after : ℕ)
    (message : Error → Text) where
  announce-held :
      (e : Engine F W) (r : Rollout F)
      → lookup r.id (announce fl sv stale_after (put e r) r stage_started (stage_index 0)).active
        ≡ some r
  unfolding announce
  announce-held e r = lookup-insert r.id r.id r e.active ∙ rw (==_refl r.id) refl

  create-made :
      (e : Engine F W) (r made : Rollout F)
      → (create fl sv stale_after e r).0 ≡ ok made
      → (id : Text) × (t : ℕ) × (validate r ≡ none)
        × (made ≡ started r id t)
        × (lookup id (create fl sv stale_after e r).1.active ≡ some made)
  unfolding create
  create-made e r made h =
      let (id, w1) = sv.new_id e.world in
      let (t, w2) = sv.now w1 in
      let r' = started r id t in
      let (created, w3) = sv.create r' w2 in
      let e' = apply_stage fl sv stale_after (with_world e w3) r' in
      elim (Option-cases (validate r)) [
        | inr (why, bad) ↦ absurd (cc (rw (bad, create) at h))
        | inl good ↦ elim (Bool-cases created) [
          | inr lost ↦ absurd (cc (rw lost at (rw (good, create) at h)))
          | inl saved ↦
              let same : r' ≡ made = cc (rw saved at (rw (good, create) at h)) in
              (
                id,
                t,
                good,
                sym same,
                rw (good, create) (rw saved (announce-held e' r' ∙ ap some same)),
              )
        ]
      ]

  -- Where POST /v1/rollouts answers a rollout, and each bake time is at most 9223372036 seconds, which
  -- is what an int64 of nanoseconds holds: the request is valid, the answer shows it as it was
  -- asked for, its bake times in seconds included, as running and at its first stage, and the engine
  -- holds under the answered id the rollout that the answer shows.
  pub post_rollout-answered :
      (req : RolloutRequest F) (e : Engine F W) (view : RolloutView F)
      → All Fits req.stages
      → (post_rollout fl sv stale_after message (some req) e).0 ≡ answered view
      → let e' = (post_rollout fl sv stale_after message (some req) e).1 in
        (validate (requested req) ≡ none)
        × (view ≡ asked req view.id view.current_stage_started_at)
        × (Option.map to_rollout_view (lookup view.id e'.active) ≡ some view)
  unfolding post_rollout
  post_rollout-answered req e view short h =
      elim (Result-cases (create fl sv stale_after e (requested req)).0) [
        | inl (why, failed) ↦ absurd (cc (rw failed at h))
        | inr (made, fine) ↦
            let (id, t, good, same, held) = create-made e (requested req) made fine in
            let shows : to_rollout_view made ≡ view = cc (rw fine at h) in
            let as_asked : view ≡ asked req id t =
              sym shows
              ∙ ap to_rollout_view same
              ∙ ap
                  (λ (vs : List StageView).
                    (let v : RolloutView F = record (asked req id t) { stages = vs } in v))
                  (stages-shown req.stages short) in
            let view_id : view.id ≡ id = ap (λ (v : RolloutView F). v.id) as_asked in
            let view_t : view.current_stage_started_at ≡ t =
              ap (λ (v : RolloutView F). v.current_stage_started_at) as_asked in
            (
              good,
              as_asked
                  ∙ ap (λ (k : Text). asked req k t) (sym view_id)
                  ∙ ap (λ (n : ℕ). asked req view.id n) (sym view_t),
              ap
                    (λ (k : Text).
                      Option.map to_rollout_view
                        (lookup k (create fl sv stale_after e (requested req)).1.active))
                    view_id
                  ∙ ap (Option.map to_rollout_view) held
                  ∙ ap some shows,
            )
      ]
