-- ===== src/Rollout/Validate.antt =====
-- The function `validate` of internal/rollout/engine.go.
use sense_grid.Common.{
  ℕ, ◌+◌, ◌≤◌, ◌<◌, ◌≡◌, ◌≢◌, ◌↔◌, ◌||◌, Option, none, some, List, [], ◌∷◌, arith, ltb, leb,
  if◌then◌else◌, Text,
}
use sense_grid.Rollout.Types.{Rollout, Stage}

pub data Invalid : Type 0 where
  name_required : Invalid
  stage_required : Invalid
  bad_percent : ℕ → ℕ → ℕ → Invalid

-- The loop over the stages from the i-th, behind one of percentage `prev`.
unfoldable pub check_stages : ℕ → ℕ → List Stage → Option Invalid
check_stages i prev [] = none
check_stages i prev (s ∷ ss) =
    let rest = check_stages (i + 1) s.percent ss in
    if leb s.percent prev || ltb 100 s.percent then some (bad_percent i s.percent prev) else rest

check_name : Text → List Stage → Option Invalid
unfolding check_stages
check_name [] stages = some name_required
check_name (b ∷ bs) [] = some stage_required
check_name (b ∷ bs) (s ∷ ss) = check_stages 0 0 (s ∷ ss)

unfoldable pub validate : {F : Type 0} → Rollout F → Option Invalid
unfolding check_name
validate r = check_name r.name r.stages

-- The percentages grow strictly from above `prev` up to at most 100.
abbrev pub Grows : ℕ → List Stage → Type 0
Grows prev [] = Unit {0}
Grows prev (s ∷ ss) = (prev < s.percent) × (s.percent ≤ 100) × Grows s.percent ss

check_stages_iff : (i prev : ℕ) (ss : List Stage) → (check_stages i prev ss ≡ none) ↔ Grows prev ss
unfolding check_stages
check_stages_iff i prev [] = ground arith
check_stages_iff i prev (s ∷ ss) = ground (arith, check_stages_iff (i + 1) s.percent ss)

check_name_iff :
    (name : Text) (stages : List Stage)
    → (check_name name stages ≡ none) ↔ ((name ≢ []) × (stages ≢ []) × Grows 0 stages)
unfolding check_name
check_name_iff [] stages = ground arith
check_name_iff (b ∷ bs) [] = ground arith
check_name_iff (b ∷ bs) (s ∷ ss) = ground (arith, check_stages_iff 0 0 (s ∷ ss))

-- A rollout is valid exactly when it has a name and a stage, and the percentages of its stages grow
-- strictly from above 0 to at most 100.
pub validate_iff :
    {F : Type 0} (r : Rollout F)
    → (validate r ≡ none) ↔ ((r.name ≢ []) × (r.stages ≢ []) × Grows 0 r.stages)
unfolding validate
validate_iff r = check_name_iff r.name r.stages
