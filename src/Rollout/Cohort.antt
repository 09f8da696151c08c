-- ===== src/Rollout/Cohort.antt =====
-- internal/rollout/cohort.go, with hash/fnv's New32a written out over the bytes of the id.
use Prim.Native.Nat.{bit_xor}
use sense_grid.Common.{
  ℕ, ◌*◌, ◌%◌, ◌^◌, ◌≤◌, ◌<◌, ◌≡◌, refl, ◌↔◌, Bool, true, List, [], ◌∷◌, arith, ltb, leb,
  if◌then◌else◌, ◌==◌, text_Eq, Text, keep, In, In-keep_iff,
}
use sense_grid.Rollout.Types.{Cohort, Device}

abbrev ids_of : List Device → List Text
ids_of [] = []
ids_of (d ∷ ds) = d.id ∷ ids_of ds

-- `c.DeviceType == "" || d.Type == c.DeviceType`.
abbrev pub of_type : Text → Device → Bool
of_type [] d = true
of_type (b ∷ bs) d = d.device_type == b ∷ bs

select : List Text → Text → List Device → List Text
select [] device_type all = ids_of (keep (of_type device_type) all)
select (i ∷ ids) device_type all = i ∷ ids

unfoldable pub select_cohort : List Device → Cohort → List Text
unfolding select
select_cohort all c = select c.device_ids c.device_type all

-- FNV-1a on 32 bits.
unfoldable pub fnv32a_from : ℕ → Text → ℕ
fnv32a_from h [] = h
fnv32a_from h (b ∷ bs) = fnv32a_from (bit_xor h b * 16777619 % 2 ^ 32) bs

unfoldable pub fnv32a : Text → ℕ
unfolding fnv32a_from
fnv32a bs = fnv32a_from 2166136261 bs

unfoldable pub bucket : Text → ℕ
unfolding fnv32a
bucket device_id = fnv32a device_id % 100

-- `if percent > 100 { percent = 100 }`.
abbrev capped : ℕ → ℕ
capped percent = if ltb 100 percent then 100 else percent

-- `bucket(id) < percent`.
abbrev below : ℕ → Text → Bool
below percent id = ltb (bucket id) percent

unfoldable pub stage_targets : List Text → ℕ → List Text
stage_targets cohort percent = if leb percent 0 then [] else keep (below (capped percent)) cohort

bucket-lt : (id : Text) → bucket id < 100
unfolding bucket
bucket-lt id = omega arith

-- A device is among a stage's targets exactly when it is in the cohort and its bucket, a number
-- below 100, is below the percentage.
pub In-stage_targets_iff :
    (ids : List Text) (percent : ℕ) (id : Text)
    → In id (stage_targets ids percent) ↔ (In id ids × (bucket id < percent))
unfolding stage_targets
In-stage_targets_iff ids percent id =
    ground (arith, In-keep_iff (below (capped percent)) id ids, bucket-lt id)

-- A larger percentage targets every device that a smaller one targets, and 100 targets the cohort.
pub stage_targets_grow :
    (ids : List Text) (p q : ℕ) (id : Text)
    → (p ≤ q → In id (stage_targets ids p) → In id (stage_targets ids q))
      × (In id ids → In id (stage_targets ids 100))
stage_targets_grow ids p q id = (
  λ l i.
      let (member, small) = (In-stage_targets_iff ids p id).0 i in
      (In-stage_targets_iff ids q id).1 (member, omega arith),
  λ i. (In-stage_targets_iff ids 100 id).1 (i, bucket-lt id),
)

-- fnv-32a of "a", as the reference implementation has it.
fnv32a_of_a : fnv32a (b'a' ∷ []) ≡ 0xe40c292c
unfolding fnv32a
fnv32a_of_a = refl
