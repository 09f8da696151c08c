-- ===== src/Window/Stats.antt =====
-- internal/window/stats.go, over any floats.
use sense_grid.Common.{
  ℕ, ◌+◌, ◌-◌, ◌≡◌, Bool, true, false, arith, leb, nat_eq, if◌then◌else◌, Float,
}

pub record Stats (F : Type 0) : Type 0 where
  pub count : ℕ
  pub mean : F
  pub m2 : F

pub record Ewma (F : Type 0) : Type 0 where
  pub alpha : F
  pub value : F
  pub primed : Bool

module _ {F : Type 0} (fl : Float F) where
  open fl use {nil, one, add, sub, mul, div, of_int, lt, sqrt}

  abbrev pub no_stats : Stats F
  no_stats = record { count = 0; mean = nil; m2 = nil }

  unfoldable pub update : Stats F → F → Stats F
  update s x =
      let count = s.count + 1 in
      let delta = sub x s.mean in
      let mean = add s.mean (div delta (of_int count)) in
      let delta2 = sub x mean in
      record { count = count; mean = mean; m2 = add s.m2 (mul delta delta2) }

  unfoldable pub remove : Stats F → F → Stats F
  remove s x =
      let count = s.count - 1 in
      let mean = div (sub (mul s.mean (of_int s.count)) x) (of_int count) in
      let m2 = sub s.m2 (mul (sub x mean) (sub x s.mean)) in
      if leb s.count 1
      then no_stats
      else record { count = count; mean = mean; m2 = if lt m2 nil then nil else m2 }

  unfoldable pub mean_of : Stats F → F
  mean_of s = if nat_eq s.count 0 then nil else s.mean

  unfoldable pub variance : Stats F → F
  variance s = if nat_eq s.count 0 then nil else div s.m2 (of_int s.count)

  unfoldable pub std_dev : Stats F → F
  unfolding variance
  std_dev s = sqrt (variance s)

  unfoldable pub new_ewma : F → Ewma F
  new_ewma alpha = record { alpha = alpha; value = nil; primed = false }

  unfoldable pub update_ewma : Ewma F → F → Ewma F
  update_ewma e x =
      if e.primed
      then record e { value = add (mul e.alpha x) (mul (sub one e.alpha) e.value) }
      else record e { value = x; primed = true }

  pub count-update : (s : Stats F) (x : F) → (update s x).count ≡ s.count + 1
  unfolding update
  count-update s x = ground arith

  pub count-remove : (s : Stats F) (x : F) → (remove s x).count ≡ s.count - 1
  unfolding remove
  count-remove s x = ground arith
