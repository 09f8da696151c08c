-- ===== src/Shadow/Drift.antt =====
-- internal/shadow/drift.go. Times are nanoseconds since the epoch, and durations are not negative.
use sense_grid.Common.{
  ℕ, ◌+◌, ◌*◌, ◌≤◌, ◌≡◌, ◌↔◌, Bool, true, false, not, Option, none, some, arith, ltb, nat_eq,
  if◌then◌else◌,
}
use sense_grid.Shadow.Types.{Reported}

-- time.UnixMilli, in nanoseconds.
abbrev pub unix_milli : ℕ → ℕ
unix_milli ms = ms * 1000000

-- `now.Sub(t) > d`, for a duration d that is not negative.
abbrev pub since_exceeds : ℕ → ℕ → ℕ → Bool
since_exceeds now t d = ltb (t + d) now

unfoldable pub drift : {F : Type 0} → ℕ → Option (Reported F) → ℕ → ℕ → Bool
drift desired_rev none now stale_after = true
drift desired_rev (some r) now stale_after =
    if not (nat_eq r.applied_revision desired_rev)
    then true
    else since_exceeds now (unix_milli r.reported_at_ms) stale_after

-- A device has not drifted exactly when it has reported, the revision that it applied is the
-- desired one, and the report is no older than stale_after.
pub drift-false_iff :
    {F : Type 0} (desired_rev : ℕ) (reported : Option (Reported F)) (now stale_after : ℕ)
    → (drift desired_rev reported now stale_after ≡ false) ↔ (
        (r : Reported F) × (reported ≡ some r)
        × (r.applied_revision ≡ desired_rev)
        × (now ≤ unix_milli r.reported_at_ms + stale_after))
unfolding drift
drift-false_iff desired_rev none now stale_after = (λ h. cc, λ h. cc)
drift-false_iff desired_rev (some r) now stale_after =
    (λ h. (r, ground arith, ground arith, ground arith), λ h. ground arith)
