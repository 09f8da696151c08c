-- ===== src/Ingest/Limiter.antt =====
-- cmd/ingest/ratelimit.go. The token bucket of golang.org/x/time/rate is a parameter: a new one,
-- and its Allow at a time.
use sense_grid.Common.{
  ℕ, ◌≡◌, refl, Bool, false, none, some, List, ◌==◌, text_Eq, ==_refl, Text, lookup, insert,
  lookup-insert,
}

pub record Buckets (L : Type 0) : Type 0 where
  pub new_limiter : L
  pub allow : ℕ → L → Bool × L

module _ {L : Type 0} (b : Buckets L) where
  abbrev pub limiter_of : List (Text × L) → Text → L
  limiter_of m id = elim (lookup id m) [ none ↦ b.new_limiter | some l ↦ l ]

  unfoldable pub allow_device : ℕ → Text → List (Text × L) → Bool × List (Text × L)
  allow_device now id m = let (ok, l) = b.allow now (limiter_of m id) in (ok, insert id l m)

  -- Allow answers what the device's own bucket answers, a new one for a new device, stores what is
  -- left of it, and leaves the bucket of every other device as it was.
  pub allow_device-isolated :
      (now : ℕ) (id other : Text) (m : List (Text × L))
      → (id == other) ≡ false
      → ((allow_device now id m).0 ≡ (b.allow now (limiter_of m id)).0)
        × (lookup id (allow_device now id m).1 ≡ some (b.allow now (limiter_of m id)).1)
        × (lookup other (allow_device now id m).1 ≡ lookup other m)
  unfolding allow_device
  allow_device-isolated now id other m d =
      let l = (b.allow now (limiter_of m id)).1 in
      (
        refl,
        rw (lookup-insert id id l m) (rw (==_refl id) refl),
        rw (lookup-insert id other l m) (rw d refl),
      )
