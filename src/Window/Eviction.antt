-- ===== src/Window/Eviction.antt =====
-- What `evict` drops: a shortest front that brings the rest within both bounds.
use sense_grid.Common.{
  ℕ, zero, suc, ◌-◌, ◌≤◌, ◌≡◌, refl, ◌||◌, Bool, true, false, List, [], ◌∷◌, arith, if◌then◌else◌,
  length, drop, Float,
}
use sense_grid.Window.Stats.{Stats, remove, count-remove}
use sense_grid.Window.Buffer.{Sample, evict_loop, too_old, too_many}

-- Whether the sample at the head of `buf` is outside the bounds.
abbrev pub head_out : {F : Type 0} → ℕ → ℕ → ℕ → List (Sample F) → Bool
head_out max_count max_age newest [] = false
head_out max_count max_age newest (s ∷ buf) =
    too_old max_age newest s.device_time || too_many max_count (length (s ∷ buf))

-- The first `n` samples of `buf` are each outside the bounds, as they stood at their turn.
abbrev pub AllOut : {F : Type 0} → ℕ → ℕ → ℕ → ℕ → List (Sample F) → Type 0
AllOut max_count max_age newest zero buf = Unit {0}
AllOut max_count max_age newest (suc n) [] = ⊥
AllOut max_count max_age newest (suc n) (s ∷ buf) =
    (head_out max_count max_age newest (s ∷ buf) ≡ true) × AllOut max_count max_age newest n buf

abbrev pub EvictsFront : {F : Type 0} → Float F → ℕ → ℕ → ℕ → List (Sample F) → Stats F → Type 0
EvictsFront fl max_count max_age newest buf stats =
    (n : ℕ) × ((evict_loop fl max_count max_age newest buf stats).0 ≡ drop n buf)
    × ((evict_loop fl max_count max_age newest buf stats).1.count ≡ stats.count - n)
    × (n ≤ length buf)
    × AllOut max_count max_age newest n buf
    × (head_out max_count max_age newest (drop n buf) ≡ false)

module _ {F : Type 0} (fl : Float F) (max_count max_age newest : ℕ) where
  evicted : List (Sample F) → ℕ
  evicted [] = 0
  evicted (s ∷ buf) =
      let rest = evicted buf in if head_out max_count max_age newest (s ∷ buf) then suc rest else 0

  remaining :
      (buf : List (Sample F)) (stats : Stats F)
      → (evict_loop fl max_count max_age newest buf stats).0 ≡ drop (evicted buf) buf
  unfolding evict_loop evicted
  remaining [] stats = refl
  remaining (s ∷ buf) stats = ground (arith, remaining buf (remove fl stats s.value))

  count_left :
      (buf : List (Sample F)) (stats : Stats F)
      → (evict_loop fl max_count max_age newest buf stats).1.count ≡ stats.count - evicted buf
  unfolding evict_loop evicted
  count_left [] stats = ground arith
  count_left (s ∷ buf) stats =
      ground (arith, count-remove fl stats s.value, count_left buf (remove fl stats s.value))

  evicted-AllOut : (buf : List (Sample F)) → AllOut max_count max_age newest (evicted buf) buf
  unfolding evicted
  evicted-AllOut [] = tt
  evicted-AllOut (s ∷ buf) = ground (arith, evicted-AllOut buf)

  evicted-head_out :
      (buf : List (Sample F)) → head_out max_count max_age newest (drop (evicted buf) buf) ≡ false
  unfolding evicted
  evicted-head_out [] = refl
  evicted-head_out (s ∷ buf) = ground (arith, evicted-head_out buf)

  evicted-le : (buf : List (Sample F)) → evicted buf ≤ length buf
  unfolding evicted
  evicted-le [] = omega arith
  evicted-le (s ∷ buf) = ground (arith, evicted-le buf)

  -- The loop drops the first n samples for some n: each of them was outside the bounds at its
  -- turn, the sample then at the head is not, and n is taken off the count of the statistics.
  pub evict_loop_lem :
      (buf : List (Sample F)) (stats : Stats F) → EvictsFront fl max_count max_age newest buf stats
  evict_loop_lem buf stats = (
    evicted buf,
    remaining buf stats,
    count_left buf stats,
    evicted-le buf,
    evicted-AllOut buf,
    evicted-head_out buf,
  )
