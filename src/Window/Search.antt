-- ===== src/Window/Search.antt =====
-- The binary search of `Insert` finds the place of a sorted insertion.
use sense_grid.Common.{
  ℕ, zero, suc, ◌+◌, ◌-◌, ◌/◌, ◌≤◌, ◌<◌, ◌≡◌, refl, Bool, true, List, [], ◌∷◌, arith, ltb, leb,
  if◌then◌else◌, length, All,
}
use sense_grid.Window.Buffer.{Sample, search_from, search, after_at, insert_at, position}

-- On a test that is false below r and true from r on, the search ends at r.
search_from-threshold :
    (fuel i j r : ℕ) (f : ℕ → Bool)
    → ((k : ℕ) → k < j → f k ≡ leb r k)
    → i ≤ r
    → r ≤ j
    → j - i ≤ fuel
    → search_from fuel i j f ≡ r
unfolding search_from
search_from-threshold zero i j r f t l u m = omega arith
search_from-threshold (suc fuel) i j r f t l u m = ground (
  arith,
  t ((i + j) / 2),
  search_from-threshold fuel i ((i + j) / 2) r f (λ k p. t k (omega arith)),
  search_from-threshold fuel ((i + j) / 2 + 1) j r f t,
)

module _ {F : Type 0} where
  -- Ordered by device time.
  abbrev pub IsSorted : List (Sample F) → Type 0
  IsSorted [] = Unit {0}
  IsSorted (s ∷ buf) = All (λ x. s.device_time ≤ x.device_time) buf × IsSorted buf

  -- How many samples lead that are not after t.
  rank : ℕ → List (Sample F) → ℕ
  rank t [] = 0
  rank t (s ∷ buf) = if ltb t s.device_time then 0 else suc (rank t buf)

  -- The insertion by a linear scan: behind every sample that is not later.
  unfoldable pub insert_sorted : Sample F → List (Sample F) → List (Sample F)
  insert_sorted s [] = s ∷ []
  insert_sorted s (x ∷ buf) =
      if ltb s.device_time x.device_time then s ∷ x ∷ buf else x ∷ insert_sorted s buf

  rank-le : (t : ℕ) (buf : List (Sample F)) → rank t buf ≤ length buf
  unfolding rank
  rank-le t [] = omega arith
  rank-le t (s ∷ buf) = ground (arith, rank-le t buf)

  after-All :
      (t : ℕ) (buf : List (Sample F)) (k : ℕ)
      → All (λ (x : Sample F). t < x.device_time) buf
      → k < length buf
      → after_at buf t k ≡ true
  after-All t [] k a l = elim l [ ]
  after-All t (s ∷ buf) zero a l = ground arith
  after-All t (s ∷ buf) (suc k) a l = after-All t buf k a.1 (omega arith)

  All-mono :
      (m n : ℕ) (buf : List (Sample F))
      → m < n
      → All (λ (x : Sample F). n ≤ x.device_time) buf
      → All (λ (x : Sample F). m < x.device_time) buf
  All-mono m n [] l a = tt
  All-mono m n (s ∷ buf) l a = (omega arith, All-mono m n buf l a.1)

  after_at-rank :
      (t : ℕ) (buf : List (Sample F)) (k : ℕ)
      → IsSorted buf
      → k < length buf
      → after_at buf t k ≡ leb (rank t buf) k
  unfolding rank
  after_at-rank t [] k s l = elim l [ ]
  after_at-rank t (x ∷ buf) zero s l = ground arith
  after_at-rank t (x ∷ buf) (suc k) s l = ground (
    arith,
    after_at-rank t buf k s.1,
    after-All t buf k,
    λ (p : t < x.device_time). All-mono t x.device_time buf p s.0,
  )

  position-rank : (t : ℕ) (buf : List (Sample F)) → IsSorted buf → position buf t ≡ rank t buf
  unfolding search
  position-rank t buf s =
      search_from-threshold (length buf) 0 (length buf) (rank t buf) (after_at buf t)
        (λ k. after_at-rank t buf k s) (omega arith) (rank-le t buf) (omega arith)

  insert_at-rank :
      (s : Sample F) (buf : List (Sample F))
      → insert_at (rank s.device_time buf) s buf ≡ insert_sorted s buf
  unfolding rank insert_at insert_sorted
  insert_at-rank s [] = refl
  insert_at-rank s (x ∷ buf) = ground (arith, insert_at-rank s buf)

  -- In a buffer ordered by device time, the position that Insert's binary search finds is that of
  -- the linear insertion, behind every sample that is not later.
  pub insert_at-position :
      (s : Sample F) (buf : List (Sample F))
      → IsSorted buf
      → insert_at (position buf s.device_time) s buf ≡ insert_sorted s buf
  insert_at-position s buf h = rw (position-rank s.device_time buf h) (insert_at-rank s buf)
