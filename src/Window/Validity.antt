-- ===== src/Window/Validity.antt =====
-- What every call of Insert keeps: order, the two bounds, and a count that fits the buffer.
use sense_grid.Common.{
  ℕ, zero, suc, ◌+◌, ◌≤◌, ◌<◌, ◌≡◌, refl, true, false, List, [], ◌∷◌, arith, ltb, length,
  length-drop, All, drop, Float, Bool-cases, inl, inr, ◌∙◌,
}
use sense_grid.Window.Stats.{Stats, count-update}
use sense_grid.Window.Buffer.{
  Sample, Window, newest_or, evict_loop, evict, insert_at, position, already_seen, mark_seen,
  fold_in, insert, new,
}
use sense_grid.Window.Search.{IsSorted, insert_sorted, insert_at-position}
use sense_grid.Window.Order.{
  insert_sorted-IsSorted, length-insert_sorted, drop-IsSorted, newest_or-drop,
}
use sense_grid.Window.Eviction.{head_out, AllOut, evict_loop_lem}
use sense_grid.Window.Dedupe.{run}

-- No sample is more than max_age older than `newest`.
abbrev pub AllWithin : {F : Type 0} → ℕ → ℕ → List (Sample F) → Type 0
AllWithin max_age newest buf = All (λ x. newest ≤ x.device_time + max_age) buf

pub record IsValid {F : Type 0} (w : Window F) : Type 0 where
  pub sorted : IsSorted w.buf
  pub counted : w.stats.count ≡ length w.buf
  pub few : 0 < w.max_count → length w.buf ≤ w.max_count
  pub young : 0 < w.max_age → AllWithin w.max_age (newest_or 0 w.buf) w.buf

module _ {F : Type 0} where
  AllOut-lt :
      (max_count max_age n : ℕ) (s : Sample F) (buf : List (Sample F))
      → AllOut max_count max_age (newest_or 0 (s ∷ buf)) n (s ∷ buf)
      → n ≤ length buf
  AllOut-lt max_count max_age zero s buf a = omega arith
  AllOut-lt max_count max_age (suc n) s [] a = ground arith
  AllOut-lt max_count max_age (suc n) s (t ∷ buf) a =
      omega (arith, AllOut-lt max_count max_age n t buf a.1)

  AllWithin-later :
      (max_age newest m : ℕ) (buf : List (Sample F))
      → newest ≤ m + max_age
      → All (λ (x : Sample F). m ≤ x.device_time) buf
      → AllWithin max_age newest buf
  AllWithin-later max_age newest m [] h a = tt
  AllWithin-later max_age newest m (x ∷ buf) h a =
      (omega arith, AllWithin-later max_age newest m buf h a.1)

  -- An ordered buffer whose head is within the bounds is within them as a whole.
  head_in_bounds :
      (max_count max_age newest : ℕ) (buf : List (Sample F))
      → IsSorted buf
      → head_out max_count max_age newest buf ≡ false
      → (0 < max_count → length buf ≤ max_count) × (0 < max_age → AllWithin max_age newest buf)
  head_in_bounds max_count max_age newest [] s h = (λ p. omega arith, λ p. tt)
  head_in_bounds max_count max_age newest (x ∷ buf) s h = (
    λ p. ground arith,
    λ p. (ground arith, AllWithin-later max_age newest x.device_time buf (ground arith) s.0),
  )

-- A buffer within the bounds with the statistics of as many samples.
pub record Bounded {F : Type 0} (max_count max_age : ℕ) (buf : List (Sample F)) (stats : Stats F)
    : Type 0 where
  pub in_order : IsSorted buf
  pub as_many : stats.count ≡ length buf
  pub not_many : 0 < max_count → length buf ≤ max_count
  pub not_old : 0 < max_age → AllWithin max_age (newest_or 0 buf) buf
  pub not_empty : 0 < length buf

module _ {F : Type 0} (fl : Float F) where
  evict_loop-Bounded :
      (max_count max_age : ℕ) (x : Sample F) (buf : List (Sample F)) (stats : Stats F)
      → IsSorted (x ∷ buf)
      → stats.count ≡ length (x ∷ buf)
      → let r = evict_loop fl max_count max_age (newest_or 0 (x ∷ buf)) (x ∷ buf) stats in
        Bounded max_count max_age r.0 r.1
  evict_loop-Bounded max_count max_age x buf stats s c =
      let newest = newest_or 0 (x ∷ buf) in
      let (n, left, counted, l, out, inside) =
        evict_loop_lem fl max_count max_age newest (x ∷ buf) stats in
      let proper : n ≤ length buf = AllOut-lt max_count max_age n x buf out in
      let sorted = drop-IsSorted n (x ∷ buf) s in
      let bounds = head_in_bounds max_count max_age newest (drop n (x ∷ buf)) sorted inside in
      rw left (record {
        in_order = sorted;
        as_many = omega (arith, length-drop n (x ∷ buf));
        not_many = bounds.0;
        not_old = rw (newest_or-drop n 0 0 (x ∷ buf) (omega arith)) bounds.1;
        not_empty = omega (arith, length-drop n (x ∷ buf));
      })

  evict-IsValid :
      (w : Window F) (x : Sample F) (buf : List (Sample F))
      → w.buf ≡ x ∷ buf
      → IsSorted w.buf
      → w.stats.count ≡ length w.buf
      → IsValid (evict fl w) × (0 < length (evict fl w).buf)
  unfolding evict
  evict-IsValid w x buf e s c =
      let b = evict_loop-Bounded w.max_count w.max_age x buf w.stats (rw e at s) (rw e at c) in
      rw (e, evict)
        (
          record { sorted = b.in_order; counted = b.as_many; few = b.not_many; young = b.not_old },
          b.not_empty,
        )

  insert_sorted-cons :
      (s : Sample F) (buf : List (Sample F))
      → (x : Sample F) × (rest : List (Sample F)) × (insert_sorted s buf ≡ x ∷ rest)
  unfolding insert_sorted
  insert_sorted-cons s [] = (s, [], refl)
  insert_sorted-cons s (x ∷ buf) = elim (Bool-cases (ltb s.device_time x.device_time)) [
    | inl e ↦ (s, x ∷ buf, rw e)
    | inr e ↦ (x, insert_sorted s buf, rw e)
  ]

  mark_seen_keeps :
      (w : Window F) (q : ℕ)
      → ((mark_seen w q).buf ≡ w.buf)
        × ((mark_seen w q).stats ≡ w.stats)
        × ((mark_seen w q).max_count ≡ w.max_count)
        × ((mark_seen w q).max_age ≡ w.max_age)
  unfolding mark_seen
  mark_seen_keeps w q = ground arith

  fold_in-IsValid :
      (w : Window F) (t : ℕ) (v : F) (q : ℕ)
      → IsValid w
      → IsValid (fold_in fl w t v q) × (0 < length (fold_in fl w t v q).buf)
  unfolding fold_in
  fold_in-IsValid w t v q h =
      let s : Sample F = record { device_time = t; value = v; seq = q } in
      let (b, st, _, _) = mark_seen_keeps w q in
      let (x, rest, e) = insert_sorted-cons s w.buf in
      let placed : insert_at (position (mark_seen w q).buf t) s (mark_seen w q).buf
          ≡ insert_sorted s w.buf =
        rw b (insert_at-position s w.buf h.sorted) in
      evict-IsValid _ x rest (placed ∙ e) (rw placed (insert_sorted-IsSorted s w.buf h.sorted)) (
        rw (placed, st)
          (omega (arith, count-update fl w.stats v, length-insert_sorted s w.buf, h.counted)))

  -- A call of Insert on a window that is ordered, within its bounds and rightly counted leaves it
  -- so; if the sample is accepted, the buffer then holds a sample.
  pub insert-IsValid :
      (w : Window F) (t : ℕ) (v : F) (q : ℕ)
      → IsValid w
      → IsValid (insert fl w t v q).0
        × ((insert fl w t v q).1 ≡ true → 0 < length (insert fl w t v q).0.buf)
  unfolding insert
  insert-IsValid w t v q h = elim (Bool-cases (already_seen w q)) [
    | inl e ↦ rw (e, insert) (h, λ p. cc)
    | inr e ↦
        let (valid, some_left) = fold_in-IsValid w t v q h in rw (e, insert) (valid, λ p. some_left)
  ]

  insert_keeps_bounds :
      (w : Window F) (t : ℕ) (v : F) (q : ℕ)
      → ((insert fl w t v q).0.max_count ≡ w.max_count)
        × ((insert fl w t v q).0.max_age ≡ w.max_age)
  unfolding insert fold_in
  insert_keeps_bounds w t v q = ground (arith, mark_seen_keeps w q)

  run-IsValid : (w : Window F) (cs : List (ℕ × F × ℕ)) → IsValid w → IsValid (run fl w cs)
  unfolding run
  run-IsValid w [] h = h
  run-IsValid w ((t, v, q) ∷ cs) h =
      run-IsValid (insert fl w t v q).0 cs (insert-IsValid w t v q h).0

  new-IsValid : (max_count max_age : ℕ) (alpha : F) → IsValid (new fl max_count max_age alpha)
  unfolding new
  new-IsValid max_count max_age alpha = ground arith

  run_keeps_bounds :
      (w : Window F) (cs : List (ℕ × F × ℕ))
      → ((run fl w cs).max_count ≡ w.max_count) × ((run fl w cs).max_age ≡ w.max_age)
  unfolding run
  run_keeps_bounds w [] = (refl, refl)
  run_keeps_bounds w ((t, v, q) ∷ cs) =
      let (c, a) = run_keeps_bounds (insert fl w t v q).0 cs in
      let (c', a') = insert_keeps_bounds w t v q in (c ∙ c', a ∙ a')

  -- After any calls of Insert on a new window its samples are ordered by device time, at most
  -- maxCount where that is positive, none more than maxAge older than the newest where that is
  -- positive, and Count is their number.
  pub run-new-IsValid :
      (max_count max_age : ℕ) (alpha : F) (cs : List (ℕ × F × ℕ))
      → let w = run fl (new fl max_count max_age alpha) cs in
        IsValid w × (w.max_count ≡ max_count) × (w.max_age ≡ max_age)
  unfolding new
  run-new-IsValid max_count max_age alpha cs =
      let w = new fl max_count max_age alpha in
      let (c, a) = run_keeps_bounds w cs in
      (run-IsValid w cs (new-IsValid max_count max_age alpha), c, a)
