-- ===== src/Window/Order.antt =====
-- The buffer stays ordered by device time.
use sense_grid.Common.{
  ℕ, zero, suc, ◌+◌, ◌≤◌, ◌<◌, ◌≡◌, refl, List, [], ◌∷◌, arith, length, All, drop,
}
use sense_grid.Window.Buffer.{Sample, newest_or}
use sense_grid.Window.Search.{IsSorted, insert_sorted}

module _ {F : Type 0} where
  All-insert_sorted :
      (m : ℕ) (s : Sample F) (buf : List (Sample F))
      → m ≤ s.device_time
      → All (λ (x : Sample F). m ≤ x.device_time) buf
      → All (λ (x : Sample F). m ≤ x.device_time) (insert_sorted s buf)
  unfolding insert_sorted
  All-insert_sorted m s [] h a = (h, tt)
  All-insert_sorted m s (x ∷ buf) h a = ground (arith, All-insert_sorted m s buf)

  All-below :
      (m n : ℕ) (buf : List (Sample F))
      → m ≤ n
      → All (λ (x : Sample F). n ≤ x.device_time) buf
      → All (λ (x : Sample F). m ≤ x.device_time) buf
  All-below m n [] h a = tt
  All-below m n (x ∷ buf) h a = (omega arith, All-below m n buf h a.1)

  pub insert_sorted-IsSorted :
      (s : Sample F) (buf : List (Sample F)) → IsSorted buf → IsSorted (insert_sorted s buf)
  unfolding insert_sorted
  insert_sorted-IsSorted s [] h = (tt, tt)
  insert_sorted-IsSorted s (x ∷ buf) h = ground (
    arith,
    λ (p : s.device_time ≤ x.device_time). All-below s.device_time x.device_time buf p h.0,
    λ (p : x.device_time ≤ s.device_time). All-insert_sorted x.device_time s buf p h.0,
    insert_sorted-IsSorted s buf,
  )

  pub length-insert_sorted :
      (s : Sample F) (buf : List (Sample F)) → length (insert_sorted s buf) ≡ length buf + 1
  unfolding insert_sorted
  length-insert_sorted s [] = omega arith
  length-insert_sorted s (x ∷ buf) = ground (arith, length-insert_sorted s buf)

  pub drop-IsSorted : (n : ℕ) (buf : List (Sample F)) → IsSorted buf → IsSorted (drop n buf)
  drop-IsSorted zero buf h = h
  drop-IsSorted (suc n) [] h = tt
  drop-IsSorted (suc n) (x ∷ buf) h = drop-IsSorted n buf h.1

  -- What lies behind the first n samples has the same newest one.
  pub newest_or-drop :
      (n c d : ℕ) (buf : List (Sample F))
      → n < length buf
      → newest_or c (drop n buf) ≡ newest_or d buf
  newest_or-drop n c d [] l = elim l [ ]
  newest_or-drop zero c d (s ∷ buf) l = refl
  newest_or-drop (suc n) c d (s ∷ []) l = absurd (omega arith)
  newest_or-drop (suc n) c d (s ∷ t ∷ buf) l =
      newest_or-drop n c s.device_time (t ∷ buf) (omega arith)
