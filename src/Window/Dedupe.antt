-- ===== src/Window/Dedupe.antt =====
-- The ring of recent sequence numbers: it holds the last 64 that were accepted.
use sense_grid.Common.{
  ℕ, suc, ◌+◌, ◌-◌, ◌%◌, ◌≤◌, ◌<◌, ◌≡◌, refl, sym, ap, ◌∙◌, inl, inr, true, false, not, List, [],
  ◌∷◌, ◌++◌, arith, if◌then◌else◌, length, length-append, length-drop, length-take, take, drop, set,
  contains, nat_Eq, Float, Bool-cases, last, last-last, drop-set, take-set, drop-drop_append,
  drop_all, take_all, length-set, contains-append, take-drop, drop-append,
}
use native.Mathlib.Decide.{dec_lt}
use mathlib.Core.List.{append_assoc, append-nil}
use sense_grid.Window.Buffer.{
  Window, mark_seen, already_seen, dedupe_ring_size, insert, fold_in, new,
}

-- What the ring holds, oldest first.
pub recent : {F : Type 0} → Window F → List ℕ
recent w = drop w.seen_head w.seen_seq ++ take w.seen_head w.seen_seq

pub record IsRing {F : Type 0} (w : Window F) : Type 0 where
  pub size_bound : length w.seen_seq ≤ dedupe_ring_size
  pub head_bound : w.seen_head < dedupe_ring_size
  pub head_when_filling : length w.seen_seq < dedupe_ring_size → w.seen_head ≡ 0

-- One full turn of the ring.
turn :
    (xs : List ℕ) (h n v : ℕ)
    → length xs ≡ suc n
    → h ≤ n
    → let h' = (h + 1) % suc n in
      drop h' (set xs h v) ++ take h' (set xs h v) ≡ drop 1 (drop h xs ++ take h xs) ++ v ∷ []
turn xs h n v e l = elim (dec_lt h n) [
  | yes p ↦
      let m : (h + 1) % suc n ≡ suc h = grind arith in
      rw (m, drop-set xs h v, take-set xs h v (omega arith))
        (rw (drop-drop_append xs (take h xs) h (omega arith))
          (sym (append_assoc (drop (suc h) xs) (take h xs) (v ∷ []))))
  | no p ↦
      let here : h ≡ n = omega arith in
      let m : (h + 1) % suc n ≡ 0 = grind arith in
      rw (m, append-nil)
        (rw (
          drop-drop_append xs (take h xs) h (omega arith),
          drop_all xs (suc h) (omega arith),
          ← take-set xs h v (omega arith),
          take_all (set xs h v) (suc h) (omega (arith, length-set xs h v)),
        ))
]

module _ {F : Type 0} where
  already_seen-recent : (w : Window F) (q : ℕ) → already_seen w q ≡ contains q (recent w)
  unfolding already_seen recent
  already_seen-recent w q = ground (
    arith,
    contains-append q (drop w.seen_head w.seen_seq) (take w.seen_head w.seen_seq),
    contains-append q (take w.seen_head w.seen_seq) (drop w.seen_head w.seen_seq),
    ap (contains q) (take-drop w.seen_head w.seen_seq),
  )

  length-recent : (w : Window F) → IsRing w → length (recent w) ≡ length w.seen_seq
  unfolding recent
  length-recent w r = omega (
    arith,
    length-append (drop w.seen_head w.seen_seq) (take w.seen_head w.seen_seq),
    length-drop w.seen_head w.seen_seq,
    length-take w.seen_head w.seen_seq,
    r,
  )

  mark_seen-IsRing : (w : Window F) (q : ℕ) → IsRing w → IsRing (mark_seen w q)
  unfolding mark_seen
  mark_seen-IsRing w q r =
      ground (arith, length-append w.seen_seq (q ∷ []), length-set w.seen_seq w.seen_head q, r)

  recent_filling :
      (w : Window F) (q : ℕ)
      → IsRing w
      → length w.seen_seq < dedupe_ring_size
      → recent (mark_seen w q) ≡ recent w ++ q ∷ []
  unfolding mark_seen recent
  recent_filling w q r l =
      ground
        (arith, r.head_when_filling l, append-nil w.seen_seq, append-nil (w.seen_seq ++ q ∷ []))

  recent_full :
      (w : Window F) (q : ℕ)
      → IsRing w
      → length w.seen_seq ≡ dedupe_ring_size
      → recent (mark_seen w q) ≡ drop 1 (recent w) ++ q ∷ []
  unfolding mark_seen recent
  recent_full w q r l =
      let t = turn w.seen_seq w.seen_head 63 q l (omega (arith, r)) in ground arith

  recent-mark_seen :
      (w : Window F) (q : ℕ)
      → IsRing w
      → recent (mark_seen w q) ≡ last dedupe_ring_size (recent w ++ q ∷ [])
  recent-mark_seen w q r = elim (dec_lt (length w.seen_seq) dedupe_ring_size) [
    | yes l ↦
        let m : length (recent w ++ q ∷ []) - dedupe_ring_size ≡ 0 =
          omega (arith, length-append (recent w) (q ∷ []), length-recent w r) in
        rw m (recent_filling w q r l)
    | no l ↦
        let m : length (recent w ++ q ∷ []) - dedupe_ring_size ≡ 1 =
          omega (arith, length-append (recent w) (q ∷ []), length-recent w r, r) in
        rw (m, drop-append 1 (recent w) (q ∷ []) (omega (arith, length-recent w r, l)))
          (recent_full w q r (omega (arith, r, l)))
  ]

  contains-recent : (w : Window F) (q : ℕ) → IsRing w → contains q (recent (mark_seen w q)) ≡ true
  contains-recent w q r = elim (dec_lt (length w.seen_seq) dedupe_ring_size) [
    | yes l ↦
        ap (contains q) (recent_filling w q r l)
        ∙ ground (arith, contains-append q (recent w) (q ∷ []))
    | no l ↦
        ap (contains q) (recent_full w q r (omega (arith, r, l)))
        ∙ ground (arith, contains-append q (drop 1 (recent w)) (q ∷ []))
  ]

module _ {F : Type 0} (fl : Float F) where
  -- Calls of Insert in order: device time, value, seq.
  unfoldable pub run : Window F → List (ℕ × F × ℕ) → Window F
  run w [] = w
  run w ((t, v, q) ∷ cs) = run (insert fl w t v q).0 cs

  -- The sequence numbers of the calls that Insert answered true.
  unfoldable pub accepted : Window F → List (ℕ × F × ℕ) → List ℕ
  accepted w [] = []
  accepted w ((t, v, q) ∷ cs) =
      let rest = accepted (insert fl w t v q).0 cs in
      if (insert fl w t v q).1 then q ∷ rest else rest

  recent-fold_in :
      (w : Window F) (t : ℕ) (v : F) (q : ℕ) → recent (fold_in fl w t v q) ≡ recent (mark_seen w q)
  unfolding recent fold_in
  recent-fold_in w t v q = refl

  fold_in-IsRing : (w : Window F) (t : ℕ) (v : F) (q : ℕ) → IsRing w → IsRing (fold_in fl w t v q)
  unfolding fold_in
  fold_in-IsRing w t v q r = ground (arith, mark_seen-IsRing w q r)

  run-recent :
      (w : Window F) (cs : List (ℕ × F × ℕ))
      → IsRing w
      → IsRing (run w cs) × (recent (run w cs) ≡ last dedupe_ring_size (recent w ++ accepted w cs))
  unfolding run accepted insert
  run-recent w [] r = (r, rw append-nil (rw (length-recent w r) (rw (drop_none w r))))
    where
      drop_none : (w : Window F) → IsRing w → length w.seen_seq - dedupe_ring_size ≡ 0
      drop_none w r = omega (arith, r)
  run-recent w ((t, v, q) ∷ cs) r = elim (Bool-cases (already_seen w q)) [
    | inl old ↦ rw (old, insert) (run-recent w cs r)
    | inr fresh ↦
        let (ring, e) = run-recent (fold_in fl w t v q) cs (fold_in-IsRing w t v q r) in
        rw (fresh, insert)
          (
            ring,
            e
                ∙ ap (λ xs. last dedupe_ring_size (xs ++ accepted (fold_in fl w t v q) cs))
                    (recent-fold_in w t v q ∙ recent-mark_seen w q r)
                ∙ last-last dedupe_ring_size (recent w ++ q ∷ []) (accepted (fold_in fl w t v q) cs)
                ∙ ap (last dedupe_ring_size)
                    (append_assoc (recent w) (q ∷ []) (accepted (fold_in fl w t v q) cs)),
          )
  ]

  new-IsRing : (max_count max_age : ℕ) (alpha : F) → IsRing (new fl max_count max_age alpha)
  unfolding new
  new-IsRing max_count max_age alpha = ground arith

  recent-new : (max_count max_age : ℕ) (alpha : F) → recent (new fl max_count max_age alpha) ≡ []
  unfolding new recent
  recent-new max_count max_age alpha = refl

  insert_answer :
      (w : Window F) (t : ℕ) (v : F) (q : ℕ) → (insert fl w t v q).1 ≡ not (already_seen w q)
  unfolding insert
  insert_answer w t v q = ground arith

  -- After any calls of Insert on a new window, a further one answers false exactly when its
  -- sequence number is among the last 64 that were accepted.
  pub insert-redelivered :
      (max_count max_age : ℕ) (alpha : F) (cs : List (ℕ × F × ℕ)) (t : ℕ) (v : F) (q : ℕ)
      → let w = new fl max_count max_age alpha in
        (insert fl (run w cs) t v q).1 ≡ not (contains q (last dedupe_ring_size (accepted w cs)))
  insert-redelivered max_count max_age alpha cs t v q =
      let w = new fl max_count max_age alpha in
      let (ring, e) = run-recent w cs (new-IsRing max_count max_age alpha) in
      insert_answer (run w cs) t v q
      ∙ ap not (already_seen-recent (run w cs) q ∙ ap (contains q) e)
      ∙ ap (λ xs. not (contains q (last dedupe_ring_size (xs ++ accepted w cs))))
          (recent-new max_count max_age alpha)

  -- A call of Insert that answers false leaves the window as it was.
  pub insert-false :
      (w : Window F) (t : ℕ) (v : F) (q : ℕ)
      → (insert fl w t v q).1 ≡ false
      → (insert fl w t v q).0 ≡ w
  unfolding insert
  insert-false w t v q h = ground arith

  -- A sequence number that Insert has just been called with is refused.
  pub insert-again :
      (w : Window F) (t t' : ℕ) (v v' : F) (q : ℕ)
      → IsRing w
      → (insert fl (insert fl w t v q).0 t' v' q).1 ≡ false
  unfolding insert
  insert-again w t t' v v' q r = elim (Bool-cases (already_seen w q)) [
    | inl old ↦ rw (old, insert) (rw (old, insert) refl)
    | inr fresh ↦
        let seen : already_seen (fold_in fl w t v q) q ≡ true =
          already_seen-recent (fold_in fl w t v q) q
          ∙ ap (contains q) (recent-fold_in w t v q)
          ∙ contains-recent w q r in
        rw (fresh, insert) (rw (seen, insert) refl)
  ]
