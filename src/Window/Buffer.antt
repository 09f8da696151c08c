-- ===== src/Window/Buffer.antt =====
-- internal/window/window.go. A time is a number of nanoseconds; MaxCount and MaxAge are 0 for
-- every value that is not positive, which the source treats alike.
use sense_grid.Common.{
  ℕ, zero, suc, ◌+◌, ◌/◌, ◌%◌, Bool, true, false, ◌&&◌, ◌||◌, none, some, List, [], ◌∷◌, ◌++◌, ltb,
  if◌then◌else◌, length, get_elem?, set, take, drop, contains, nat_Eq, Float,
}
use sense_grid.Window.Stats.{
  Stats, Ewma, no_stats, update, remove, mean_of, std_dev, new_ewma, update_ewma,
}

pub record Sample (F : Type 0) : Type 0 where
  pub device_time : ℕ
  pub value : F
  pub seq : ℕ

pub record Window (F : Type 0) : Type 0 where
  pub max_count : ℕ
  pub max_age : ℕ
  pub buf : List (Sample F)
  pub stats : Stats F
  pub ewma : Ewma F
  pub prev_ewma : F
  pub seen_seq : List ℕ
  pub seen_head : ℕ

abbrev pub dedupe_ring_size : ℕ
dedupe_ring_size = 64

-- The loop of sort.Search from the standard library: `h := int(uint(i+j) >> 1)`.
unfoldable pub search_from : ℕ → ℕ → ℕ → (ℕ → Bool) → ℕ
search_from zero i j f = i
search_from (suc fuel) i j f =
    let h = (i + j) / 2 in
    let left = search_from fuel i h f in
    let right = search_from fuel (h + 1) j f in if ltb i j then (if f h then left else right) else i

-- sort.Search(n, f): n rounds are enough, as each one narrows [i, j).
unfoldable pub search : ℕ → (ℕ → Bool) → ℕ
search n f = search_from n 0 n f

-- `w.MaxAge > 0 && newest.Sub(t) > w.MaxAge`.
abbrev pub too_old : ℕ → ℕ → ℕ → Bool
too_old max_age newest t = ltb 0 max_age && ltb (t + max_age) newest

-- `w.MaxCount > 0 && len(w.buf)-i > w.MaxCount`, at `left` samples from i on.
abbrev pub too_many : ℕ → ℕ → Bool
too_many max_count left = ltb 0 max_count && ltb max_count left

module _ {F : Type 0} where
  -- `w.buf[i].deviceTime.After(t)`.
  abbrev pub after_at : List (Sample F) → ℕ → ℕ → Bool
  after_at buf t i = elim (get_elem? buf i) [ none ↦ false | some s ↦ ltb t s.device_time ]

  unfoldable pub insert_at : ℕ → Sample F → List (Sample F) → List (Sample F)
  insert_at idx s buf = take idx buf ++ s ∷ drop idx buf

  -- The index at which `Insert` puts a sample of device time t.
  abbrev pub position : List (Sample F) → ℕ → ℕ
  position buf t = search (length buf) (after_at buf t)

  -- The device time of the last sample, `w.buf[len(w.buf)-1].deviceTime`, or d of an empty buffer.
  abbrev pub newest_or : ℕ → List (Sample F) → ℕ
  newest_or d [] = d
  newest_or d (s ∷ buf) = newest_or s.device_time buf

  unfoldable pub already_seen : Window F → ℕ → Bool
  already_seen w seq = contains seq w.seen_seq

  unfoldable pub mark_seen : Window F → ℕ → Window F
  mark_seen w seq =
      if ltb (length w.seen_seq) dedupe_ring_size
      then record w { seen_seq = w.seen_seq ++ seq ∷ [] }
      else record w {
        seen_seq = set w.seen_seq w.seen_head seq;
        seen_head = (w.seen_head + 1) % dedupe_ring_size;
      }

module _ {F : Type 0} (fl : Float F) where
  unfoldable pub new : ℕ → ℕ → F → Window F
  unfolding new_ewma
  new max_count max_age alpha = record {
    max_count = max_count;
    max_age = max_age;
    buf = [];
    stats = no_stats fl;
    ewma = new_ewma fl alpha;
    prev_ewma = fl.nil;
    seen_seq = [];
    seen_head = 0;
  }

  -- The loop of `evict`: what stays in the buffer, and the statistics of it.
  unfoldable pub evict_loop : ℕ → ℕ → ℕ → List (Sample F) → Stats F → List (Sample F) × Stats F
  evict_loop max_count max_age newest [] stats = ([], stats)
  evict_loop max_count max_age newest (s ∷ buf) stats =
      let rest = evict_loop max_count max_age newest buf (remove fl stats s.value) in
      if too_old max_age newest s.device_time || too_many max_count (length (s ∷ buf))
      then rest
      else (s ∷ buf, stats)

  evict_buf : ℕ → ℕ → List (Sample F) → Stats F → List (Sample F) × Stats F
  unfolding evict_loop
  evict_buf max_count max_age [] stats = ([], stats)
  evict_buf max_count max_age (s ∷ buf) stats =
      evict_loop max_count max_age (newest_or 0 (s ∷ buf)) (s ∷ buf) stats

  unfoldable pub evict : Window F → Window F
  unfolding evict_buf
  evict w =
      let (buf, stats) = evict_buf w.max_count w.max_age w.buf w.stats in
      record w { buf = buf; stats = stats }

  -- Insert behind the test for a redelivery.
  unfoldable pub fold_in : Window F → ℕ → F → ℕ → Window F
  unfolding insert_at evict mark_seen
  fold_in w device_time value seq =
      let w' = mark_seen w seq in
      let s : Sample F = record { device_time = device_time; value = value; seq = seq } in
      evict (record w' {
        buf = insert_at (position w'.buf device_time) s w'.buf;
        stats = update fl w'.stats value;
        prev_ewma = w'.ewma.value;
        ewma = update_ewma fl w'.ewma value;
      })

  unfoldable pub insert : Window F → ℕ → F → ℕ → Window F × Bool
  unfolding already_seen
  insert w device_time value seq =
      if already_seen w seq then (w, false) else (fold_in w device_time value seq, true)

  unfoldable pub count : Window F → ℕ
  count w = w.stats.count

  unfoldable pub mean : Window F → F
  mean w = mean_of fl w.stats

  unfoldable pub deviation : Window F → F
  deviation w = std_dev fl w.stats
