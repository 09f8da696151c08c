-- ===== src/Window/Registry.antt =====
-- internal/window/registry.go and metric_event.go. A window is changed through the pointer that Get
-- returns; `put_window` is that change. Each method holds the mutex for its whole body.
use sense_grid.Common.{
  ℕ, ◌+◌, ◌≡◌, ◌↔◌, refl, sym, ap, ◌∙◌, inl, inr, Bool, true, ◌&&◌, Option, none, some, List, [],
  ◌∷◌, arith, if◌then◌else◌, ◌==◌, Eq, ℤ, Text, text_Eq, text_eq, text_eq_iff, length, lookup,
  insert, Float, Bool-cases,
}
use sense_grid.Window.Buffer.{Sample, Window, new, newest_or}
use sense_grid.Shadow.Drift.{since_exceeds}

pub record Key : Type 0 where
  pub device_id : Text
  pub sensor_type : Text

abbrev key_eq : Key → Key → Bool
key_eq a b = text_eq a.device_id b.device_id && text_eq a.sensor_type b.sensor_type

pub key_eq_iff : (a b : Key) → (key_eq a b ≡ true) ↔ (a ≡ b)
key_eq_iff a b =
    ground (arith, text_eq_iff a.device_id b.device_id, text_eq_iff a.sensor_type b.sensor_type)

instance abbrev pub key_Eq : Eq Key
key_Eq = record { eqb = key_eq; eqb_iff = key_eq_iff }

pub record Entry (F : Type 0) : Type 0 where
  pub window : Window F
  pub last_seen : ℕ

pub record Registry (F : Type 0) : Type 0 where
  pub max_count : ℕ
  pub max_age : ℕ
  pub ewma_alpha : F
  pub entries : List (Key × Entry F)

pub record MetricEvent (F : Type 0) : Type 0 where
  pub schema_version : Text
  pub device_id : Text
  pub sensor_type : Text
  pub mean : F
  pub std_dev : F
  pub count : ℕ
  pub ewma : F
  pub window_start_ms : ℤ
  pub window_end_ms : ℤ
  pub trace_id : Text

module _ {F : Type 0} where
  -- OldestTime and NewestTime: none for the zero time of an empty window.
  abbrev pub oldest_time : List (Sample F) → Option ℕ
  oldest_time [] = none
  oldest_time (s ∷ buf) = some s.device_time

  abbrev pub newest_time : List (Sample F) → Option ℕ
  newest_time [] = none
  newest_time (s ∷ buf) = some (newest_or 0 (s ∷ buf))

  unfoldable pub new_registry : ℕ → ℕ → F → Registry F
  new_registry max_count max_age alpha = record {
    max_count = max_count;
    max_age = max_age;
    ewma_alpha = alpha;
    entries = [];
  }

  unfoldable pub last_seen_of : Registry F → Key → Option ℕ
  last_seen_of r key = elim (lookup key r.entries) [ none ↦ none | some e ↦ some e.last_seen ]

  unfoldable pub put_window : Registry F → Key → Window F → Registry F
  put_window r key w = elim (lookup key r.entries) [
    | none ↦ r
    | some e ↦ record r { entries = insert key (record e { window = w }) r.entries }
  ]

  -- The loop of Sweep: the entries that stay, and how many were removed.
  unfoldable pub sweep_entries : ℕ → ℕ → List (Key × Entry F) → List (Key × Entry F) × ℕ
  sweep_entries now ttl [] = ([], 0)
  sweep_entries now ttl ((k, e) ∷ m) =
      let (rest, n) = sweep_entries now ttl m in
      if since_exceeds now e.last_seen ttl then (rest, n + 1) else ((k, e) ∷ rest, n)

  unfoldable pub sweep : Registry F → ℕ → ℕ → Registry F × ℕ
  sweep r now ttl = let (m, n) = sweep_entries now ttl r.entries in (record r { entries = m }, n)

  unfoldable pub size : Registry F → ℕ
  size r = length r.entries

  abbrev pub keys_of : List (Key × Entry F) → List Key
  keys_of [] = []
  keys_of ((k, e) ∷ m) = k ∷ keys_of m

  unfoldable pub keys : Registry F → List Key
  keys r = keys_of r.entries

  -- Each key stands once.
  abbrev pub IsMap : List (Key × Entry F) → Type 0
  IsMap [] = Unit {0}
  IsMap ((k, e) ∷ m) = (lookup k m ≡ none) × IsMap m

  -- What Sweep leaves under a key.
  abbrev pub unexpired : ℕ → ℕ → Option (Entry F) → Option (Entry F)
  unexpired now ttl none = none
  unexpired now ttl (some e) = if since_exceeds now e.last_seen ttl then none else some e

  lookup-sweep_entries :
      (now ttl : ℕ) (k : Key) (m : List (Key × Entry F))
      → IsMap m
      → (lookup k (sweep_entries now ttl m).0 ≡ unexpired now ttl (lookup k m))
        × (length (sweep_entries now ttl m).0 + (sweep_entries now ttl m).1 ≡ length m)
  unfolding sweep_entries
  lookup-sweep_entries now ttl k [] u = (refl, refl)
  lookup-sweep_entries now ttl k ((j, e) ∷ m) (fresh, u) =
      let (found, counted) = lookup-sweep_entries now ttl k m u in
      let gone : (j ≡ k) → lookup k m ≡ none = λ same. rw (← same) fresh in
      elim (Bool-cases (since_exceeds now e.last_seen ttl)) [
        | inl old ↦ rw old (
          elim (Bool-cases (j == k)) [
            | inl same ↦ rw same (
                found ∙ ap (unexpired now ttl) (gone ((key_eq_iff j k).0 same)) ∙ sym (rw old refl))
            | inr other ↦ rw other found
          ],
          omega (arith, counted),
        )
        | inr young ↦ rw young (
          elim (Bool-cases (j == k)) [
            | inl same ↦ rw same (rw young refl)
            | inr other ↦ rw other found
          ],
          omega (arith, counted),
        )
      ]

  -- Sweep takes away exactly the entries that were last touched more than ttl before now, leaves
  -- every other entry as it was, and answers how many it took.
  pub lookup-sweep :
      (r : Registry F) (now ttl : ℕ) (k : Key)
      → IsMap r.entries
      → (lookup k (sweep r now ttl).0.entries ≡ unexpired now ttl (lookup k r.entries))
        × (size (sweep r now ttl).0 + (sweep r now ttl).1 ≡ size r)
  unfolding sweep size
  lookup-sweep r now ttl k u = lookup-sweep_entries now ttl k r.entries u

module _ {F : Type 0} (fl : Float F) where
  -- Get: the window, and the registry that now holds it as touched at `now`.
  unfoldable pub get : Registry F → Key → ℕ → Window F × Registry F
  get r key now =
      let w : Window F = elim (lookup key r.entries) [
        | none ↦ new fl r.max_count r.max_age r.ewma_alpha
        | some e ↦ e.window
      ] in
      (w, record r { entries = insert key (record { window = w; last_seen = now }) r.entries })
