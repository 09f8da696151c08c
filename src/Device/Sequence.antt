-- ===== src/Device/Sequence.antt =====
-- The sequence numbers of a device's readings, and what becomes of each reading.
use sense_grid.Common.{ℕ, suc, ◌≡◌, refl, text_Eq, List, [], ◌∷◌, Text, ℤ, Float}
use sense_grid.Telemetry.Schema.{Reading}
use sense_grid.Device.Signal.{Rand}
use sense_grid.Device.Sampler.{VirtualDevice, Broker, new_virtual_device}
use sense_grid.Device.Keeps.{settled, Keeps}

-- The readings have the numbers after `n`, in order and without a gap, up to `m`.
abbrev pub IsNumbered : {F : Type 0} → ℕ → List (Reading F) → ℕ → Type 0
IsNumbered n [] m = n ≡ m
IsNumbered n (r ∷ rs) m = (r.seq ≡ suc n) × IsNumbered (suc n) rs m

pub record IsCounted {F R : Type 0} (d : VirtualDevice F R) : Type 0 where
  pub numbered : IsNumbered (settled d) d.pending d.seq
  pub last : d.stats.last_seq ≡ d.seq

module _ {F R W : Type 0} (fl : Float F) (rd : Rand F R) (br : Broker F W) where
  -- A device that starts its loop counts from the beginning.
  pub started-IsCounted :
      (idx : ℕ) (id : Text) (interval_ms : ℤ) (t : ℕ)
      → IsCounted (new_virtual_device fl rd idx id interval_ms t)
  unfolding new_virtual_device
  started-IsCounted idx id interval_ms t = record { numbered = refl; last = refl }
