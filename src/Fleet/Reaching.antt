-- ===== src/Fleet/Reaching.antt =====
-- When Scale has the tokens that it needs, it reaches its target.
use sense_grid.Common.{text_Eq, ℕ, ◌≡◌, true, nat_Eq, Text}
use sense_grid.Fleet.Manager.{FleetManager, slot_at}
use sense_grid.Fleet.Starting.{has_dev}
use sense_grid.Fleet.Claiming.{IsStocked}

-- What a start gives the slot, and what it leaves of the pool.
abbrev Gives : {F W : Type 0} → (Text → W → Type 0) → ℕ → ℕ → FleetManager F → W → Type 0
Gives Fresh n i m w = (has_dev (slot_at i m.devices) ≡ true) × IsStocked Fresh n m.tokens w
