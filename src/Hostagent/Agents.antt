-- ===== src/Hostagent/Agents.antt =====
-- The numbers of the readings of the host agent, and the interval that its ticker has.
use sense_grid.Hostagent.Agent.{Agent}
