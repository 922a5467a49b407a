-- ===== src/Pulse/Filter/Midway.antt =====
-- A new threshold while a pulse is in flight.
use n_rf52840_power_meter.Config.{Config}
use n_rf52840_power_meter.Pulse.Threshold.{Threshold}
