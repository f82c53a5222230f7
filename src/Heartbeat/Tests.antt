-- ===== src/Heartbeat/Tests.antt =====
-- The liveness test at concrete clock readings.
use sim_library_v.Prelude.{◌≡◌, refl, false}
use sim_library_v.Prelude.Int.{pos, ◌-ℤ◌}
use sim_library_v.Heartbeat.{is_recent}

-- With a timeout of zero a writer is alive only if its heartbeat is a millisecond ahead.
zero_timeout : is_recent (pos 5000000) (pos 5000000) 0 ≡ false
unfolding is_recent ◌-ℤ◌
zero_timeout = refl
