-- ===== src/Heartbeat/Laws.antt =====
-- When the liveness test answers yes.
use sim_library_v.Prelude.{ℕ, ◌+◌, ◌*◌, ◌≡◌, ◌<◌, ◌↔◌, true, arith}
use sim_library_v.Prelude.Int.{pos, ◌-ℤ◌}
use sim_library_v.Heartbeat.{is_recent}

-- With a positive timeout, the writer counts as alive exactly while less than the timeout, in
-- nanoseconds, has passed since its heartbeat; a heartbeat in the future counts too.
pub is_recent_lem :
    (now heartbeat timeout_ms : ℕ)
    → 0 < timeout_ms
    → (is_recent (pos now) (pos heartbeat) timeout_ms ≡ true)
      ↔ (now < heartbeat + timeout_ms * 1000000)
unfolding is_recent ◌-ℤ◌
is_recent_lem now heartbeat timeout_ms h = ground arith
