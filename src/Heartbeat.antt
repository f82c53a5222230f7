-- ===== src/Heartbeat.antt =====
-- The liveness test of the four readers: how old is the writer's last heartbeat?
pub mod Laws
mod Tests
use sim_library_v.Prelude.{Bool, ℕ}
use sim_library_v.Prelude.Int.{ℤ, ◌-ℤ◌, div_ℕ, lt_ℕ}

-- `(now - heartbeat) / 1000000 < (int64_t)timeout_ms`
unfoldable pub is_recent : ℤ → ℤ → ℕ → Bool
unfolding ◌-ℤ◌
is_recent now heartbeat timeout_ms = lt_ℕ (div_ℕ (now -ℤ heartbeat) 1000000) timeout_ms
