-- ===== src/Sim/Header.antt =====
-- The header of a SIM segment and the layout of its payload: `Header` of include/sim.hpp, and
-- `calculateShmSize` of src/sim.cpp. Sizes are those of the x86-64 Linux ABI.
use sim_library_v.Prelude.{ℕ, Bool, Option, none, some, add64, mul64}
use sim_library_v.Prelude.Int.{ℤ}
use sim_library_v.Memory.{Two, Shm}
use sim_library_v.Os.{Address, null, failed, at}

pub record Header : Type 0 where
  pub magic : ℕ
  pub version : ℕ
  pub capacity : ℕ
  pub front_idx : ℕ
  pub frame : Two ℕ
  pub timestamp_ns : Two ℤ
  pub published_length : ℕ
  pub writer_heartbeat_ns : ℤ
  pub checksum : Two ℕ
  pub checksum_enabled : Bool

-- `HEADER_MAGIC`
abbrev pub header_magic : ℕ
header_magic = 0x53494D00

-- `(VERSION_MAJOR << 16) | VERSION_MINOR`, for version 1.0
abbrev pub header_version : ℕ
header_version = 0x10000

-- `sizeof(Header)`: 97 bytes of members, aligned to 8.
abbrev pub sizeof_header : ℕ
sizeof_header = 104

-- The segment as both sides map it.
abbrev pub Segment : Type 0
Segment = Shm Header

unfoldable pub calculate_shm_size : ℕ → ℕ
calculate_shm_size max_payload = add64 (add64 sizeof_header (mul64 max_payload 2)) 128

-- The header behind `header_`.
abbrev pub header_of : Address → Segment → Option Header
header_of (at base) s = some s.header
header_of null s = none
header_of failed s = none
