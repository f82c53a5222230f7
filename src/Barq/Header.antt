-- ===== src/Barq/Header.antt =====
-- The header of a BARQ segment: `Header` of include/barq.hpp. The two buffers follow it, each
-- rounded up to a cache line.
use sim_library_v.Prelude.{ℕ, ◌*◌, Option, none, some}
use sim_library_v.Prelude.Int.{ℤ}
use sim_library_v.Memory.{Shm}
use sim_library_v.Os.{Address, null, failed, at}

pub record Header : Type 0 where
  pub magic : ℕ
  pub version : ℕ
  pub capacity : ℕ
  pub buffer_offset : ℕ
  pub flags : ℕ
  pub front_idx : ℕ
  pub seq0 : ℕ
  pub ts0 : ℤ
  pub len0 : ℕ
  pub seq1 : ℕ
  pub ts1 : ℤ
  pub len1 : ℕ
  pub heartbeat_ns : ℤ
  pub total_writes : ℕ
  pub total_bytes : ℕ

-- `MAGIC` and `VERSION`
abbrev pub header_magic : ℕ
header_magic = 0x53484D32

abbrev pub header_version : ℕ
header_version = 0x00020000

-- `sizeof(Header)`: five cache lines, as the static assertion says.
abbrev pub sizeof_header : ℕ
sizeof_header = 5 * 64

-- The segment as both sides map it.
abbrev pub Segment : Type 0
Segment = Shm Header

-- The header behind `header_`.
abbrev pub header_of : Address → Segment → Option Header
header_of (at base) s = some s.header
header_of null s = none
header_of failed s = none
