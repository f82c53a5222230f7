-- ===== src/Casir/Header.antt =====
-- The header of a CASIR segment: `Header` of include/casir.hpp. The two buffers follow it, each
-- rounded up to a cache line.
use sim_library_v.Prelude.{ℕ, ◌*◌, Bool, Option, none, some}
use sim_library_v.Prelude.Int.{ℤ}
use sim_library_v.Memory.{Shm}
use sim_library_v.Os.{Address, null, failed, at}

pub record Header : Type 0 where
  pub magic : ℕ
  pub version : ℕ
  pub capacity : ℕ
  pub huge_page_size : ℕ
  pub flags : ℕ
  pub front_idx : ℕ
  pub frame0 : ℕ
  pub timestamp0_ns : ℤ
  pub checksum0 : ℕ
  pub frame1 : ℕ
  pub timestamp1_ns : ℤ
  pub checksum1 : ℕ
  pub published_length : ℕ
  pub writer_heartbeat_ns : ℤ
  pub checksum_enabled : Bool
  pub total_writes : ℕ
  pub total_bytes : ℕ

-- `CASIR_MAGIC` and `CASIR_VERSION`
abbrev pub casir_magic : ℕ
casir_magic = 0x43415352

abbrev pub casir_version : ℕ
casir_version = 0x00010000

-- `sizeof(Header)`: six cache lines.
abbrev pub sizeof_header : ℕ
sizeof_header = 6 * 64

-- The segment as both sides map it.
abbrev pub Segment : Type 0
Segment = Shm Header

-- The header behind `header_`, which points into the mapping at `shm_ptr_`: none once that is
-- gone.
abbrev pub header_of : Address → Address → Segment → Option Header
header_of (at base) (at mapped) s = some s.header
header_of (at base) null s = none
header_of (at base) failed s = none
header_of null p s = none
header_of failed p s = none
