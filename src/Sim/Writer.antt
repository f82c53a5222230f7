-- ===== src/Sim/Writer.antt =====
-- `SIM::Writer` of src/sim.cpp. A method takes the object and the segment and returns them anew;
-- `none` is undefined behaviour. Pointers into the payload are offsets from `shm_ptr_`.
use sim_library_v.Prelude.{
  ℕ, ◌+◌, Bool, true, false, Option, none, some, List, [], ◌∷◌, ◌++◌, String, ◌||◌, not, ltb, add64,
  sub32, if◌then◌else◌,
}
use Prim.Native.Nat.{min}
use sim_library_v.Prelude.Int.{ℤ, pos}
use sim_library_v.Align.{align_to_cache_line}
use sim_library_v.Memory.{◌>>=◌, Pointer, Two, pick, put, copy_in, take_from}
use sim_library_v.Os.{
  Address, null, at, is_null, Call, shm_unlink, shm_open, ftruncate, mmap, close, close_if,
  munmap_if,
}
use sim_library_v.Sim.Checksum.{checksum_disabled, calculate_checksum}
use sim_library_v.Sim.Header.{
  Header, Segment, header_of, header_magic, header_version, sizeof_header, calculate_shm_size,
}

pub record Writer : Type 0 where
  pub shm_name : String
  pub max_size : ℕ
  pub enable_checksum : Bool
  pub is_initialized : Bool
  pub shm_fd : Option ℕ
  pub shm_ptr : Address
  pub shm_size : ℕ
  pub header : Address
  pub buffer : Two Pointer
  pub frame_count : ℕ

-- The constructor.
unfoldable pub new : String → ℕ → Bool → Writer
new shm_name max_size enable_checksum = record {
  shm_name = shm_name;
  max_size = max_size;
  enable_checksum = enable_checksum;
  is_initialized = false;
  shm_fd = none;
  shm_ptr = null;
  shm_size = 0;
  header = null;
  buffer = record { at_0 = none; at_1 = none };
  frame_count = 0;
}

-- What the system calls of `init` answer, and the clock.
pub record Answers : Type 0 where
  pub opened : Option ℕ
  pub truncated : Bool
  pub mapped : Option ℕ
  pub now : ℤ

pub record Init : Type 0 where
  pub result : Bool
  pub writer : Writer
  pub segment : Segment
  pub calls : List Call

-- The stores into the header.
unfoldable pub init_header : Writer → ℤ → Header
init_header w now = record {
  magic = header_magic;
  version = header_version;
  capacity = w.max_size;
  front_idx = 0;
  frame = record { at_0 = 0; at_1 = 0 };
  timestamp_ns = record { at_0 = pos 0; at_1 = pos 0 };
  published_length = 0;
  writer_heartbeat_ns = now;
  checksum = record { at_0 = checksum_disabled; at_1 = checksum_disabled };
  checksum_enabled = w.enable_checksum;
}

-- `init` from the answer of `mmap` on.
init_mapped : Answers → Writer → Segment → ℕ → List Call → Option ℕ → Init
init_mapped a w s fd calls none = record {
  result = false;
  writer = record w { shm_fd = none; shm_ptr = null };
  segment = s;
  calls = calls ++ close fd ∷ [];
}
init_mapped a w s fd calls (some base) = record {
  result = true;
  writer = record w {
    is_initialized = true;
    shm_fd = some fd;
    shm_ptr = at base;
    header = at base;
    buffer = record { at_0 = some payload; at_1 = some (payload + w.max_size) };
  };
  segment = record s { header = init_header w a.now };
  calls = calls;
}
  where
    payload : ℕ
    payload = align_to_cache_line sizeof_header

-- `init` from the answer of `ftruncate` on, which sets the size of the object.
init_truncated : Answers → Writer → Segment → ℕ → List Call → Bool → Init
unfolding init_mapped
init_truncated a w s fd calls false = record {
  result = false;
  writer = record w { shm_fd = none };
  segment = s;
  calls = calls ++ close fd ∷ [];
}
init_truncated a w s fd calls true =
    init_mapped a w (record s { size = w.shm_size }) fd (calls ++ mmap fd w.shm_size a.mapped ∷ [])
      a.mapped

init_opened : Answers → Writer → Segment → List Call → Option ℕ → Init
unfolding init_truncated
init_opened a w s calls none = record {
  result = false;
  writer = record w { shm_fd = none };
  segment = s;
  calls = calls;
}
init_opened a w s calls (some fd) =
    init_truncated a w s fd (calls ++ ftruncate fd w.shm_size a.truncated ∷ []) a.truncated

unfoldable pub init : Answers → Writer → Segment → Init
unfolding init_opened init_header
init a w s =
    if w.is_initialized
    then record { result = true; writer = w; segment = s; calls = [] }
    else init_opened a (record w { shm_size = calculate_shm_size w.max_size }) s
        (shm_open w.shm_name a.opened ∷ []) a.opened

-- `write` past its guard: `bytes` are the bytes at `data`.
pub publish : ℤ → Writer → Segment → List ℕ → ℕ → Option (Bool × Writer × Segment)
publish now w s bytes size = do
  h ← header_of w.header s
  let back = sub32 1 h.front_idx
  let count = add64 w.frame_count 1
  target ← pick back w.buffer
  source ← take_from bytes size
  mem ← copy_in (min w.shm_size s.size) target source s.mem
  frame ← put back count h.frame
  timestamp_ns ← put back now h.timestamp_ns
  checksum ←
      if w.enable_checksum then put back (calculate_checksum source) h.checksum else some h.checksum
  some (
    true,
    record w { frame_count = count },
    record s {
      header = record h {
        front_idx = back;
        frame = frame;
        timestamp_ns = timestamp_ns;
        published_length = size;
        writer_heartbeat_ns = now;
        checksum = checksum;
      };
      mem = mem;
    },
  )

-- The array at `data`, or `none` for `nullptr`.
unfoldable pub write : ℤ → Writer → Segment → Option (List ℕ) → ℕ → Option (Bool × Writer × Segment)
unfolding publish
write now w s none size = some (false, w, s)
write now w s (some bytes) size =
    if not w.is_initialized || ltb w.max_size size
    then some (false, w, s)
    else publish now w s bytes size

unfoldable pub set_checksum_enabled : Bool → Writer → Segment → Writer × Segment
set_checksum_enabled enabled w s = (
  record w { enable_checksum = enabled },
  if is_null w.header
      then s
      else record s { header = record s.header { checksum_enabled = enabled } },
)

-- `munmap` and `close` where there is something to release, then `shm_unlink`.
unfoldable pub destroy : Writer → Writer × List Call
destroy w = (
  record w {
    shm_ptr = elim w.shm_ptr [ at base ↦ null | p ↦ p ];
    shm_fd = none;
    is_initialized = false;
    header = null;
  },
  munmap_if w.shm_ptr w.shm_size ++ (close_if w.shm_fd ++ shm_unlink w.shm_name ∷ []),
)

-- The destructor's calls.
unfoldable pub drop : Writer → List Call
drop w = munmap_if w.shm_ptr w.shm_size ++ close_if w.shm_fd

-- The move constructor: the new object, and what is left in `other`. The name that `std::move`
-- leaves behind is unspecified, hence an argument.
unfoldable pub move : String → Writer → Writer × Writer
move left other = (
  other,
  record other {
    shm_name = left;
    is_initialized = false;
    shm_fd = none;
    shm_ptr = null;
    header = null;
  },
)

-- Move assignment between two objects: the target's resources are released first.
unfoldable pub move_assign : String → Writer → Writer → Writer × Writer × List Call
unfolding move drop
move_assign left this other =
    let (new_this, old_other) = move left other in (new_this, old_other, drop this)
