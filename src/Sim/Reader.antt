-- ===== src/Sim/Reader.antt =====
-- `SIM::Reader` of src/sim.cpp, in the style of `Sim.Writer`: `none` is undefined behaviour.
use sim_library_v.Prelude.{
  ℕ, ◌+◌, Bool, true, false, Option, none, some, List, [], ◌∷◌, ◌++◌, String, ◌||◌, not, ltb, leb,
  ◌==◌, add64, sub64, length, if◌then◌else◌,
}
use Prim.Native.Nat.{min}
use sim_library_v.Prelude.Int.{ℤ, pos}
use sim_library_v.Align.{align_to_cache_line}
use sim_library_v.Heartbeat.{is_recent}
use sim_library_v.Memory.{◌>>=◌, Pointer, Two, pick, copy_out}
use sim_library_v.Os.{
  Address, null, at, is_null, Call, shm_open, mmap, munmap, close, close_if, munmap_if,
}
use sim_library_v.Sim.Checksum.{checksum_disabled, calculate_checksum}
use sim_library_v.Sim.Header.{
  Header, Segment, header_of, header_magic, sizeof_header, calculate_shm_size,
}

pub record Reader : Type 0 where
  pub shm_name : String
  pub max_size : ℕ
  pub is_initialized : Bool
  pub shm_fd : Option ℕ
  pub shm_ptr : Address
  pub shm_size : ℕ
  pub header : Address
  pub buffer : Two Pointer
  pub last_frame : ℕ
  pub last_timestamp_ns : ℤ
  pub dropped_frames : ℕ
  pub last_checksum_valid : Bool

-- The constructor.
unfoldable pub new : String → ℕ → Reader
new shm_name max_size = record {
  shm_name = shm_name;
  max_size = max_size;
  is_initialized = false;
  shm_fd = none;
  shm_ptr = null;
  shm_size = 0;
  header = null;
  buffer = record { at_0 = none; at_1 = none };
  last_frame = 0;
  last_timestamp_ns = pos 0;
  dropped_frames = 0;
  last_checksum_valid = true;
}

pub record Init : Type 0 where
  pub result : Bool
  pub reader : Reader
  pub calls : List Call

-- What the system calls of `init` answer.
pub record Answers : Type 0 where
  pub opened : Option ℕ
  pub mapped : Option ℕ

-- `init` from the test of the magic number on.
init_checked : Reader → ℕ → ℕ → List Call → Bool → Init
init_checked r fd base calls false = record {
  result = false;
  reader = record r { shm_fd = none; shm_ptr = null; header = null };
  calls = calls ++ munmap (at base) r.shm_size ∷ close fd ∷ [];
}
init_checked r fd base calls true = record {
  result = true;
  reader = record r {
    is_initialized = true;
    shm_fd = some fd;
    shm_ptr = at base;
    header = at base;
    buffer = record { at_0 = some payload; at_1 = some (payload + r.max_size) };
  };
  calls = calls;
}
  where
    payload : ℕ
    payload = align_to_cache_line sizeof_header

-- `init` from the answer of `mmap` on. An object that does not hold the header, as before the
-- writer's `ftruncate`, faults where the magic number is read.
init_mapped : Reader → Segment → ℕ → List Call → Option ℕ → Option Init
unfolding init_checked
init_mapped r s fd calls none = some (record {
  result = false;
  reader = record r { shm_fd = none; shm_ptr = null };
  calls = calls ++ close fd ∷ [];
})
init_mapped r s fd calls (some base) =
    if ltb s.size sizeof_header
    then none
    else some (init_checked r fd base calls (s.header.magic == header_magic))

init_opened : Answers → Reader → Segment → Option ℕ → Option Init
unfolding init_mapped
init_opened a r s none = some (record {
  result = false;
  reader = record r { shm_fd = none };
  calls = shm_open r.shm_name none ∷ [];
})
init_opened a r s (some fd) =
    init_mapped r s fd (shm_open r.shm_name (some fd) ∷ mmap fd r.shm_size a.mapped ∷ []) a.mapped

unfoldable pub init : Answers → Reader → Segment → Option Init
unfolding init_opened
init a r s =
    if r.is_initialized
    then some (record { result = true; reader = r; calls = [] })
    else init_opened a (record r { shm_size = calculate_shm_size r.max_size }) s a.opened

-- `dropped_frames_` after a frame `current` that is not the last one seen.
unfoldable pub count_dropped : ℕ → ℕ → ℕ → ℕ
count_dropped last current dropped =
    if ltb (add64 last 1) current then add64 dropped (sub64 (sub64 current last) 1) else dropped

-- `last_checksum_valid_` for the bytes copied out.
unfoldable pub checksum_valid : Bool → ℕ → List ℕ → Bool
checksum_valid false expected bytes = true
checksum_valid true expected bytes =
    expected == checksum_disabled || calculate_checksum bytes == expected

-- `read` of a new frame: the bytes copied to `data`, whose number goes to `size`. The destination
-- has `room` bytes.
pub fetch : Reader → Header → Segment → ℕ → ℕ → Option (Option (List ℕ) × Reader)
unfolding count_dropped checksum_valid
fetch r h s current room = do
  timestamp ← pick h.front_idx h.timestamp_ns
  source ← pick h.front_idx r.buffer
  bytes ← copy_out (min r.shm_size s.size) source (min h.published_length r.max_size) s.mem
  data_fits ← if leb (length bytes) room then some true else none
  expected ← pick h.front_idx h.checksum
  some (
    some bytes,
    record r {
      last_frame = current;
      last_timestamp_ns = timestamp;
      dropped_frames = count_dropped r.last_frame current r.dropped_frames;
      last_checksum_valid = checksum_valid h.checksum_enabled expected bytes;
    },
  )

-- The destination is `none` for `nullptr`, else its size; the result is `none` where `read`
-- returns false.
unfoldable pub read : Reader → Segment → Option ℕ → Option (Option (List ℕ) × Reader)
unfolding fetch
read r s none = some (none, r)
read r s (some room) = if not r.is_initialized then some (none, r) else do
  h ← header_of r.header s
  current ← pick h.front_idx h.frame
  if current == r.last_frame then some (none, r) else fetch r h s current room

unfoldable pub is_writer_alive : ℤ → Reader → Segment → ℕ → Option Bool
unfolding is_recent
is_writer_alive now r s timeout_ms =
    if not r.is_initialized || is_null r.header
    then some false
    else do h ← header_of r.header s; some (is_recent now h.writer_heartbeat_ns timeout_ms)

-- The destructor's calls.
unfoldable pub drop : Reader → List Call
drop r = munmap_if r.shm_ptr r.shm_size ++ close_if r.shm_fd

-- The move constructor: the new object, and what is left in `other`.
unfoldable pub move : String → Reader → Reader × Reader
move left other = (
  other,
  record other {
    shm_name = left;
    is_initialized = false;
    shm_fd = none;
    shm_ptr = null;
    header = null;
  },
)

-- Move assignment between two objects: the target's resources are released first.
unfoldable pub move_assign : String → Reader → Reader → Reader × Reader × List Call
unfolding move drop
move_assign left this other =
    let (new_this, old_other) = move left other in (new_this, old_other, drop this)
