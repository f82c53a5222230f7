-- ===== src/Casir/Reader.antt =====
-- `CASIR::Reader` of src/casir.cpp, in the style of `Casir.Writer`: `none` is undefined
-- behaviour.
mod State
mod Setup
unfoldable pub use State.*
unfoldable pub use Setup.*
use sim_library_v.Prelude.{
  ℕ, ◌+◌, Bool, true, false, Option, none, some, List, ◌++◌, String, ◌||◌, ◌&&◌, not, ltb, leb,
  ◌==◌, add64, sub64, if◌then◌else◌,
}
use Prim.Native.Nat.{min}
use sim_library_v.Prelude.Int.{ℤ}
use sim_library_v.Heartbeat.{is_recent}
use sim_library_v.Memory.{◌>>=◌, Pointer, pick, copy_out}
use sim_library_v.Os.{null, is_null, Call, close_if, munmap_if}
use sim_library_v.Casir.Header.{Header, Segment, header_of}
use sim_library_v.Casir.Config.{Stats}

abbrev pub front_frame : Header → ℕ
front_frame h = if h.front_idx == 0 then h.frame0 else h.frame1

abbrev pub front_timestamp : Header → ℤ
front_timestamp h = if h.front_idx == 0 then h.timestamp0_ns else h.timestamp1_ns

-- `dropped_frames_` after frame `current`: the first frame seen counts none.
unfoldable pub count_dropped : ℕ → ℕ → ℕ → ℕ
count_dropped last current dropped =
    if ltb 0 last && ltb (add64 last 1) current
    then add64 dropped (sub64 (sub64 current last) 1)
    else dropped

-- `read` of a new frame into a destination of `room` bytes; the frames dropped are counted
-- already.
unfoldable pub fetch : Reader → Header → Segment → ℕ → Option (Option (List ℕ) × Reader)
fetch r h s room = if ltb r.max_size h.published_length then some (none, r) else do
  source ← pick h.front_idx r.buffer
  bytes ← copy_out (min r.shm_size s.size) source h.published_length s.mem
  data_fits ← if leb h.published_length room then some true else none
  some (some bytes, record r { last_frame = front_frame h; last_timestamp_ns = front_timestamp h })

-- The result is `none` where `read` returns false.
unfoldable pub read : Reader → Segment → ℕ → Option (Option (List ℕ) × Reader)
unfolding count_dropped fetch
read r s room = if not r.is_initialized then some (none, r) else do
  h ← header_of r.header r.shm_ptr s
  if front_frame h == r.last_frame
      then some (none, r)
      else fetch
          (record r {
            dropped_frames = count_dropped r.last_frame (front_frame h) r.dropped_frames;
          })
          h s room

-- What `readZeroCopy` hands out.
pub record Lent : Type 0 where
  pub pointer : Pointer
  pub size : ℕ

-- The result is `none` where the code returns `nullptr` early.
unfoldable pub read_zero_copy : Reader → Segment → Option (Option Lent × Reader)
read_zero_copy r s = if not r.is_initialized || r.zero_copy_active then some (none, r) else do
  h ← header_of r.header r.shm_ptr s
  if front_frame h == r.last_frame then some (none, r) else do
    pointer ← pick h.front_idx r.buffer
    some (
      some (record { pointer = pointer; size = h.published_length }),
      record r {
        last_frame = front_frame h;
        last_timestamp_ns = front_timestamp h;
        zero_copy_active = true;
      },
    )

unfoldable pub release_zero_copy : Reader → Reader
release_zero_copy r = record r { zero_copy_active = false }

unfoldable pub is_writer_alive : ℤ → Reader → Segment → ℕ → Option Bool
unfolding is_recent
is_writer_alive now r s timeout_ms = if not r.is_initialized then some false else do
  h ← header_of r.header r.shm_ptr s
  some (is_recent now h.writer_heartbeat_ns timeout_ms)

abbrev pub stats_of : Reader → ℕ → ℕ → Stats
stats_of r writes bytes = record {
  huge_pages_active = r.using_huge_pages;
  prefetch_active = r.config.enable_prefetch;
  numa_node = 0;
  pinned_cpu = r.config.cpu_affinity;
  cache_info = r.cache_info;
  total_writes = writes;
  total_reads = r.last_frame;
  bytes_transferred = bytes;
}

unfoldable pub get_stats : Reader → Segment → Option Stats
get_stats r s =
    if is_null r.header
    then some (stats_of r 0 0)
    else do h ← header_of r.header r.shm_ptr s; some (stats_of r h.total_writes h.total_bytes)

-- The destructor's calls.
unfoldable pub drop : Reader → List Call
drop r = munmap_if r.shm_ptr r.shm_size ++ close_if r.shm_fd

-- The move constructor: the new object, and what is left in `other`.
unfoldable pub move : String → Reader → Reader × Reader
move left other = (
  other,
  record other {
    shm_name = left;
    is_initialized = false;
    shm_fd = none;
    shm_ptr = null;
    header = null;
  },
)

-- Move assignment between two objects: the target's resources are released first. `shm_ptr_` is
-- never `MAP_FAILED` between two calls.
unfoldable pub move_assign : String → Reader → Reader → Reader × Reader × List Call
unfolding move drop
move_assign left this other =
    let (new_this, old_other) = move left other in (new_this, old_other, drop this)
