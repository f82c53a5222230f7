-- ===== src/Casir/Writer.antt =====
-- `CASIR::Writer` of src/casir.cpp. A method takes the object and the segment and returns them
-- anew; `none` is undefined behaviour. Pointers into the mapping are offsets from `shm_ptr_`.
mod State
mod Setup
unfoldable pub use State.*
unfoldable pub use Setup.*
use sim_library_v.Prelude.{
  ℕ, ◌+◌, Bool, true, false, Option, none, some, List, [], ◌∷◌, ◌++◌, String, is_empty, ◌||◌, not,
  ltb, ◌==◌, add64, sub32, if◌then◌else◌,
}
use Prim.Native.Nat.{min}
use sim_library_v.Prelude.Int.{ℤ}
use sim_library_v.Memory.{◌>>=◌, Pointer, pick, copy_in, take_from}
use sim_library_v.Os.{null, at, is_null, Call, shm_unlink, close, munmap_if}
use sim_library_v.Casir.Header.{Header, Segment, header_of}
use sim_library_v.Casir.Config.{Stats}

-- The stores of the number and the time stamp of buffer `back`.
unfoldable pub set_frame : ℕ → ℕ → ℤ → Header → Header
set_frame back count now h =
    if back == 0
    then record h { frame0 = count; timestamp0_ns = now }
    else record h { frame1 = count; timestamp1_ns = now }

-- The stores from the metadata to the flip of the front index.
unfoldable pub flip : ℕ → ℕ → ℕ → ℤ → Header → Header
unfolding set_frame
flip back count size now h = record (set_frame back count now h) {
  published_length = size;
  writer_heartbeat_ns = now;
  front_idx = back;
}

-- The counters after the flip.
unfoldable pub count_write : ℕ → Header → Header
count_write size h = record h {
  total_writes = add64 h.total_writes 1;
  total_bytes = add64 h.total_bytes size;
}

unfoldable pub write : ℤ → Writer → Segment → List ℕ → ℕ → Option (Bool × Writer × Segment)
unfolding flip
write now w s bytes size =
    if not w.is_initialized || ltb w.max_size size then some (false, w, s) else do
      h ← header_of w.header w.shm_ptr s
      let back = sub32 1 h.front_idx
      let count = add64 w.frame_count 1
      target ← pick back w.buffer
      source ← take_from bytes size
      mem ← copy_in (min w.shm_size s.size) target source s.mem
      some (
        true,
        record w { frame_count = count },
        record s { header = flip back count size now h; mem = mem },
      )

-- `filled` is what `fill_func` stores from the start of the buffer on.
unfoldable pub write_zero_copy :
    ℤ → Writer → Segment → List ℕ → ℕ → Option (Bool × Writer × Segment)
unfolding flip count_write
write_zero_copy now w s filled size =
    if not w.is_initialized || ltb w.max_size size then some (false, w, s) else do
      h ← header_of w.header w.shm_ptr s
      let back = sub32 1 h.front_idx
      let count = add64 w.frame_count 1
      target ← pick back w.buffer
      mem ← copy_in (min w.shm_size s.size) target filled s.mem
      some (
        true,
        record w { frame_count = count },
        record s { header = count_write size (flip back count size now h); mem = mem },
      )

unfoldable pub get_write_buffer : Writer → Segment → Option Pointer
get_write_buffer w s =
    if not w.is_initialized
    then some none
    else do h ← header_of w.header w.shm_ptr s; pick (sub32 1 h.front_idx) w.buffer

unfoldable pub commit_write : ℤ → Writer → Segment → ℕ → Option (Bool × Writer × Segment)
unfolding flip count_write
commit_write now w s size =
    if not w.is_initialized || ltb w.max_size size then some (false, w, s) else do
      h ← header_of w.header w.shm_ptr s
      let back = sub32 1 h.front_idx
      let count = add64 w.frame_count 1
      some (
        true,
        record w { frame_count = count },
        record s { header = count_write size (flip back count size now h) },
      )

abbrev pub stats_of : Writer → ℕ → ℕ → Stats
stats_of w writes bytes = record {
  huge_pages_active = w.using_huge_pages;
  prefetch_active = w.config.enable_prefetch;
  numa_node = 0;
  pinned_cpu = w.config.cpu_affinity;
  cache_info = w.cache_info;
  total_writes = writes;
  total_reads = 0;
  bytes_transferred = bytes;
}

unfoldable pub get_stats : Writer → Segment → Option Stats
get_stats w s =
    if is_null w.header
    then some (stats_of w 0 0)
    else do h ← header_of w.header w.shm_ptr s; some (stats_of w h.total_writes h.total_bytes)

abbrev pub unlink_if_named : String → List Call
unlink_if_named name = if is_empty name then [] else shm_unlink name ∷ []

-- The destructor calls it.
unfoldable pub destroy : Writer → Writer × List Call
destroy w = (
  record w {
    shm_ptr = elim w.shm_ptr [ at base ↦ null | p ↦ p ];
    shm_fd = none;
    header = null;
    buffer = record { at_0 = none; at_1 = none };
    is_initialized = false;
  },
  munmap_if w.shm_ptr w.shm_size
      ++ elim w.shm_fd [ none ↦ [] | some fd ↦ close fd ∷ unlink_if_named w.shm_name ],
)

-- The move constructor: the new object, and what is left in `other`. The name that `std::move`
-- leaves behind is unspecified, hence an argument.
unfoldable pub move : String → Writer → Writer × Writer
move left other = (
  other,
  record other {
    shm_name = left;
    is_initialized = false;
    shm_fd = none;
    shm_ptr = null;
    header = null;
  },
)

-- Move assignment between two objects: the target is destroyed first.
unfoldable pub move_assign : String → Writer → Writer → Writer × Writer × List Call
unfolding move destroy
move_assign left this other =
    let (new_this, old_other) = move left other in (new_this, old_other, (destroy this).1)
