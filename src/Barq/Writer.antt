-- ===== src/Barq/Writer.antt =====
-- `BARQ::Writer` of src/barq.cpp. A method takes the object and the segment and returns them
-- anew; `none` is undefined behaviour. Pointers into the mapping are offsets from `ptr_`.
mod State
mod Setup
unfoldable pub use State.*
unfoldable pub use Setup.*
use sim_library_v.Prelude.{
  ℕ, ◌+◌, Bool, true, false, Option, none, some, List, [], ◌∷◌, ◌++◌, ◌||◌, not, ltb, leb, ◌==◌,
  add64, sub32, if◌then◌else◌,
}
use Prim.Native.Nat.{min}
use sim_library_v.Prelude.Int.{ℤ}
use sim_library_v.Memory.{◌>>=◌, Pointer, pick, copy_in, take_from}
use sim_library_v.Os.{null, at, Call, shm_unlink, close, munmap_if}
use sim_library_v.Barq.Copy.{nt_copy_in}
use sim_library_v.Barq.Header.{Header, Segment, header_of}

-- The stores of the length, the time stamp and the sequence number of buffer `back`.
unfoldable pub set_metadata : ℕ → ℕ → ℤ → ℕ → Header → Header
set_metadata back size now seq h =
    if back == 0
    then record h { len0 = size; ts0 = now; seq0 = seq }
    else record h { len1 = size; ts1 = now; seq1 = seq }

-- `write` past its guard: `bytes` are the bytes at `data`.
pub publish : ℤ → Writer → Segment → List ℕ → ℕ → Option (Bool × Writer × Segment)
unfolding set_metadata
publish now w s bytes size = do
  h ← header_of w.header s
  let back = sub32 1 h.front_idx
  let count = add64 w.frame_count 1
  target ← pick back w.buffer
  source ← take_from bytes size
  mem ←
      if leb 4096 size
      then nt_copy_in (min w.shm_size s.size) target source s.mem
      else copy_in (min w.shm_size s.size) target source s.mem
  let h' = set_metadata back size now count h
  some (
    true,
    record w { frame_count = count },
    record s { header = record h' { heartbeat_ns = now; front_idx = back }; mem = mem },
  )

unfoldable pub write : ℤ → Writer → Segment → List ℕ → ℕ → Option (Bool × Writer × Segment)
unfolding publish
write now w s bytes size =
    if not w.initialized || ltb w.max_size size
    then some (false, w, s)
    else publish now w s bytes size

-- The pointer to the back buffer.
unfoldable pub get_write_buffer : Writer → Segment → Option Pointer
get_write_buffer w s =
    if not w.initialized
    then some none
    else do h ← header_of w.header s; pick (sub32 1 h.front_idx) w.buffer

unfoldable pub commit : ℤ → Writer → Segment → ℕ → Option (Bool × Writer × Segment)
unfolding set_metadata
commit now w s size = if not w.initialized || ltb w.max_size size then some (false, w, s) else do
  h ← header_of w.header s
  let back = sub32 1 h.front_idx
  let count = add64 w.frame_count 1
  let h' = set_metadata back size now count h
  some (
    true,
    record w { frame_count = count },
    record s {
      header = record h' {
        heartbeat_ns = now;
        total_writes = add64 h.total_writes 1;
        total_bytes = add64 h.total_bytes size;
        front_idx = back;
      };
    },
  )

-- Releases the mapping, and the descriptor with the name. The destructor calls it.
unfoldable pub destroy : Writer → Writer × List Call
destroy w = (
  record w {
    ptr = elim w.ptr [ at base ↦ null | p ↦ p ];
    fd = none;
    header = null;
    buffer = record { at_0 = none; at_1 = none };
    initialized = false;
  },
  munmap_if w.ptr w.shm_size
      ++ elim w.fd [ none ↦ [] | some fd ↦ close fd ∷ shm_unlink w.name ∷ [] ],
)
