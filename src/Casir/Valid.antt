-- ===== src/Casir/Valid.antt =====
-- A CASIR writer and reader attached to a segment: the layout, and the frame that it presents.
use sim_library_v.Prelude.{ℕ, ◌+◌, ◌^◌, ◌≤◌, ◌<◌, ◌≡◌, ◌⊎◌, true, some, ◌==◌, if◌then◌else◌, arith}
use sim_library_v.Align.{align_to_cache_line, cache_line}
use sim_library_v.Align.Laws.{align_to_cache_line-IsRoundUp}
use sim_library_v.Channel.{Channel}
use sim_library_v.Memory.{slice}
use sim_library_v.Os.{at}
use sim_library_v.Casir.Header.{Header, Segment, casir_magic, sizeof_header}
use sim_library_v.Casir.Writer.{Writer}
use sim_library_v.Casir.Reader.{Reader, front_frame}

-- The size of a buffer: the capacity, rounded up.
abbrev pub stride : ℕ → ℕ
stride max_size = align_to_cache_line max_size

abbrev pub front_start : Header → ℕ
front_start h = if h.front_idx == 0 then sizeof_header else sizeof_header + stride h.capacity

abbrev pub back_start : Header → ℕ
back_start h = if h.front_idx == 0 then sizeof_header + stride h.capacity else sizeof_header

-- What a reader finds.
abbrev pub view : Segment → Channel
view s = record {
  frame = front_frame s.header;
  payload = slice s.mem (front_start s.header) s.header.published_length;
}

-- The header is one that `init` and the writes leave behind, in an object that holds both
-- buffers.
pub record IsSegment (s : Segment) : Type 0 where
  pub magic : s.header.magic ≡ casir_magic
  pub front : s.header.front_idx < 2
  pub length : s.header.published_length ≤ s.header.capacity
  pub small : s.header.capacity + cache_line ≤ 2 ^ 64
  pub holds : sizeof_header + (stride s.header.capacity + stride s.header.capacity) ≤ s.size

pub record IsAttached (w : Writer) (s : Segment) : Type 0 where
  pub segment : IsSegment s
  pub ready : w.is_initialized ≡ true
  pub base : ℕ
  pub header : w.header ≡ at base
  pub mapped : w.shm_ptr ≡ at base
  pub first : w.buffer.at_0 ≡ some sizeof_header
  pub second : w.buffer.at_1 ≡ some (sizeof_header + stride w.max_size)
  pub capacity : s.header.capacity ≡ w.max_size
  pub reach : sizeof_header + (stride w.max_size + stride w.max_size) ≤ w.shm_size
  pub count : w.frame_count ≡ front_frame s.header

pub record IsConnected (r : Reader) (s : Segment) : Type 0 where
  pub segment : IsSegment s
  pub ready : r.is_initialized ≡ true
  pub base : ℕ
  pub header : r.header ≡ at base
  pub mapped : r.shm_ptr ≡ at base
  pub first : r.buffer.at_0 ≡ some sizeof_header
  pub second : r.buffer.at_1 ≡ some (sizeof_header + stride r.max_size)
  pub capacity : s.header.capacity ≡ r.max_size
  pub reach : sizeof_header + (stride r.max_size + stride r.max_size) ≤ r.shm_size

pub Front-cases : {s : Segment} → IsSegment s → (s.header.front_idx ≡ 0) ⊎ (s.header.front_idx ≡ 1)
Front-cases v = omega arith

-- A buffer holds the capacity.
pub stride_bounds : (n : ℕ) → n + cache_line ≤ 2 ^ 64 → (n ≤ stride n) × (stride n < n + 64)
stride_bounds n h = let up = align_to_cache_line-IsRoundUp n h in omega (arith, up.covers, up.least)
