-- ===== src/Barq/Valid.antt =====
-- A BARQ writer and reader attached to a segment: the layout, and the frame that it presents.
use sim_library_v.Prelude.{
  ℕ, ◌+◌, ◌%◌, ◌^◌, ◌≤◌, ◌<◌, ◌≡◌, ◌⊎◌, true, some, ◌==◌, if◌then◌else◌, arith,
}
use sim_library_v.Prelude.Int.{ℤ}
use sim_library_v.Align.{align_up, cache_line}
use sim_library_v.Align.Laws.{align_up-IsRoundUp}
use sim_library_v.Channel.{Channel}
use sim_library_v.Memory.{slice}
use sim_library_v.Os.{at}
use sim_library_v.Barq.Header.{Header, Segment, header_magic, sizeof_header}
use sim_library_v.Barq.Writer.{Writer}
use sim_library_v.Barq.Reader.{Reader}

-- The size of a buffer: the capacity, rounded up.
abbrev pub stride : ℕ → ℕ
stride max_size = align_up max_size cache_line

abbrev pub front_seq : Header → ℕ
front_seq h = if h.front_idx == 0 then h.seq0 else h.seq1

abbrev pub front_len : Header → ℕ
front_len h = if h.front_idx == 0 then h.len0 else h.len1

abbrev pub front_ts : Header → ℤ
front_ts h = if h.front_idx == 0 then h.ts0 else h.ts1

abbrev pub front_start : Header → ℕ
front_start h = if h.front_idx == 0 then sizeof_header else sizeof_header + stride h.capacity

abbrev pub back_start : Header → ℕ
back_start h = if h.front_idx == 0 then sizeof_header + stride h.capacity else sizeof_header

-- What a reader finds in the front buffer.
abbrev pub view : Segment → Channel
view s = record {
  frame = front_seq s.header;
  payload = slice s.mem (front_start s.header) (front_len s.header);
}

-- The header is one that `init` and `write` leave behind, in an object that holds both buffers.
pub record IsSegment (s : Segment) : Type 0 where
  pub magic : s.header.magic ≡ header_magic
  pub front : s.header.front_idx < 2
  pub length_0 : s.header.len0 ≤ s.header.capacity
  pub length_1 : s.header.len1 ≤ s.header.capacity
  pub holds : sizeof_header + (stride s.header.capacity + stride s.header.capacity) ≤ s.size

pub record IsAttached (w : Writer) (s : Segment) : Type 0 where
  pub segment : IsSegment s
  pub ready : w.initialized ≡ true
  pub base : ℕ
  pub mapped : w.header ≡ at base
  pub first : w.buffer.at_0 ≡ some sizeof_header
  pub second : w.buffer.at_1 ≡ some (sizeof_header + stride w.max_size)
  pub capacity : s.header.capacity ≡ w.max_size
  pub reach : sizeof_header + (stride w.max_size + stride w.max_size) ≤ w.shm_size
  pub small : w.max_size + cache_line ≤ 2 ^ 64
  pub count : w.frame_count ≡ front_seq s.header

pub record IsConnected (r : Reader) (s : Segment) : Type 0 where
  pub segment : IsSegment s
  pub ready : r.initialized ≡ true
  pub base : ℕ
  pub mapped : r.header ≡ at base
  pub first : r.buffer.at_0 ≡ some sizeof_header
  pub second : r.buffer.at_1 ≡ some (sizeof_header + stride r.max_size)
  pub capacity : s.header.capacity ≡ r.max_size

pub Front-cases : {s : Segment} → IsSegment s → (s.header.front_idx ≡ 0) ⊎ (s.header.front_idx ≡ 1)
Front-cases v = omega arith

pub front_fits : {s : Segment} → IsSegment s → front_len s.header ≤ s.header.capacity
front_fits v = ground (arith, v.length_0, v.length_1)

-- A buffer holds the capacity and starts at a multiple of 16.
pub stride_bounds :
    (n : ℕ) → n + cache_line ≤ 2 ^ 64 → (n ≤ stride n) × (stride n % 16 ≡ 0) × (stride n < n + 64)
stride_bounds n h =
    let up = align_up-IsRoundUp n 6 (omega arith) h in
    omega (arith, up.multiple, up.covers, up.least)
