-- ===== src/Sim/Valid.antt =====
-- A writer attached to its segment: the layout, and the frame that the segment presents.
use sim_library_v.Prelude.{ℕ, ◌+◌, ◌≤◌, ◌<◌, ◌≡◌, ◌⊎◌, true, some, ◌==◌, if◌then◌else◌, arith}
use sim_library_v.Channel.{Channel}
use sim_library_v.Memory.{slice}
use sim_library_v.Os.{at}
use sim_library_v.Sim.Header.{Header, Segment, header_magic}
use sim_library_v.Sim.Writer.{Writer}
use sim_library_v.Sim.Reader.{Reader}

-- Where the payload starts: the header, rounded up to a cache line.
abbrev pub payload_start : ℕ
payload_start = 128

abbrev pub current_frame : Header → ℕ
current_frame h = if h.front_idx == 0 then h.frame.at_0 else h.frame.at_1

abbrev pub front_start : Header → ℕ
front_start h = if h.front_idx == 0 then payload_start else payload_start + h.capacity

-- What a reader finds in the front buffer.
abbrev pub view : Segment → Channel
view s = record {
  frame = current_frame s.header;
  payload = slice s.mem (front_start s.header) s.header.published_length;
}

-- The header is one that `init` and `write` leave behind, in an object that holds both buffers.
pub record IsSegment (s : Segment) : Type 0 where
  pub magic : s.header.magic ≡ header_magic
  pub front : s.header.front_idx < 2
  pub length : s.header.published_length ≤ s.header.capacity
  pub holds : payload_start + (s.header.capacity + s.header.capacity) ≤ s.size

pub record IsAttached (w : Writer) (s : Segment) : Type 0 where
  pub segment : IsSegment s
  pub ready : w.is_initialized ≡ true
  pub base : ℕ
  pub mapped : w.header ≡ at base
  pub first : w.buffer.at_0 ≡ some payload_start
  pub second : w.buffer.at_1 ≡ some (payload_start + w.max_size)
  pub capacity : s.header.capacity ≡ w.max_size
  pub reach : payload_start + (w.max_size + w.max_size) ≤ w.shm_size
  pub count : w.frame_count ≡ current_frame s.header

-- A reader connected to a segment whose capacity is the reader's own maximum.
pub record IsConnected (r : Reader) (s : Segment) : Type 0 where
  pub segment : IsSegment s
  pub ready : r.is_initialized ≡ true
  pub base : ℕ
  pub mapped : r.header ≡ at base
  pub first : r.buffer.at_0 ≡ some payload_start
  pub second : r.buffer.at_1 ≡ some (payload_start + r.max_size)
  pub capacity : s.header.capacity ≡ r.max_size
  pub reach : payload_start + (r.max_size + r.max_size) ≤ r.shm_size

pub Front-cases : {s : Segment} → IsSegment s → (s.header.front_idx ≡ 0) ⊎ (s.header.front_idx ≡ 1)
Front-cases v = omega arith
