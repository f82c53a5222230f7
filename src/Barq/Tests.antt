-- ===== src/Barq/Tests.antt =====
-- BARQ at concrete inputs: a segment for payloads of four bytes, with buffers at 320 and 384 of
-- 448 bytes.
mod Calls
mod Overlaps
mod Life
use sim_library_v.Prelude.{
  ℕ, ◌+◌, ◌<◌, ◌≡◌, ◌⊎◌, ◌↔◌, inl, inr, refl, true, false, Option, none, some, List, [], ◌∷◌, ◌++◌,
  arith, add64,
}
use sim_library_v.Prelude.Int.{pos}
use sim_library_v.Align.{align_up}
use sim_library_v.Channel
use sim_library_v.Memory.{blit, slice}
use sim_library_v.Os.{null, at, Ledger, enter_all}
use sim_library_v.Barq.Copy.{nt_memcpy}
use sim_library_v.Barq.Copy.Laws.{nt_memcpy-eq-blit}
use sim_library_v.Barq.Header.{Segment, header_magic, header_version, sizeof_header}
use sim_library_v.Barq.Writer
use sim_library_v.Barq.Writer.{Writer, segment_size}
use sim_library_v.Barq.Reader
use sim_library_v.Barq.Reader.{Reader, Latest}
use sim_library_v.Barq.Valid.{view, front_start, back_start, IsAttached, IsConnected}
use sim_library_v.Barq.Write.{write_presents, write_refuses, zero_copy-eq-write, filled}
use sim_library_v.Barq.Read.{
  get_latest_refines, get_latest_counts_dropped, front_survives, second_write_overwrites, bytes_of,
  IsInside,
}
use sim_library_v.Barq.Init.{huge_page_fallback, Attaches, Fails}
use sim_library_v.Barq.Release.{reader_releases, failed_init_closes_twice}

abbrev pub blank : Segment
blank = record {
  size = 0;
  header = record {
    magic = 0;
    version = 0;
    capacity = 0;
    buffer_offset = 0;
    flags = 0;
    front_idx = 0;
    seq0 = 0;
    ts0 = pos 0;
    len0 = 0;
    seq1 = 0;
    ts1 = pos 0;
    len1 = 0;
    heartbeat_ns = pos 0;
    total_writes = 0;
    total_bytes = 0;
  };
  mem = λ a. 0;
}

abbrev pub answers : Writer.Answers
answers = record {
  opened = some 3;
  truncated = true;
  huge_mapped = none;
  mapped = some 4096;
  now = pos 5;
}

abbrev pub new_writer : Writer
new_writer = record {
  name = "/cam";
  max_size = 4;
  use_huge_pages = true;
  initialized = false;
  huge_pages_active = false;
  fd = none;
  ptr = null;
  shm_size = 0;
  header = null;
  buffer = record { at_0 = none; at_1 = none };
  frame_count = 0;
}

abbrev pub writer : Writer
writer = record new_writer {
  initialized = true;
  fd = some 3;
  ptr = at 4096;
  shm_size = sizeof_header + 128;
  header = at 4096;
  buffer = record { at_0 = some sizeof_header; at_1 = some (sizeof_header + 64) };
}

abbrev pub segment : Segment
segment = record {
  size = sizeof_header + 128;
  header = record blank.header {
    magic = header_magic;
    version = header_version;
    capacity = 4;
    buffer_offset = sizeof_header;
    heartbeat_ns = pos 5;
  };
  mem = λ a. 0;
}

init_runs :
    let i = Writer.init answers (Writer.new "/cam" 4 true) blank in
    (i.result ≡ true) × (i.writer ≡ writer) × (i.segment ≡ segment)
unfolding Writer.init Writer.new segment_size align_up
init_runs = (refl, refl, refl)

abbrev pub reader : Reader
reader = record {
  name = "/cam";
  max_size = 4;
  initialized = true;
  fd = some 3;
  ptr = at 8192;
  shm_size = sizeof_header + 128;
  header = at 8192;
  buffer = record { at_0 = some sizeof_header; at_1 = some (sizeof_header + 64) };
  last_seq = 0;
  dropped = 0;
}

pub stride_4 : align_up 4 64 ≡ 64
unfolding align_up
stride_4 = refl

pub writer-IsAttached : IsAttached writer segment
writer-IsAttached = record {
  segment = ground (arith, stride_4);
  ready = refl;
  base = 4096;
  mapped = refl;
  first = refl;
  second = ground (arith, stride_4);
  capacity = refl;
  reach = ground (arith, stride_4);
  small = omega arith;
  count = refl;
}

pub reader-IsConnected : IsConnected reader segment
reader-IsConnected = record {
  segment = ground (arith, stride_4);
  ready = refl;
  base = 8192;
  mapped = refl;
  first = refl;
  second = ground (arith, stride_4);
  capacity = refl;
}

abbrev pub bytes : List ℕ
bytes = 10 ∷ 20 ∷ 30 ∷ []

-- The segment after `write` of three bytes.
abbrev pub segment_1 : Segment
segment_1 = record segment {
  header = record segment.header {
    front_idx = 1;
    len1 = 3;
    ts1 = pos 6;
    seq1 = 1;
    heartbeat_ns = pos 6;
  };
  mem = blit (λ a. 0) (sizeof_header + 64) bytes;
}
