-- ===== src/Sim/Tests.antt =====
-- SIM at concrete inputs: a segment for payloads of four bytes.
mod Calls
mod Life
mod Overlaps
use sim_library_v.Prelude.{
  ℕ, ◌==◌, ◌+◌, ◌<◌, ◌≡◌, ◌≢◌, ◌⊎◌, ◌↔◌, refl, true, false, none, some, List, [], ◌∷◌, ◌++◌, arith,
}
use sim_library_v.Prelude.Int.{pos}
use sim_library_v.Align.{align_to_cache_line}
use sim_library_v.Channel
use sim_library_v.Channel.{Op, send, receive, Reply, sent, got}
use sim_library_v.Memory.{blit, slice}
use sim_library_v.Os.{null, at, Ledger, enter_all}
use sim_library_v.Sim.Checksum.{checksum_disabled, calculate_checksum}
use sim_library_v.Sim.Corruption.{checksum_valid_detects}
use sim_library_v.Sim.Header.{Segment, header_magic, header_version, calculate_shm_size}
use sim_library_v.Sim.Writer
use sim_library_v.Sim.Writer.{Writer}
use sim_library_v.Sim.Reader
use sim_library_v.Sim.Reader.{Reader}
use sim_library_v.Sim.Valid.{view, front_start, IsAttached, IsConnected}
use sim_library_v.Sim.Write.{write_refines, write_keeps_front, write_rejects}
use sim_library_v.Sim.Read.{read_refines, read_counts_dropped}
use sim_library_v.Sim.Roundtrip.{write-read, enabling_flags_intact_frame}
use sim_library_v.Sim.Init.{writer_init_lem, reader_init_lem}
use sim_library_v.Sim.Lifecycle.{writer_lifecycle, reader_lifecycle, move_lifecycle}

-- The check value of CRC-32 for "123456789".
check_value :
    calculate_checksum (b'1' ∷ b'2' ∷ b'3' ∷ b'4' ∷ b'5' ∷ b'6' ∷ b'7' ∷ b'8' ∷ b'9' ∷ [])
    ≡ 0xCBF43926
unfolding calculate_checksum
check_value = refl

checksum_valid_detects_example :
    Reader.checksum_valid true (calculate_checksum (1 ∷ 7 ∷ 2 ∷ [])) (1 ∷ 8 ∷ 2 ∷ [])
    ≡ (calculate_checksum (1 ∷ 7 ∷ 2 ∷ []) == checksum_disabled)
checksum_valid_detects_example =
    checksum_valid_detects (1 ∷ []) (2 ∷ []) 7 8 (omega arith) (omega arith) (omega arith)
      (omega arith) (omega arith)

-- A frame whose checksum is the value that stands for a disabled one, with a byte changed.
unseen :
    Reader.checksum_valid true
      (calculate_checksum (255 ∷ 255 ∷ 255 ∷ 255 ∷ []))
      (255 ∷ 0 ∷ 255 ∷ 255 ∷ [])
    ≡ true
unfolding Reader.checksum_valid calculate_checksum
unseen = refl

abbrev pub blank : Segment
blank = record {
  size = 0;
  header = record {
    magic = 0;
    version = 0;
    capacity = 0;
    front_idx = 0;
    frame = record { at_0 = 0; at_1 = 0 };
    timestamp_ns = record { at_0 = pos 0; at_1 = pos 0 };
    published_length = 0;
    writer_heartbeat_ns = pos 0;
    checksum = record { at_0 = 0; at_1 = 0 };
    checksum_enabled = false;
  };
  mem = λ a. 0;
}

abbrev pub answers : Writer.Answers
answers = record { opened = some 3; truncated = true; mapped = some 4096; now = pos 5 }

abbrev pub writer : Writer
writer = record {
  shm_name = "/cam";
  max_size = 4;
  enable_checksum = true;
  is_initialized = true;
  shm_fd = some 3;
  shm_ptr = at 4096;
  shm_size = 240;
  header = at 4096;
  buffer = record { at_0 = some 128; at_1 = some 132 };
  frame_count = 0;
}

abbrev pub reader : Reader
reader = record {
  shm_name = "/cam";
  max_size = 4;
  is_initialized = true;
  shm_fd = some 3;
  shm_ptr = at 8192;
  shm_size = 240;
  header = at 8192;
  buffer = record { at_0 = some 128; at_1 = some 132 };
  last_frame = 0;
  last_timestamp_ns = pos 0;
  dropped_frames = 0;
  last_checksum_valid = true;
}

abbrev pub segment : Segment
segment = record blank {
  size = 240;
  header = record {
    magic = header_magic;
    version = header_version;
    capacity = 4;
    front_idx = 0;
    frame = record { at_0 = 0; at_1 = 0 };
    timestamp_ns = record { at_0 = pos 0; at_1 = pos 0 };
    published_length = 0;
    writer_heartbeat_ns = pos 5;
    checksum = record { at_0 = checksum_disabled; at_1 = checksum_disabled };
    checksum_enabled = true;
  };
}

init_runs :
    let i = Writer.init answers (Writer.new "/cam" 4 true) blank in
    (i.result ≡ true) × (i.writer ≡ writer) × (i.segment ≡ segment)
unfolding Writer.init Writer.new align_to_cache_line calculate_shm_size
init_runs = (refl, refl, refl)

pub writer-IsAttached : IsAttached writer segment
writer-IsAttached = record {
  segment = omega arith;
  ready = refl;
  base = 4096;
  mapped = refl;
  first = refl;
  second = refl;
  capacity = refl;
  reach = omega arith;
  count = refl;
}

pub reader-IsConnected : IsConnected reader segment
reader-IsConnected = record {
  segment = omega arith;
  ready = refl;
  base = 8192;
  mapped = refl;
  first = refl;
  second = refl;
  capacity = refl;
  reach = omega arith;
}

abbrev pub bytes : List ℕ
bytes = 10 ∷ 20 ∷ 30 ∷ []

-- The writer and the segment after `write` of three bytes.
abbrev pub writer_1 : Writer
writer_1 = record writer { frame_count = 1 }

abbrev pub segment_1 : Segment
segment_1 = record {
  size = 240;
  header = record segment.header {
    front_idx = 1;
    frame = record { at_0 = 0; at_1 = 1 };
    timestamp_ns = record { at_0 = pos 0; at_1 = pos 6 };
    published_length = 3;
    writer_heartbeat_ns = pos 6;
    checksum = record { at_0 = checksum_disabled; at_1 = calculate_checksum bytes };
  };
  mem = blit (λ a. 0) 132 bytes;
}

pub write_runs :
    Writer.write (pos 6) writer segment (some bytes) 3 ≡ some (true, writer_1, segment_1)
unfolding Writer.write
write_runs = refl

pub reader_1-IsConnected : IsConnected reader segment_1
reader_1-IsConnected = record {
  segment = omega arith;
  ready = refl;
  base = 8192;
  mapped = refl;
  first = refl;
  second = refl;
  capacity = refl;
  reach = omega arith;
}
