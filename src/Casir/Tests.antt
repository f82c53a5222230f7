-- ===== src/Casir/Tests.antt =====
-- CASIR at concrete inputs: a segment for payloads of four bytes, with buffers at 384 and 448 of
-- 512 bytes.
mod Calls
mod Life
use sim_library_v.Prelude.{
  ℕ, ◌+◌, ◌*◌, ◌<◌, ◌≡◌, refl, true, false, Option, none, some, List, [], ◌∷◌, arith,
}
use sim_library_v.Prelude.Int.{pos}
use sim_library_v.Align.{align_to_cache_line}
use sim_library_v.Memory.{blit}
use sim_library_v.Os.{null, at, set_affinity, shm_unlink, shm_open, ftruncate}
use sim_library_v.Cache.{HugePagesInfo, should_use_huge_pages}
use sim_library_v.Cache.Info.{CacheInfo, optimal_prefetch_distance}
use sim_library_v.Casir.Config.{Config}
use sim_library_v.Casir.Header.{Segment, casir_magic, casir_version, sizeof_header}
use sim_library_v.Casir.Writer
use sim_library_v.Casir.Writer.{Writer, segment_size, base_size}
use sim_library_v.Casir.Reader
use sim_library_v.Casir.Reader.{Reader}
use sim_library_v.Casir.Valid.{IsAttached, IsConnected}

abbrev pub blank : Segment
blank = record {
  size = 0;
  header = record {
    magic = 0;
    version = 0;
    capacity = 0;
    huge_page_size = 0;
    flags = 0;
    front_idx = 0;
    frame0 = 0;
    timestamp0_ns = pos 0;
    checksum0 = 0;
    frame1 = 0;
    timestamp1_ns = pos 0;
    checksum1 = 0;
    published_length = 0;
    writer_heartbeat_ns = pos 0;
    checksum_enabled = false;
    total_writes = 0;
    total_bytes = 0;
  };
  mem = λ a. 0;
}

abbrev pub pages : HugePagesInfo
pages = record { available = true; usable = true; total = 4; free = 2; page_size = 2 * 1024 * 1024 }

abbrev pub answers : Writer.Answers
answers = record {
  pages = pages;
  pages_later = pages;
  opened = some 3;
  truncated = true;
  huge_mapped = none;
  mapped = some 4096;
}

abbrev pub info : CacheInfo
info = record {
  l1d_size = 32768;
  l1i_size = 32768;
  l2_size = 262144;
  l3_size = 8388608;
  line_size = 64;
  num_cores = 4;
}

abbrev pub config : Config
config = record {
  use_huge_pages = true;
  enable_prefetch = true;
  numa_aware = false;
  cpu_affinity = some 2;
  prefetch_distance = 0;
}

abbrev pub new_writer : Writer
new_writer = Writer.new info "/cam" 4 config

-- The writer and its segment after `init` with these answers: the object is too small for huge
-- pages.
abbrev pub writer : Writer
writer = record {
  shm_name = "/cam";
  max_size = 4;
  config = record config { prefetch_distance = 65536 };
  is_initialized = true;
  shm_fd = some 3;
  shm_ptr = at 4096;
  shm_size = 512;
  using_huge_pages = false;
  header = at 4096;
  buffer = record { at_0 = some 384; at_1 = some 448 };
  frame_count = 0;
  cache_info = info;
}

abbrev pub segment : Segment
segment = record {
  size = 512;
  header = record blank.header { magic = casir_magic; version = casir_version; capacity = 4 };
  mem = λ a. 0;
}

abbrev pub made : Writer.Init
made =
    Writer.init_truncated answers (record new_writer { shm_fd = some 3; shm_size = 512 }) blank 3
      (set_affinity 2 ∷ shm_unlink "/cam" ∷ shm_open "/cam" (some 3) ∷ ftruncate 3 512 true ∷ [])
      true

pub init_runs :
    (Writer.init answers new_writer blank ≡ some made)
    × (made.result ≡ true)
    × (made.writer ≡ writer)
    × (made.segment ≡ segment)
unfolding Writer.init Writer.new Writer.auto_distance optimal_prefetch_distance segment_size
    base_size should_use_huge_pages align_to_cache_line Writer.init_opened Writer.init_truncated
    Writer.init_huge Writer.init_regular Writer.init_mapped Writer.init_header
init_runs = (refl, refl, refl, refl)

abbrev pub reader : Reader
reader = record {
  shm_name = "/cam";
  max_size = 4;
  config = config;
  is_initialized = true;
  shm_fd = some 3;
  shm_ptr = at 8192;
  shm_size = 512;
  using_huge_pages = false;
  header = at 8192;
  buffer = record { at_0 = some 384; at_1 = some 448 };
  last_frame = 0;
  last_timestamp_ns = pos 0;
  dropped_frames = 0;
  last_checksum_valid = true;
  zero_copy_active = false;
  cache_info = info;
}

pub stride_4 : align_to_cache_line 4 ≡ 64
unfolding align_to_cache_line
stride_4 = refl

pub writer-IsAttached : IsAttached writer segment
writer-IsAttached = record {
  segment = ground (arith, stride_4);
  ready = refl;
  base = 4096;
  header = refl;
  mapped = refl;
  first = refl;
  second = ground (arith, stride_4);
  capacity = refl;
  reach = ground (arith, stride_4);
  count = refl;
}

pub reader-IsConnected : IsConnected reader segment
reader-IsConnected = record {
  segment = ground (arith, stride_4);
  ready = refl;
  base = 8192;
  header = refl;
  mapped = refl;
  first = refl;
  second = ground (arith, stride_4);
  capacity = refl;
  reach = ground (arith, stride_4);
}

abbrev pub bytes : List ℕ
bytes = 10 ∷ 20 ∷ 30 ∷ []

-- The segment after `write` of three bytes.
abbrev pub segment_1 : Segment
segment_1 = record segment {
  header = record segment.header {
    front_idx = 1;
    frame1 = 1;
    timestamp1_ns = pos 6;
    published_length = 3;
    writer_heartbeat_ns = pos 6;
  };
  mem = blit (λ a. 0) 448 bytes;
}

pub write_runs :
    Writer.write (pos 6) writer segment bytes 3
    ≡ some (true, record writer { frame_count = 1 }, segment_1)
unfolding Writer.write Writer.flip Writer.set_frame
write_runs = refl

pub reader_1-IsConnected : IsConnected reader segment_1
reader_1-IsConnected = record {
  segment = ground (arith, stride_4);
  ready = refl;
  base = 8192;
  header = refl;
  mapped = refl;
  first = refl;
  second = ground (arith, stride_4);
  capacity = refl;
  reach = ground (arith, stride_4);
}
