-- ===== src/Casir/Writer/Setup.antt =====
-- `CASIR::Writer::init` and `allocateMemory`.
use sim_library_v.Prelude.{
  ℕ, ◌+◌, Bool, true, false, Option, none, some, List, [], ◌∷◌, ◌++◌, ◌&&◌, add64, mul64,
  if◌then◌else◌,
}
use sim_library_v.Prelude.Int.{pos}
use sim_library_v.Align.{align_to_cache_line, align_to_huge_page, huge_page}
use sim_library_v.Memory.{◌>>=◌}
use sim_library_v.Os.{
  null, at, Call, shm_unlink, shm_open, ftruncate, mmap, advise, set_affinity, close,
}
use sim_library_v.Cache.{HugePagesInfo, should_use_huge_pages}
use sim_library_v.Casir.Header.{Header, Segment, casir_magic, casir_version, sizeof_header}
use sim_library_v.Casir.Writer.State.{Writer}

-- What the system answers: the huge pages as `shouldUseHugePages` and then `allocateMemory` find
-- them, and the system calls, the one with `MAP_HUGETLB` apart.
pub record Answers : Type 0 where
  pub pages : HugePagesInfo
  pub pages_later : HugePagesInfo
  pub opened : Option ℕ
  pub truncated : Bool
  pub huge_mapped : Option ℕ
  pub mapped : Option ℕ

pub record Init : Type 0 where
  pub result : Bool
  pub writer : Writer
  pub segment : Segment
  pub calls : List Call

-- The header after `memset` and the stores into it; no heartbeat is stored.
unfoldable pub init_header : Writer → Header
init_header w = record {
  magic = casir_magic;
  version = casir_version;
  capacity = w.max_size;
  huge_page_size = if w.using_huge_pages then huge_page else 0;
  flags = if w.using_huge_pages then 1 else 0;
  front_idx = 0;
  frame0 = 0;
  timestamp0_ns = pos 0;
  checksum0 = 0;
  frame1 = 0;
  timestamp1_ns = pos 0;
  checksum1 = 0;
  published_length = 0;
  writer_heartbeat_ns = pos 0;
  checksum_enabled = false;
  total_writes = 0;
  total_bytes = 0;
}

-- `init` from the success of `allocateMemory` on.
unfoldable pub init_mapped : Writer → Segment → List Call → ℕ → Init
unfolding init_header
init_mapped w s calls base = record {
  result = true;
  writer = record w {
    is_initialized = true;
    shm_ptr = at base;
    header = at base;
    buffer = record {
      at_0 = some sizeof_header;
      at_1 = some (sizeof_header + align_to_cache_line w.max_size);
    };
  };
  segment = record s { header = init_header w };
  calls = calls;
}

-- `allocateMemory` with regular pages.
unfoldable pub init_regular : Writer → Segment → ℕ → List Call → Option ℕ → Init
unfolding init_mapped
init_regular w s fd calls none = record {
  result = false;
  writer = record w { shm_ptr = null };
  segment = s;
  calls = calls ++ mmap fd w.shm_size none ∷ close fd ∷ shm_unlink w.shm_name ∷ [];
}
init_regular w s fd calls (some base) =
    init_mapped (record w { using_huge_pages = false }) s
      (calls
        ++ mmap fd w.shm_size (some base)
          ∷ advise (at base) w.shm_size
          ∷ advise (at base) w.shm_size
          ∷ advise (at base) w.shm_size
          ∷ [])
      base

-- `allocateMemory` where it tries huge pages first.
unfoldable pub init_huge : Answers → Writer → Segment → ℕ → List Call → Option ℕ → Init
unfolding init_mapped init_regular
init_huge a w s fd calls none = init_regular w s fd (calls ++ mmap fd w.shm_size none ∷ []) a.mapped
init_huge a w s fd calls (some base) =
    init_mapped (record w { using_huge_pages = true }) s
      (calls ++ mmap fd w.shm_size (some base) ∷ advise (at base) w.shm_size ∷ []) base

unfoldable pub init_truncated : Answers → Writer → Segment → ℕ → List Call → Bool → Init
unfolding init_huge init_regular
init_truncated a w s fd calls false = record {
  result = false;
  writer = w;
  segment = s;
  calls = calls ++ close fd ∷ shm_unlink w.shm_name ∷ [];
}
init_truncated a w s fd calls true =
    if w.config.use_huge_pages && a.pages_later.usable
    then init_huge a w (record s { size = w.shm_size }) fd calls a.huge_mapped
    else init_regular w (record s { size = w.shm_size }) fd calls a.mapped

unfoldable pub init_opened : Answers → Writer → Segment → List Call → Option ℕ → Init
unfolding init_truncated
init_opened a w s calls none = record {
  result = false;
  writer = record w { shm_fd = none };
  segment = s;
  calls = calls;
}
init_opened a w s calls (some fd) =
    init_truncated a (record w { shm_fd = some fd }) s fd
      (calls ++ ftruncate fd w.shm_size a.truncated ∷ []) a.truncated

-- The header and two rounded buffers.
unfoldable pub base_size : ℕ → ℕ
base_size max_size = add64 sizeof_header (mul64 (align_to_cache_line max_size) 2)

-- `shm_size_`, rounded to huge pages where these are to be used.
unfoldable pub segment_size : HugePagesInfo → Bool → ℕ → Option ℕ
unfolding base_size
segment_size pages use_huge_pages max_size = do
  beneficial ←
      if use_huge_pages then should_use_huge_pages pages (base_size max_size) else some false
  some (if beneficial then align_to_huge_page (base_size max_size) else base_size max_size)

abbrev pub affinity : Option ℕ → List Call
affinity none = []
affinity (some cpu) = set_affinity cpu ∷ []

unfoldable pub init : Answers → Writer → Segment → Option Init
unfolding init_opened segment_size
init a w s =
    if w.is_initialized
    then some (record { result = true; writer = w; segment = s; calls = [] })
    else do
      size ← segment_size a.pages w.config.use_huge_pages w.max_size
      some (
          init_opened a (record w { shm_size = size }) s
            (affinity w.config.cpu_affinity
              ++ shm_unlink w.shm_name ∷ shm_open w.shm_name a.opened ∷ [])
            a.opened)
