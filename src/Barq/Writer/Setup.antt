-- ===== src/Barq/Writer/Setup.antt =====
-- `BARQ::Writer::init`.
use sim_library_v.Prelude.{
  ℕ, ◌+◌, Bool, true, false, Option, none, some, List, [], ◌∷◌, ◌++◌, ◌&&◌, leb, add64, mul64,
  if◌then◌else◌,
}
use sim_library_v.Prelude.Int.{ℤ, pos}
use sim_library_v.Align.{align_up, cache_line, huge_page}
use sim_library_v.Os.{null, failed, at, Call, shm_unlink, shm_open, ftruncate, mmap, advise, close}
use sim_library_v.Barq.Header.{Header, Segment, header_magic, header_version, sizeof_header}
use sim_library_v.Barq.Writer.State.{Writer}

-- What the system calls of `init` answer, the one with `MAP_HUGETLB` apart, and the clock.
pub record Answers : Type 0 where
  pub opened : Option ℕ
  pub truncated : Bool
  pub huge_mapped : Option ℕ
  pub mapped : Option ℕ
  pub now : ℤ

pub record Init : Type 0 where
  pub result : Bool
  pub writer : Writer
  pub segment : Segment
  pub calls : List Call

-- `shm_size_`: the header and two rounded buffers, rounded to huge pages if these are to be used.
unfoldable pub segment_size : Bool → ℕ → ℕ
segment_size use_huge_pages max_size =
    let size = add64 sizeof_header (mul64 (align_up max_size cache_line) 2) in
    if use_huge_pages && leb huge_page size then align_up size huge_page else size

-- The stores into the header.
unfoldable pub init_header : Writer → ℤ → Header
init_header w now = record {
  magic = header_magic;
  version = header_version;
  capacity = w.max_size;
  buffer_offset = sizeof_header;
  flags = if w.huge_pages_active then 1 else 0;
  front_idx = 0;
  seq0 = 0;
  ts0 = pos 0;
  len0 = 0;
  seq1 = 0;
  ts1 = pos 0;
  len1 = 0;
  heartbeat_ns = now;
  total_writes = 0;
  total_bytes = 0;
}

-- `init` from the mapping at `base` on.
unfoldable pub init_mapped : Answers → Writer → Segment → List Call → ℕ → Init
unfolding init_header
init_mapped a w s calls base = record {
  result = true;
  writer = record w {
    initialized = true;
    ptr = at base;
    header = at base;
    buffer = record {
      at_0 = some sizeof_header;
      at_1 = some (sizeof_header + align_up w.max_size cache_line);
    };
  };
  segment = record s { header = init_header w a.now };
  calls =
      calls
      ++ advise (at base) w.shm_size
        ∷ advise (at base) w.shm_size
        ∷ advise (at base) w.shm_size
        ∷ [];
}

-- The mapping with regular pages: `ptr_` is null or `MAP_FAILED` there, since an object that is
-- not initialized holds no mapping.
unfoldable pub init_fallback : Answers → Writer → Segment → ℕ → List Call → Option ℕ → Init
unfolding init_mapped
init_fallback a w s fd calls none = record {
  result = false;
  writer = record w { ptr = null };
  segment = s;
  calls = calls ++ mmap fd w.shm_size none ∷ close fd ∷ shm_unlink w.name ∷ [];
}
init_fallback a w s fd calls (some base) =
    init_mapped a (record w { huge_pages_active = false }) s
      (calls ++ mmap fd w.shm_size (some base) ∷ []) base

-- The mapping with huge pages, where it was tried.
unfoldable pub init_huge : Answers → Writer → Segment → ℕ → List Call → Option ℕ → Init
unfolding init_mapped init_fallback
init_huge a w s fd calls none =
    init_fallback a (record w { ptr = failed }) s fd (calls ++ mmap fd w.shm_size none ∷ [])
      a.mapped
init_huge a w s fd calls (some base) =
    init_mapped a (record w { huge_pages_active = true }) s
      (calls ++ mmap fd w.shm_size (some base) ∷ []) base

-- `init` from the answer of `ftruncate` on, which sets the size of the object.
unfoldable pub init_truncated : Answers → Writer → Segment → ℕ → List Call → Bool → Init
unfolding init_fallback init_huge
init_truncated a w s fd calls false = record {
  result = false;
  writer = w;
  segment = s;
  calls = calls ++ close fd ∷ shm_unlink w.name ∷ [];
}
init_truncated a w s fd calls true =
    if w.use_huge_pages && leb huge_page w.shm_size
    then init_huge a w (record s { size = w.shm_size }) fd calls a.huge_mapped
    else init_fallback a w (record s { size = w.shm_size }) fd calls a.mapped

unfoldable pub init_opened : Answers → Writer → Segment → List Call → Option ℕ → Init
unfolding init_truncated
init_opened a w s calls none = record {
  result = false;
  writer = record w { fd = none };
  segment = s;
  calls = calls;
}
init_opened a w s calls (some fd) =
    init_truncated a (record w { fd = some fd }) s fd
      (calls ++ ftruncate fd w.shm_size a.truncated ∷ []) a.truncated

unfoldable pub init : Answers → Writer → Segment → Init
unfolding init_opened
init a w s =
    if w.initialized
    then record { result = true; writer = w; segment = s; calls = [] }
    else init_opened a (record w { shm_size = segment_size w.use_huge_pages w.max_size }) s
        (shm_unlink w.name ∷ shm_open w.name a.opened ∷ []) a.opened
