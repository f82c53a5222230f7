-- ===== src/Barq/Reader.antt =====
-- `BARQ::Reader` of src/barq.cpp, in the style of `Barq.Writer`: `none` is undefined behaviour.
use sim_library_v.Prelude.{
  ℕ, ◌+◌, Bool, true, false, Option, none, some, List, [], ◌∷◌, ◌++◌, String, ◌&&◌, not, ltb, ◌==◌,
  add64, sub64, if◌then◌else◌,
}
use sim_library_v.Prelude.Int.{ℤ}
use sim_library_v.Align.{align_up, cache_line}
use sim_library_v.Heartbeat.{is_recent}
use sim_library_v.Memory.{◌>>=◌, Pointer, Two, pick}
use sim_library_v.Os.{
  Address, null, at, Call, shm_open, fstat, mmap, advise, munmap, close, close_if, munmap_if,
}
use sim_library_v.Barq.Header.{Header, Segment, header_of, header_magic, sizeof_header}

pub record Reader : Type 0 where
  pub name : String
  pub max_size : ℕ
  pub initialized : Bool
  pub fd : Option ℕ
  pub ptr : Address
  pub shm_size : ℕ
  pub header : Address
  pub buffer : Two Pointer
  pub last_seq : ℕ
  pub dropped : ℕ

-- The constructor.
unfoldable pub new : String → ℕ → Reader
new name max_size = record {
  name = name;
  max_size = max_size;
  initialized = false;
  fd = none;
  ptr = null;
  shm_size = 0;
  header = null;
  buffer = record { at_0 = none; at_1 = none };
  last_seq = 0;
  dropped = 0;
}

-- What the system calls of `init` answer; `fstat` gives the size of the object.
pub record Answers : Type 0 where
  pub opened : Option ℕ
  pub stat : Option ℕ
  pub mapped : Option ℕ

pub record Init : Type 0 where
  pub result : Bool
  pub reader : Reader
  pub calls : List Call

-- `init` from the test of the magic number on; `header_` is set.
init_checked : Reader → ℕ → ℕ → List Call → Bool → Init
init_checked r fd base calls false = record {
  result = false;
  reader = record r { ptr = null; fd = none; header = at base };
  calls = calls ++ munmap (at base) r.shm_size ∷ close fd ∷ [];
}
init_checked r fd base calls true = record {
  result = true;
  reader = record r {
    initialized = true;
    fd = some fd;
    ptr = at base;
    header = at base;
    buffer = record {
      at_0 = some sizeof_header;
      at_1 = some (sizeof_header + align_up r.max_size cache_line);
    };
  };
  calls = calls ++ advise (at base) r.shm_size ∷ advise (at base) r.shm_size ∷ [];
}

init_mapped : Reader → Segment → ℕ → List Call → Option ℕ → Init
unfolding init_checked
init_mapped r s fd calls none = record {
  result = false;
  reader = record r { fd = none; ptr = null };
  calls = calls ++ close fd ∷ [];
}
init_mapped r s fd calls (some base) = init_checked r fd base calls (s.header.magic == header_magic)

init_stat : Answers → Reader → Segment → ℕ → List Call → Option ℕ → Init
unfolding init_mapped
init_stat a r s fd calls none = record {
  result = false;
  reader = record r { fd = none };
  calls = calls ++ close fd ∷ [];
}
init_stat a r s fd calls (some size) =
    init_mapped (record r { shm_size = size }) s fd (calls ++ mmap fd size a.mapped ∷ []) a.mapped

init_opened : Answers → Reader → Segment → Option ℕ → Init
unfolding init_stat
init_opened a r s none = record {
  result = false;
  reader = record r { fd = none };
  calls = shm_open r.name none ∷ [];
}
init_opened a r s (some fd) =
    init_stat a r s fd (shm_open r.name (some fd) ∷ fstat fd a.stat ∷ []) a.stat

unfoldable pub init : Answers → Reader → Segment → Init
unfolding init_opened
init a r s =
    if r.initialized
    then record { result = true; reader = r; calls = [] }
    else init_opened a r s a.opened

-- What `getLatest` hands out: the pointer, the size and the time stamp.
pub record Latest : Type 0 where
  pub pointer : Pointer
  pub size : ℕ
  pub timestamp_ns : ℤ

-- The metadata of the front buffer.
pub record Metadata : Type 0 where
  pub seq : ℕ
  pub len : ℕ
  pub ts : ℤ

unfoldable pub load_metadata : Header → Metadata
load_metadata h =
    if h.front_idx == 0
    then record { seq = h.seq0; len = h.len0; ts = h.ts0 }
    else record { seq = h.seq1; len = h.len1; ts = h.ts1 }

-- `dropped_` after frame `seq`: the first frame seen counts none.
unfoldable pub count_dropped : ℕ → ℕ → ℕ → ℕ
count_dropped last seq dropped =
    if ltb 0 last && ltb (add64 last 1) seq
    then add64 dropped (sub64 (sub64 seq last) 1)
    else dropped

-- The result is `none` where the code returns `nullptr` early.
unfoldable pub get_latest : Reader → Segment → Option (Option Latest × Reader)
unfolding load_metadata count_dropped
get_latest r s = if not r.initialized then some (none, r) else do
  h ← header_of r.header s
  let m = load_metadata h
  if m.seq == r.last_seq then some (none, r) else do
    pointer ← pick h.front_idx r.buffer
    some (
      some (record { pointer = pointer; size = m.len; timestamp_ns = m.ts }),
      record r { dropped = count_dropped r.last_seq m.seq r.dropped; last_seq = m.seq },
    )

unfoldable pub is_writer_alive : ℤ → Reader → Segment → ℕ → Option Bool
unfolding is_recent
is_writer_alive now r s timeout_ms =
    if not r.initialized
    then some false
    else do h ← header_of r.header s; some (is_recent now h.heartbeat_ns timeout_ms)

-- The destructor's calls.
unfoldable pub drop : Reader → List Call
drop r = munmap_if r.ptr r.shm_size ++ close_if r.fd
