-- ===== src/Casir/Reader/Setup.antt =====
-- `CASIR::Reader::init`.
use sim_library_v.Prelude.{
  ℕ, ◌+◌, Bool, true, false, Option, none, some, List, [], ◌∷◌, ◌++◌, ◌==◌, if◌then◌else◌,
}
use sim_library_v.Align.{align_to_cache_line}
use sim_library_v.Os.{null, at, Call, shm_open, fstat, mmap, munmap, close}
use sim_library_v.Casir.Header.{Segment, casir_magic, sizeof_header}
use sim_library_v.Casir.Writer.{affinity}
use sim_library_v.Casir.Reader.State.{Reader}

-- What the system calls of `init` answer; `fstat` gives the size of the object.
pub record Answers : Type 0 where
  pub opened : Option ℕ
  pub stat : Option ℕ
  pub huge_mapped : Option ℕ
  pub mapped : Option ℕ

pub record Init : Type 0 where
  pub result : Bool
  pub reader : Reader
  pub calls : List Call

-- From the test of the magic number on; `header_` is set, and stays set where the test fails.
unfoldable pub init_checked : Reader → ℕ → ℕ → List Call → Bool → Init
init_checked r fd base calls false = record {
  result = false;
  reader = record r { shm_ptr = null; shm_fd = none; header = at base };
  calls = calls ++ munmap (at base) r.shm_size ∷ close fd ∷ [];
}
init_checked r fd base calls true = record {
  result = true;
  reader = record r {
    is_initialized = true;
    shm_fd = some fd;
    shm_ptr = at base;
    header = at base;
    buffer = record {
      at_0 = some sizeof_header;
      at_1 = some (sizeof_header + align_to_cache_line r.max_size);
    };
  };
  calls = calls;
}

-- The mapping with regular pages, where there is none yet.
unfoldable pub init_regular : Reader → Segment → ℕ → List Call → Option ℕ → Init
unfolding init_checked
init_regular r s fd calls none = record {
  result = false;
  reader = record r { shm_fd = none; shm_ptr = null };
  calls = calls ++ mmap fd r.shm_size none ∷ close fd ∷ [];
}
init_regular r s fd calls (some base) =
    init_checked (record r { using_huge_pages = false }) fd base
      (calls ++ mmap fd r.shm_size (some base) ∷ []) (s.header.magic == casir_magic)

-- The mapping with huge pages, where it is tried.
unfoldable pub init_huge : Answers → Reader → Segment → ℕ → List Call → Option ℕ → Init
unfolding init_checked init_regular
init_huge a r s fd calls none = init_regular r s fd (calls ++ mmap fd r.shm_size none ∷ []) a.mapped
init_huge a r s fd calls (some base) =
    init_checked (record r { using_huge_pages = true }) fd base
      (calls ++ mmap fd r.shm_size (some base) ∷ []) (s.header.magic == casir_magic)

unfoldable pub init_stat : Answers → Reader → Segment → ℕ → List Call → Option ℕ → Init
unfolding init_huge init_regular
init_stat a r s fd calls none = record {
  result = false;
  reader = record r { shm_fd = none };
  calls = calls ++ close fd ∷ [];
}
init_stat a r s fd calls (some size) =
    if r.config.use_huge_pages
    then init_huge a (record r { shm_size = size }) s fd calls a.huge_mapped
    else init_regular (record r { shm_size = size }) s fd calls a.mapped

unfoldable pub init_opened : Answers → Reader → Segment → List Call → Option ℕ → Init
unfolding init_stat
init_opened a r s calls none = record {
  result = false;
  reader = record r { shm_fd = none };
  calls = calls ++ shm_open r.shm_name none ∷ [];
}
init_opened a r s calls (some fd) =
    init_stat a r s fd (calls ++ shm_open r.shm_name (some fd) ∷ fstat fd a.stat ∷ []) a.stat

-- An object that is not initialized holds no mapping.
unfoldable pub init : Answers → Reader → Segment → Init
unfolding init_opened
init a r s =
    if r.is_initialized
    then record { result = true; reader = r; calls = [] }
    else init_opened a r s (affinity r.config.cpu_affinity) a.opened
