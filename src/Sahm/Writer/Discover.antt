-- ===== src/Sahm/Writer/Discover.antt =====
-- `DirectWriter::discoverReaders`.
use sim_library_v.Prelude.{
  ℕ, true, false, Option, none, some, List, [], ◌∷◌, ◌++◌, String, ◌&&◌, not, ◌==◌, add64, mul64,
  if◌then◌else◌,
}
use sim_library_v.Os.{at, is_null, Call, shm_open, mmap, close, close_if, munmap_if}
use sim_library_v.Sahm.Ring.{sizeof_header, sizeof_slot}
use sim_library_v.Sahm.Control.{Control, Entry, default_ring_size}
use sim_library_v.Sahm.Writer.State.{Info, Writer}

-- What `shm_open` of a reader's ring buffer answers, the descriptor with the object, and `mmap`.
pub record Find : Type 0 where
  pub opened : Option (ℕ × ℕ)
  pub mapped : Option ℕ

-- The mapping of a ring buffer that `shm_open` found.
unfoldable pub attach : ℕ → Entry → Info → ℕ → ℕ → Option ℕ → Info × List Call
attach max_slot_size e i fd object mapped =
    let ring_size = if e.ring_size == 0 then default_ring_size else e.ring_size in
    let slot_total = add64 sizeof_slot max_slot_size in
    let buf_size = add64 sizeof_header (mul64 ring_size slot_total) in
    elim mapped [
      | none ↦ (i, mmap fd buf_size none ∷ close fd ∷ [])
      | some base ↦ (
        record {
          fd = some fd;
          ptr = at base;
          size = buf_size;
          object = object;
          ring_size = ring_size;
          valid = true;
        },
        mmap fd buf_size (some base) ∷ [],
      )
    ]

-- A place that is active and not yet valid; one without a name, or whose object is not found,
-- stays.
unfoldable pub discover_new : ℕ → Find → Entry → Info → Option String → Info × List Call
unfolding attach
discover_new max_slot_size f e i none = (i, [])
discover_new max_slot_size f e i (some name) = elim f.opened [
  | none ↦ (i, shm_open name none ∷ [])
  | some found ↦
      let (info, calls) = attach max_slot_size e i found.0 found.1 f.mapped in
      (info, shm_open name (some found.0) ∷ calls)
]

-- The body of the loop in `discoverReaders`.
unfoldable pub discover : ℕ → Find → Entry → Info → Info × List Call
unfolding discover_new
discover max_slot_size f e i =
    if e.active && not i.valid
    then discover_new max_slot_size f e i e.name
    else if not e.active && i.valid
    then (record i { valid = false }, munmap_if i.ptr i.size ++ close_if i.fd)
    else (i, [])

-- The loop: one answer, one entry and one `ReaderInfo` for each place.
unfoldable pub discover_all : ℕ → List Find → List Entry → List Info → List Info × List Call
unfolding discover
discover_all max_slot_size [] es is = (is, [])
discover_all max_slot_size (f ∷ fs) [] is = (is, [])
discover_all max_slot_size (f ∷ fs) (e ∷ es) [] = ([], [])
discover_all max_slot_size (f ∷ fs) (e ∷ es) (i ∷ is) =
    let (info, calls) = discover max_slot_size f e i in
    let (infos, more) = discover_all max_slot_size fs es is in (info ∷ infos, calls ++ more)

unfoldable pub discover_readers : List Find → Writer → Control → Writer × List Call
unfolding discover_all
discover_readers fs w c =
    if is_null w.header
    then (w, [])
    else let (infos, calls) = discover_all w.max_slot_size fs c.entries w.readers in
      (record w { readers = infos }, calls)
