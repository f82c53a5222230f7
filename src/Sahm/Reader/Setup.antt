-- ===== src/Sahm/Reader/Setup.antt =====
-- `DirectReader::init`; `none` stands for -1, and pointers into the ring buffer are offsets.
use sim_library_v.Prelude.{
  ℕ, zero, suc, ◌+◌, Bool, true, false, Option, none, some, List, [], ◌∷◌, ◌++◌, String, ◌==◌,
  add32, if◌then◌else◌,
}
use sim_library_v.Prelude.Int.{pos}
use sim_library_v.Os.{
  failed, at, Call, shm_unlink, shm_open, ftruncate, mmap, advise, munmap, close,
}
use sim_library_v.Sahm.Ring.{Ring, Slot, direct_magic, sizeof_header, slot_ptr, set_slot}
use sim_library_v.Sahm.Control.{Control, Entry, claim, sizeof_control}
use sim_library_v.Sahm.Reader.State.{Reader}

-- What the system calls of `init` answer.
pub record Answers : Type 0 where
  pub control_opened : Option ℕ
  pub control_mapped : Option ℕ
  pub buffer_opened : Option ℕ
  pub buffer_truncated : Bool
  pub buffer_mapped : Option ℕ

pub record Init : Type 0 where
  pub result : Bool
  pub reader : Reader
  pub control : Control
  pub ring : Ring
  pub calls : List Call

-- The loop that clears the slots, for the `n` slots from `i` on.
unfoldable pub clear_slots : ℕ → ℕ → ℕ → (ℕ → Slot) → ℕ → Slot
clear_slots total_size zero i slots = slots
clear_slots total_size (suc n) i slots = clear_slots total_size n (i + 1) (
    set_slot (slot_ptr total_size i) (record { sequence = 0; timestamp_ns = pos 0; data_size = 0 })
      slots)

-- The stores into the new ring buffer, whose size `ftruncate` has set.
unfoldable pub init_ring : Reader → Ring → Ring
unfolding clear_slots
init_ring r ring = record ring {
  header = record {
    magic = direct_magic;
    ring_size = r.ring_size;
    slot_data_size = r.max_slot_size;
    slot_total_size = r.slot_total_size;
    write_idx = 0;
    total_writes = 0;
  };
  slots = clear_slots r.slot_total_size r.ring_size 0 ring.slots;
}

-- The registration, with the name as `strncpy` cuts it, and what follows it.
unfoldable pub init_registered :
    Reader → Control → Ring → ℕ → ℕ → ℕ → ℕ → List Call → Option (ℕ × List Entry) → Init
init_registered r c ring fd base buffer_fd buffer calls none = record {
  result = false;
  reader = r;
  control = c;
  ring = ring;
  calls =
      calls
      ++ munmap (at buffer) r.buffer_size
        ∷ close buffer_fd
        ∷ shm_unlink r.my_shm_name
        ∷ munmap (at base) sizeof_control
        ∷ close fd
        ∷ [];
}
init_registered r c ring fd base buffer_fd buffer calls (some (i, entries)) = record {
  result = true;
  reader = record r { my_slot_idx = some i; is_initialized = true };
  control = record c { entries = entries; num_readers = add32 c.num_readers 1 };
  ring = ring;
  calls = calls;
}

-- `init` from the answer of the second `mmap` on.
unfoldable pub init_buffer :
    (String → String) → Reader → Control → Ring → ℕ → ℕ → ℕ → List Call → Option ℕ → Init
unfolding init_registered init_ring
init_buffer cut r c ring fd base buffer_fd calls none = record {
  result = false;
  reader = record r { buffer_ptr = failed };
  control = c;
  ring = ring;
  calls =
      calls
      ++ close buffer_fd
        ∷ shm_unlink r.my_shm_name
        ∷ munmap (at base) sizeof_control
        ∷ close fd
        ∷ [];
}
init_buffer cut r c ring fd base buffer_fd calls (some buffer) =
    init_registered
      (record r {
        buffer_ptr = at buffer;
        ring_header = at buffer;
        slots_base = some sizeof_header;
      })
      c (init_ring r ring) fd base buffer_fd buffer (calls ++ advise (at buffer) r.buffer_size ∷ [])
      (claim (cut r.my_shm_name) r.ring_size 0 c.entries)

unfoldable pub init_truncated :
    (String → String) → Answers → Reader → Control → Ring → ℕ → ℕ → ℕ → List Call → Bool → Init
unfolding init_buffer
init_truncated cut a r c ring fd base buffer_fd calls false = record {
  result = false;
  reader = r;
  control = c;
  ring = ring;
  calls =
      calls
      ++ close buffer_fd
        ∷ shm_unlink r.my_shm_name
        ∷ munmap (at base) sizeof_control
        ∷ close fd
        ∷ [];
}
init_truncated cut a r c ring fd base buffer_fd calls true =
    init_buffer cut r c (record ring { size = r.buffer_size }) fd base buffer_fd
      (calls ++ mmap buffer_fd r.buffer_size a.buffer_mapped ∷ []) a.buffer_mapped

unfoldable pub init_created :
    (String → String) → Answers → Reader → Control → Ring → ℕ → ℕ → List Call → Option ℕ → Init
unfolding init_truncated
init_created cut a r c ring fd base calls none = record {
  result = false;
  reader = record r { buffer_fd = none };
  control = c;
  ring = ring;
  calls = calls ++ munmap (at base) sizeof_control ∷ close fd ∷ [];
}
init_created cut a r c ring fd base calls (some buffer_fd) =
    init_truncated cut a (record r { buffer_fd = some buffer_fd }) c ring fd base buffer_fd
      (calls ++ ftruncate buffer_fd r.buffer_size a.buffer_truncated ∷ []) a.buffer_truncated

-- From the test of the magic number on.
unfoldable pub init_checked :
    (String → String) → Answers → Reader → Control → Ring → ℕ → ℕ → List Call → Bool → Init
unfolding init_created
init_checked cut a r c ring fd base calls false = record {
  result = false;
  reader = r;
  control = c;
  ring = ring;
  calls = calls ++ munmap (at base) sizeof_control ∷ close fd ∷ [];
}
init_checked cut a r c ring fd base calls true =
    init_created cut a r c ring fd base
      (calls ++ shm_unlink r.my_shm_name ∷ shm_open r.my_shm_name a.buffer_opened ∷ [])
      a.buffer_opened

unfoldable pub init_mapped :
    (String → String) → Answers → Reader → Control → Ring → ℕ → List Call → Option ℕ → Init
unfolding init_checked
init_mapped cut a r c ring fd calls none = record {
  result = false;
  reader = record r { control_ptr = failed };
  control = c;
  ring = ring;
  calls = calls ++ close fd ∷ [];
}
init_mapped cut a r c ring fd calls (some base) =
    init_checked cut a (record r { control_ptr = at base; header = at base }) c ring fd base calls
      (c.magic == direct_magic)

unfoldable pub init_opened : (String → String) → Answers → Reader → Control → Ring → Option ℕ → Init
unfolding init_mapped
init_opened cut a r c ring none = record {
  result = false;
  reader = record r { control_fd = none };
  control = c;
  ring = ring;
  calls = shm_open r.channel_name none ∷ [];
}
init_opened cut a r c ring (some fd) =
    init_mapped cut a (record r { control_fd = some fd }) c ring fd
      (shm_open r.channel_name (some fd) ∷ mmap fd sizeof_control a.control_mapped ∷ [])
      a.control_mapped

-- `cut` is what `strncpy` keeps of a name in an entry of `SHM_NAME_LEN` bytes.
unfoldable pub init : (String → String) → Answers → Reader → Control → Ring → Init
unfolding init_opened
init cut a r c ring =
    if r.is_initialized
    then record { result = true; reader = r; control = c; ring = ring; calls = [] }
    else init_opened cut a r c ring a.control_opened
