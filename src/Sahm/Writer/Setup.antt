-- ===== src/Sahm/Writer/Setup.antt =====
-- `DirectWriter::init`.
use sim_library_v.Prelude.{
  ℕ, Bool, true, false, Option, none, some, List, [], ◌∷◌, ◌++◌, if◌then◌else◌,
}
use sim_library_v.Prelude.Int.{ℤ}
use sim_library_v.Os.{failed, at, Call, shm_unlink, shm_open, ftruncate, mmap, close}
use sim_library_v.Sahm.Ring.{direct_magic}
use sim_library_v.Sahm.Control.{Control, max_readers}
use sim_library_v.Sahm.Writer.State.{Writer, replicate, no_entry, no_info}

-- What the system calls of `init` answer, and the clock.
pub record Answers : Type 0 where
  pub opened : Option ℕ
  pub truncated : Bool
  pub mapped : Option ℕ
  pub now : ℤ

pub record Init : Type 0 where
  pub result : Bool
  pub writer : Writer
  pub control : Control
  pub calls : List Call

-- `init` from the answer of `mmap` on.
unfoldable pub init_mapped : Answers → Writer → Control → ℕ → List Call → Option ℕ → Init
init_mapped a w c fd calls none = record {
  result = false;
  writer = record w { control_ptr = failed };
  control = c;
  calls = calls ++ close fd ∷ shm_unlink w.channel_name ∷ [];
}
init_mapped a w c fd calls (some base) = record {
  result = true;
  writer = record w {
    is_initialized = true;
    control_ptr = at base;
    header = at base;
    readers = replicate max_readers no_info;
  };
  control = record {
    magic = direct_magic;
    version = 2;
    max_slot_size = w.max_slot_size;
    num_readers = 0;
    writer_heartbeat_ns = a.now;
    entries = replicate max_readers no_entry;
  };
  calls = calls;
}

unfoldable pub init_truncated : Answers → Writer → Control → ℕ → List Call → Bool → Init
unfolding init_mapped
init_truncated a w c fd calls false = record {
  result = false;
  writer = w;
  control = c;
  calls = calls ++ close fd ∷ shm_unlink w.channel_name ∷ [];
}
init_truncated a w c fd calls true =
    init_mapped a w c fd (calls ++ mmap fd w.control_size a.mapped ∷ []) a.mapped

unfoldable pub init_opened : Answers → Writer → Control → List Call → Option ℕ → Init
unfolding init_truncated
init_opened a w c calls none = record {
  result = false;
  writer = record w { control_fd = none };
  control = c;
  calls = calls;
}
init_opened a w c calls (some fd) =
    init_truncated a (record w { control_fd = some fd }) c fd
      (calls ++ ftruncate fd w.control_size a.truncated ∷ []) a.truncated

unfoldable pub init : Answers → Writer → Control → Init
unfolding init_opened
init a w c =
    if w.is_initialized
    then record { result = true; writer = w; control = c; calls = [] }
    else init_opened a w c (shm_unlink w.channel_name ∷ shm_open w.channel_name a.opened ∷ [])
        a.opened
