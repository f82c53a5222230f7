-- ===== src/Sahm/Reader/State.antt =====
-- The state of `DirectReader`, and its constructor.
use sim_library_v.Prelude.{ℕ, Bool, false, Option, none, String, add64, mul64}
use sim_library_v.Memory.{Pointer}
use sim_library_v.Os.{Address, null}
use sim_library_v.Sahm.Ring.{sizeof_header, sizeof_slot}

pub record Reader : Type 0 where
  pub channel_name : String
  pub my_shm_name : String
  pub max_slot_size : ℕ
  pub ring_size : ℕ
  pub is_initialized : Bool
  pub my_slot_idx : Option ℕ
  pub control_fd : Option ℕ
  pub control_ptr : Address
  pub header : Address
  pub buffer_fd : Option ℕ
  pub buffer_ptr : Address
  pub buffer_size : ℕ
  pub ring_header : Address
  pub slots_base : Pointer
  pub slot_total_size : ℕ

-- The constructor; `my_shm_name` is the channel name with `_reader_` and the process number.
unfoldable pub new : String → String → ℕ → ℕ → Reader
new channel_name my_shm_name max_slot_size ring_size =
    let slot_total_size = add64 sizeof_slot max_slot_size in
    record {
      channel_name = channel_name;
      my_shm_name = my_shm_name;
      max_slot_size = max_slot_size;
      ring_size = ring_size;
      is_initialized = false;
      my_slot_idx = none;
      control_fd = none;
      control_ptr = null;
      header = null;
      buffer_fd = none;
      buffer_ptr = null;
      buffer_size = add64 sizeof_header (mul64 ring_size slot_total_size);
      ring_header = null;
      slots_base = none;
      slot_total_size = slot_total_size;
    }
