-- ===== src/Sahm/Writer/State.antt =====
-- The state of `DirectWriter`, and its constructor.
use sim_library_v.Prelude.{ℕ, zero, suc, Bool, false, Option, none, List, [], ◌∷◌, String}
use sim_library_v.Os.{Address, null}
use sim_library_v.Sahm.Ring.{Ring}
use sim_library_v.Sahm.Control.{Entry, sizeof_control}

-- `ReaderInfo`: `object` is the object that `ptr` maps; `ring_header` and `slots_base` are `ptr`
-- and the end of the header there.
pub record Info : Type 0 where
  pub fd : Option ℕ
  pub ptr : Address
  pub size : ℕ
  pub object : ℕ
  pub ring_size : ℕ
  pub valid : Bool

pub record Writer : Type 0 where
  pub channel_name : String
  pub max_slot_size : ℕ
  pub is_initialized : Bool
  pub control_fd : Option ℕ
  pub control_ptr : Address
  pub control_size : ℕ
  pub header : Address
  pub readers : List Info

-- The ring buffers of the system.
abbrev pub Rings : Type 0
Rings = ℕ → Ring

-- The constructor.
unfoldable pub new : String → ℕ → Writer
new channel_name max_slot_size = record {
  channel_name = channel_name;
  max_slot_size = max_slot_size;
  is_initialized = false;
  control_fd = none;
  control_ptr = null;
  control_size = sizeof_control;
  header = null;
  readers = [];
}

abbrev pub replicate {ℓ} : {A : Type ℓ} → ℕ → A → List A
replicate zero a = []
replicate (suc n) a = a ∷ replicate n a

abbrev pub no_entry : Entry
no_entry = record { name = none; active = false; ring_size = 0 }

abbrev pub no_info : Info
no_info = record { fd = none; ptr = null; size = 0; object = 0; ring_size = 0; valid = false }
