-- ===== src/Barq/Writer/State.antt =====
-- The state of `BARQ::Writer`, and its constructor.
use sim_library_v.Prelude.{ℕ, Bool, false, Option, none, String}
use sim_library_v.Memory.{Pointer, Two}
use sim_library_v.Os.{Address, null}

pub record Writer : Type 0 where
  pub name : String
  pub max_size : ℕ
  pub use_huge_pages : Bool
  pub initialized : Bool
  pub huge_pages_active : Bool
  pub fd : Option ℕ
  pub ptr : Address
  pub shm_size : ℕ
  pub header : Address
  pub buffer : Two Pointer
  pub frame_count : ℕ

-- The constructor.
unfoldable pub new : String → ℕ → Bool → Writer
new name max_size use_huge_pages = record {
  name = name;
  max_size = max_size;
  use_huge_pages = use_huge_pages;
  initialized = false;
  huge_pages_active = false;
  fd = none;
  ptr = null;
  shm_size = 0;
  header = null;
  buffer = record { at_0 = none; at_1 = none };
  frame_count = 0;
}
