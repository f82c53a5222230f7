-- ===== src/Casir/Reader/State.antt =====
-- The state of `CASIR::Reader`, and its constructor.
use sim_library_v.Prelude.{ℕ, Bool, true, false, Option, none, String}
use sim_library_v.Prelude.Int.{ℤ, pos}
use sim_library_v.Memory.{Pointer, Two}
use sim_library_v.Os.{Address, null}
use sim_library_v.Cache.Info.{CacheInfo}
use sim_library_v.Casir.Config.{Config}
use sim_library_v.Casir.Writer.{auto_distance}

pub record Reader : Type 0 where
  pub shm_name : String
  pub max_size : ℕ
  pub config : Config
  pub is_initialized : Bool
  pub shm_fd : Option ℕ
  pub shm_ptr : Address
  pub shm_size : ℕ
  pub using_huge_pages : Bool
  pub header : Address
  pub buffer : Two Pointer
  pub last_frame : ℕ
  pub last_timestamp_ns : ℤ
  pub dropped_frames : ℕ
  pub last_checksum_valid : Bool
  pub zero_copy_active : Bool
  pub cache_info : CacheInfo

-- The constructor; `info` is what `detectCacheInfo` finds.
unfoldable pub new : CacheInfo → String → ℕ → Config → Reader
unfolding auto_distance
new info shm_name max_size config = record {
  shm_name = shm_name;
  max_size = max_size;
  config = auto_distance info config;
  is_initialized = false;
  shm_fd = none;
  shm_ptr = null;
  shm_size = 0;
  using_huge_pages = false;
  header = null;
  buffer = record { at_0 = none; at_1 = none };
  last_frame = 0;
  last_timestamp_ns = pos 0;
  dropped_frames = 0;
  last_checksum_valid = true;
  zero_copy_active = false;
  cache_info = info;
}
