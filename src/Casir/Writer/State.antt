-- ===== src/Casir/Writer/State.antt =====
-- The state of `CASIR::Writer`, and its constructor.
use sim_library_v.Prelude.{ℕ, Bool, false, Option, none, String, ◌==◌, if◌then◌else◌}
use sim_library_v.Memory.{Pointer, Two}
use sim_library_v.Os.{Address, null}
use sim_library_v.Cache.Info.{CacheInfo, optimal_prefetch_distance}
use sim_library_v.Casir.Config.{Config}

pub record Writer : Type 0 where
  pub shm_name : String
  pub max_size : ℕ
  pub config : Config
  pub is_initialized : Bool
  pub shm_fd : Option ℕ
  pub shm_ptr : Address
  pub shm_size : ℕ
  pub using_huge_pages : Bool
  pub header : Address
  pub buffer : Two Pointer
  pub frame_count : ℕ
  pub cache_info : CacheInfo

-- A prefetch distance of 0 means the one that follows from the caches; the same text in the
-- reader.
unfoldable pub auto_distance : CacheInfo → Config → Config
auto_distance info config =
    if config.prefetch_distance == 0
    then record config { prefetch_distance = optimal_prefetch_distance info }
    else config

-- The constructor; `info` is what `detectCacheInfo` finds.
unfoldable pub new : CacheInfo → String → ℕ → Config → Writer
unfolding auto_distance
new info shm_name max_size config = record {
  shm_name = shm_name;
  max_size = max_size;
  config = auto_distance info config;
  is_initialized = false;
  shm_fd = none;
  shm_ptr = null;
  shm_size = 0;
  using_huge_pages = false;
  header = null;
  buffer = record { at_0 = none; at_1 = none };
  frame_count = 0;
  cache_info = info;
}
