-- ===== src/Casir/Config.antt =====
-- `SiCConfig` and `SiCStats` of include/cache_utils.hpp, as CASIR uses them.
use sim_library_v.Prelude.{ℕ, ◌*◌, Bool, true, false, Option, none, some}
use sim_library_v.Cache.Info.{CacheInfo, optimal_prefetch_distance}
use sim_library_v.Cache.{HugePagesInfo}

-- `cpu_affinity` is `none` for a negative number.
pub record Config : Type 0 where
  pub use_huge_pages : Bool
  pub enable_prefetch : Bool
  pub numa_aware : Bool
  pub cpu_affinity : Option ℕ
  pub prefetch_distance : ℕ

-- `SiCConfig::autoDetect`, on what `detectCacheInfo` and `detectHugePages` find.
unfoldable pub auto_detect : CacheInfo → HugePagesInfo → Config
auto_detect cache hp = record {
  use_huge_pages = hp.usable;
  enable_prefetch = true;
  numa_aware = true;
  cpu_affinity = none;
  prefetch_distance = optimal_prefetch_distance cache;
}

abbrev pub portable : Config
portable = record {
  use_huge_pages = false;
  enable_prefetch = true;
  numa_aware = false;
  cpu_affinity = none;
  prefetch_distance = 64 * 1024;
}

abbrev pub max_performance : Config
max_performance = record {
  use_huge_pages = true;
  enable_prefetch = true;
  numa_aware = true;
  cpu_affinity = some 0;
  prefetch_distance = 0;
}

pub record Stats : Type 0 where
  pub huge_pages_active : Bool
  pub prefetch_active : Bool
  pub numa_node : ℕ
  pub pinned_cpu : Option ℕ
  pub cache_info : CacheInfo
  pub total_writes : ℕ
  pub total_reads : ℕ
  pub bytes_transferred : ℕ
