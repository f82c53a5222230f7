-- ===== src/Cache.antt =====
-- The decision on huge pages: `CacheUtils::shouldUseHugePages` of src/cache_utils.cpp. What
-- `detectHugePages` reads from the system is an argument.
pub mod Info
pub mod Numa
pub mod Laws
mod Tests
use sim_library_v.Prelude.{
  ℕ, zero, suc, ◌+◌, List, [], ◌∷◌, mul64, ◌*◌, ◌/◌, Bool, true, false, Option, none, some, add64,
  sub64, ltb, leb, ◌==◌, not, ◌||◌, if◌then◌else◌,
}
use sim_library_v.Align.{cache_line, huge_page}

pub record HugePagesInfo : Type 0 where
  pub available : Bool
  pub usable : Bool
  pub total : ℕ
  pub free : ℕ
  pub page_size : ℕ

-- `none` is a division by zero.
unfoldable pub should_use_huge_pages : HugePagesInfo → ℕ → Option Bool
should_use_huge_pages hp size =
    if ltb size (1024 * 1024) || not hp.usable
    then some false
    else if hp.page_size == 0
    then none
    else some (leb (sub64 (add64 size hp.page_size) 1 / hp.page_size) hp.free)

-- A line of /proc/meminfo: a number that `sscanf` may not find, after one of three labels.
pub data Line : Type 0 where
  pages_total pages_free page_kb : Option ℕ → Line
  other_line : Line

abbrev pub read_line : Line → HugePagesInfo → HugePagesInfo
read_line (pages_total none) info = info
read_line (pages_total (some n)) info = record info { total = n }
read_line (pages_free none) info = info
read_line (pages_free (some n)) info = record info { free = n }
read_line (page_kb none) info = record info { page_size = 0 }
read_line (page_kb (some kb)) info = record info { page_size = mul64 kb 1024 }
read_line other_line info = info

abbrev pub read_lines : List Line → HugePagesInfo → HugePagesInfo
read_lines [] info = info
read_lines (l ∷ ls) info = read_lines ls (read_line l info)

unfoldable pub detect_huge_pages : List Line → HugePagesInfo
detect_huge_pages lines =
    let info =
      read_lines lines (record {
        available = false;
        usable = false;
        total = 0;
        free = 0;
        page_size = huge_page;
      }) in
    record info { available = ltb 0 info.total; usable = ltb 0 info.free }

-- `setCpuAffinity`: the answer of `sched_setaffinity`, which is not called for a negative number.
abbrev pub set_cpu_affinity : Option ℕ → Bool → Bool
set_cpu_affinity none answer = true
set_cpu_affinity (some cpu) answer = answer

-- `prefetchRange`: the offsets that are prefetched, from `i` on with `rounds` rounds at most.
abbrev pub prefetch_from : ℕ → ℕ → ℕ → List ℕ
prefetch_from zero i size = []
prefetch_from (suc rounds) i size =
    let rest = prefetch_from rounds (i + cache_line) size in if ltb i size then i ∷ rest else []

-- A round for each byte is enough.
unfoldable pub prefetch_range : ℕ → List ℕ
prefetch_range size = prefetch_from size 0 size
