-- ===== src/Align.antt =====
-- Rounding sizes up: `alignUp` of src/barq.cpp, `alignToCacheLine` of src/sim.cpp, and
-- `CacheUtils::alignToCacheLine` and `alignToHugePage` of src/cache_utils.cpp.
pub mod Laws
mod Tests
use sim_library_v.Prelude.{ℕ, ◌+◌, ◌-◌, ◌*◌, ◌/◌, ◌^◌, bit_and, add64, sub64, mul64, not64}

-- `CACHE_LINE`, `CACHE_LINE_SIZE`
abbrev pub cache_line : ℕ
cache_line = 64

-- `HUGE_PAGE`, `HUGE_PAGE_SIZE`
abbrev pub huge_page : ℕ
huge_page = 2 * 1024 * 1024

-- `(value + alignment - 1) & ~(alignment - 1)`
unfoldable pub align_up : ℕ → ℕ → ℕ
align_up value alignment = bit_and (sub64 (add64 value alignment) 1) (not64 (sub64 alignment 1))

-- `((size + CACHE_LINE - 1) / CACHE_LINE) * CACHE_LINE`, the same text in both files
unfoldable pub align_to_cache_line : ℕ → ℕ
align_to_cache_line size = mul64 (sub64 (add64 size cache_line) 1 / cache_line) cache_line

unfoldable pub align_to_huge_page : ℕ → ℕ
align_to_huge_page size = mul64 (sub64 (add64 size huge_page) 1 / huge_page) huge_page
