-- ===== src/Cache/Info.antt =====
-- `CacheInfo` of include/cache_utils.hpp, its detection, and the sizes that follow from it. What
-- the files under /sys hold is an argument.
use sim_library_v.Prelude.{
  ℕ, ◌*◌, ◌/◌, Bool, true, false, Option, none, some, List, [], ◌∷◌, ltb, leb, ◌==◌, ◌&&◌, mul64,
  if◌then◌else◌,
}
use sim_library_v.Align.{cache_line}

-- `num_cores` is what `sysconf` answers.
pub record CacheInfo : Type 0 where
  pub l1d_size : ℕ
  pub l1i_size : ℕ
  pub l2_size : ℕ
  pub l3_size : ℕ
  pub line_size : ℕ
  pub num_cores : ℕ

unfoldable pub optimal_prefetch_distance : CacheInfo → ℕ
optimal_prefetch_distance info = if ltb 0 info.l2_size then info.l2_size / 4 else 64 * 1024

unfoldable pub optimal_chunk_size : CacheInfo → ℕ
optimal_chunk_size info = if ltb 0 info.l3_size then info.l3_size / 2 else 1024 * 1024

unfoldable pub fits_in_l3 : CacheInfo → ℕ → Bool
fits_in_l3 cache size = leb size (cache.l3_size / 2)

-- The text of a size, as the stream takes it apart: the number, 0 where there is none, and the
-- character after it.
pub record SizeText : Type 0 where
  pub value : ℕ
  pub suffix : Option ℕ

abbrev pub multiplier : Option ℕ → ℕ
multiplier none = 1
multiplier (some c) =
    if c == b'K'
    then 1024
    else if c == b'k'
    then 1024
    else if c == b'M'
    then 1024 * 1024
    else if c == b'm'
    then 1024 * 1024
    else if c == b'G'
    then 1024 * 1024 * 1024
    else if c == b'g'
    then 1024 * 1024 * 1024
    else 1

unfoldable pub parse_size : SizeText → ℕ
parse_size text = mul64 text.value (multiplier text.suffix)

-- The text of the file, or `none` where it cannot be read.
unfoldable pub read_cache_size : Option SizeText → ℕ
unfolding parse_size
read_cache_size none = 0
read_cache_size (some text) = parse_size text

-- `type` of a cache.
pub data CacheType : Type 0 where
  data_cache instruction_cache other_cache : CacheType

-- What one directory `index*` holds: no `type` file, or the level, the size and the line size,
-- where this can be read.
pub record Index : Type 0 where
  pub type : Option CacheType
  pub level : ℕ
  pub size : Option SizeText
  pub line : Option ℕ

abbrev pub set_line : Option ℕ → CacheInfo → CacheInfo
set_line none info = info
set_line (some line) info = if ltb 0 line then record info { line_size = line } else info

abbrev pub is_data : CacheType → Bool
is_data data_cache = true
is_data instruction_cache = false
is_data other_cache = false

abbrev pub is_instruction : CacheType → Bool
is_instruction data_cache = false
is_instruction instruction_cache = true
is_instruction other_cache = false

abbrev pub set_size : CacheType → ℕ → ℕ → CacheInfo → CacheInfo
set_size type level size info =
    if level == 1 && is_data type
    then record info { l1d_size = size }
    else if level == 1 && is_instruction type
    then record info { l1i_size = size }
    else if level == 2
    then record info { l2_size = size }
    else if level == 3
    then record info { l3_size = size }
    else info

-- The body of the loop over the directories.
abbrev pub scan : Index → CacheInfo → CacheInfo
scan index info = elim index.type [
  | none ↦ info
  | some type ↦ set_size type index.level (read_cache_size index.size) (set_line index.line info)
]

abbrev pub scan_all : List Index → CacheInfo → CacheInfo
scan_all [] info = info
scan_all (i ∷ is) info = scan_all is (scan i info)

-- The directories in the order in which they are read; none where the folder cannot be opened.
unfoldable pub detect_cache_info : ℕ → List Index → CacheInfo
unfolding parse_size read_cache_size
detect_cache_info num_cores found = scan_all found (record {
  l1d_size = 32 * 1024;
  l1i_size = 32 * 1024;
  l2_size = 256 * 1024;
  l3_size = 8 * 1024 * 1024;
  line_size = cache_line;
  num_cores = num_cores;
})
