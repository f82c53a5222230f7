-- ===== src/Align/Tests.antt =====
-- The roundings at concrete sizes.
use sim_library_v.Prelude.{◌≡◌, refl, ◌-◌, ◌^◌, arith}
use sim_library_v.Align.{align_up, align_to_cache_line}
use sim_library_v.Align.Laws.{IsRoundUp, align_up-IsRoundUp}

align_up_runs : align_up 1000 64 ≡ 1024
unfolding align_up
align_up_runs = refl

-- Past the last multiple the sum wraps.
align_wraps : align_to_cache_line (2 ^ 64 - 1) ≡ 0
unfolding align_to_cache_line
align_wraps = refl

align_up-IsRoundUp_example : IsRoundUp 1000 4096 (align_up 1000 4096)
align_up-IsRoundUp_example = align_up-IsRoundUp 1000 12 (omega arith) (omega arith)
