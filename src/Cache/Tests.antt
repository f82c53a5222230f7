-- ===== src/Cache/Tests.antt =====
-- The decision on huge pages at concrete sizes.
use sim_library_v.Prelude.{◌*◌, ◌≤◌, ◌≡◌, ◌↔◌, refl, true, some, arith}
use sim_library_v.Cache.{HugePagesInfo, should_use_huge_pages}
use sim_library_v.Cache.Laws.{should_use_huge_pages_lem}

abbrev two_pages : HugePagesInfo
two_pages = record { available = true; usable = true; total = 4; free = 2; page_size = 2097152 }

-- Exactly two pages.
decision_runs : should_use_huge_pages two_pages 4194304 ≡ some true
unfolding should_use_huge_pages
decision_runs = refl

should_use_huge_pages_lem_example :
    (should_use_huge_pages two_pages 4194305 ≡ some true)
    ↔ ((1024 * 1024 ≤ 4194305) × (two_pages.usable ≡ true) × (4194305 ≤ 2 * 2097152))
should_use_huge_pages_lem_example =
    should_use_huge_pages_lem two_pages 4194305 (omega arith) (omega arith)
