-- ===== src/Casir/Tests/Life.antt =====
-- `init`, `destroy`, the moves and the destructors of CASIR at concrete inputs.
use sim_library_v.Prelude.{
  ℕ, ◌<◌, ◌≡◌, ◌⊎◌, ◌↔◌, refl, true, false, none, some, [], ◌∷◌, ◌++◌, arith,
}
use sim_library_v.Prelude.Int.{pos}
use sim_library_v.Align.{align_to_cache_line}
use sim_library_v.Os.{Ledger, enter_all, set_affinity, shm_unlink, shm_open, ftruncate}
use sim_library_v.Cache.{should_use_huge_pages}
use sim_library_v.Cache.Info.{optimal_prefetch_distance}
use sim_library_v.Casir.Header.{Segment}
use sim_library_v.Casir.Writer
use sim_library_v.Casir.Writer.{Writer, segment_size, base_size}
use sim_library_v.Casir.Reader
use sim_library_v.Casir.Reader.{Reader}
use sim_library_v.Casir.Init.{casir_init-Attaches, Attaches, Fails}
use sim_library_v.Casir.Alive.{alive_only_after_write}
use sim_library_v.Casir.Release.{casir_failed_init_closes_twice}
use sim_library_v.Casir.Tests.{
  blank, answers, info, config, new_writer, made, segment, reader, bytes, init_runs,
  reader-IsConnected,
}

casir_init-Attaches_example :
    (i : Writer.Init) × (Writer.init answers new_writer blank ≡ some i)
    × ((((base : ℕ) × (some 4096 ≡ some base)) × Attaches i)
        ⊎ ((answers.mapped ≡ none) × Fails i blank.header blank.mem))
unfolding Writer.new Writer.auto_distance optimal_prefetch_distance
casir_init-Attaches_example =
    casir_init-Attaches answers new_writer blank 3 refl refl (omega arith) (omega arith) refl refl

abbrev ledger : Ledger
ledger = record { fds = 0 ∷ []; maps = [] }

abbrev reader_answers : Reader.Answers
reader_answers = record { opened = some 3; stat = some 512; huge_mapped = none; mapped = some 8192 }

alive_only_after_write_example :
    (Reader.is_writer_alive (pos 7000000) reader segment 3 ≡ some false)
    × ((w : Writer) × (s : Segment) × (Writer.write (pos 6000000) made.writer made.segment bytes 3
          ≡ some (true, w, s))
        × ((Reader.is_writer_alive (pos 7000000) reader s 3 ≡ some true) ↔ (7000000 < 9000000)))
unfolding Writer.new Writer.auto_distance Writer.init_truncated Writer.init_huge Writer.init_regular
    Writer.init_mapped Writer.init_header align_to_cache_line optimal_prefetch_distance
alive_only_after_write_example =
    alive_only_after_write answers new_writer blank 3 made reader bytes 6000000 7000000 3 refl refl
      (omega arith) (omega arith) refl refl init_runs.0 refl reader-IsConnected (omega arith)
      (omega arith) (omega arith)

-- No mapping succeeds.
abbrev no_mapping : Writer.Answers
no_mapping = record answers { mapped = none }

abbrev failed : Writer.Init
failed =
    Writer.init_truncated no_mapping (record new_writer { shm_fd = some 3; shm_size = 512 }) blank 3
      (set_affinity 2 ∷ shm_unlink "/cam" ∷ shm_open "/cam" (some 3) ∷ ftruncate 3 512 true ∷ [])
      true

casir_failed_init_closes_twice_example :
    (enter_all failed.calls ledger ≡ some ledger)
    × (enter_all (failed.calls ++ (Writer.destroy failed.writer).1) ledger ≡ none)
unfolding Writer.init Writer.new Writer.auto_distance optimal_prefetch_distance segment_size
    base_size should_use_huge_pages align_to_cache_line Writer.init_opened Writer.init_truncated
    Writer.init_huge Writer.init_regular
casir_failed_init_closes_twice_example =
    casir_failed_init_closes_twice no_mapping info "/cam" 4 config blank failed 3 ledger refl refl
      refl refl
