-- ===== src/Barq/Tests/Life.antt =====
-- `init`, `destroy` and the destructor of BARQ at concrete inputs.
use sim_library_v.Prelude.{ℕ, ◌≡◌, ◌⊎◌, refl, true, none, some, [], ◌∷◌, ◌++◌, arith}
use sim_library_v.Align.{align_up}
use sim_library_v.Os.{Ledger, enter_all}
use sim_library_v.Barq.Writer
use sim_library_v.Barq.Writer.{Writer, segment_size}
use sim_library_v.Barq.Reader
use sim_library_v.Barq.Reader.{Reader, Latest}
use sim_library_v.Barq.Init.{huge_page_fallback, Attaches, Fails}
use sim_library_v.Barq.Release.{failed_init_closes_twice}
use sim_library_v.Barq.Tests.{blank, answers, new_writer}

huge_page_fallback_example :
    let i = Writer.init answers new_writer blank in
    (((base : ℕ) × (some 4096 ≡ some base)) × Attaches i)
    ⊎ ((answers.mapped ≡ none) × Fails i blank.header blank.mem)
unfolding segment_size align_up
huge_page_fallback_example =
    huge_page_fallback answers new_writer blank 3 refl refl (omega arith) refl refl

abbrev ledger : Ledger
ledger = record { fds = 0 ∷ []; maps = [] }

abbrev no_mapping : Writer.Answers
no_mapping = record answers { mapped = none }

failed_init_closes_twice_example :
    let i = Writer.init no_mapping (Writer.new "/cam" 4 true) blank in
    (enter_all i.calls ledger ≡ some ledger)
    × (enter_all (i.calls ++ (Writer.destroy i.writer).1) ledger ≡ none)
unfolding Writer.init Writer.new segment_size align_up
failed_init_closes_twice_example =
    failed_init_closes_twice no_mapping "/cam" 4 true blank 3 ledger refl refl refl

abbrev reader_answers : Reader.Answers
reader_answers = record { opened = some 3; stat = some 448; mapped = some 8192 }
