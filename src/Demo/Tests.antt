-- ===== src/Demo/Tests.antt =====
-- The programs of examples/ at concrete inputs.
mod Ring
use sim_library_v.Prelude.{
  ℕ, ◌+◌, ◌-◌, ◌≤◌, ◌≡◌, ◌⊎◌, inl, inr, refl, Bool, true, false, none, some, List, [], ◌∷◌, ◌++◌,
  length, arith,
}
use sim_library_v.Prelude.Int.{pos}
use sim_library_v.Memory.{blit, slice}
use sim_library_v.Memory.Stores.{All}
use sim_library_v.Os.{Call, Ledger, enter_all, at, shm_open, mmap}
use sim_library_v.Sim.Writer
use sim_library_v.Sim.Reader
use sim_library_v.Sim.Reader.{Reader}
use sim_library_v.Sim.Valid.{view, payload_start}
use sim_library_v.Sim.Header.{Segment, calculate_shm_size}
use sim_library_v.Align.{align_to_cache_line}
use sim_library_v.Sim.Tests.{blank}
use sim_library_v.Demo.Frame.{data_size, fill, frame, extract}
use sim_library_v.Demo.Frame.Laws.{extract-fill}
use sim_library_v.Demo.Simple.{
  Line, init_failed, cancelled, total_frames, done, shm_name, Exit, Attempt, Look, connect,
  writer_main, reader_main,
}
use sim_library_v.Demo.Simple.Run.{Event, send, receive, System, step, run, IsGood}
use sim_library_v.Demo.Simple.Whole.{begin, begin-IsSending, simple_programs}
use sim_library_v.Demo.Simple.Main.{writer_program}
use sim_library_v.Demo.Simple.Connect.{IsSetUp, IsSized}
use sim_library_v.Demo.Simple.ReaderMain.{reader_program}

extract-fill_example :
    (slice (fill 258 (λ a. 7)) 0 data_size ≡ frame 258)
    × (length (frame 258) ≡ data_size)
    × (extract (blit (λ a. 9) 0 (slice (fill 258 (λ a. 7)) 0 data_size)) ≡ 258)
extract-fill_example = extract-fill 258 (λ a. 7) (λ a. 9) (omega arith)

abbrev answers : Writer.Answers
answers = record { opened = some 3; truncated = true; mapped = some 4096; now = pos 5 }

abbrev reader_answers : Reader.Answers
reader_answers = record { opened = some 4; mapped = some 8192 }

writer_opens : (Writer.init answers (Writer.new shm_name data_size false) blank).result ≡ true
unfolding Writer.init Writer.new
writer_opens = refl

-- The reader's `init` on the segment that the writer's leaves.
abbrev opened : Reader.Init
opened = record {
  result = true;
  reader = record {
    shm_name = shm_name;
    max_size = data_size;
    is_initialized = true;
    shm_fd = some 4;
    shm_ptr = at 8192;
    shm_size = calculate_shm_size data_size;
    header = at 8192;
    buffer = record { at_0 = some payload_start; at_1 = some (payload_start + data_size) };
    last_frame = 0;
    last_timestamp_ns = pos 0;
    dropped_frames = 0;
    last_checksum_valid = true;
  };
  calls = shm_open shm_name (some 4) ∷ mmap 4 (calculate_shm_size data_size) (some 8192) ∷ [];
}

abbrev made : Segment
made = (Writer.init answers (Writer.new shm_name data_size false) blank).segment

reader_opens : Reader.init reader_answers (Reader.new shm_name data_size) made ≡ some opened
unfolding Writer.init Writer.new Writer.init_header Reader.init Reader.new align_to_cache_line
    calculate_shm_size
reader_opens = refl

-- Two frames come between the looks of the reader.
abbrev events : List Event
events =
    send (pos 6)
    ∷ receive (pos 7) (pos 7)
    ∷ send (pos 8)
    ∷ send (pos 9)
    ∷ receive (pos 10) (pos 10)
    ∷ []

simple_programs_example :
    let i = Writer.init answers (Writer.new shm_name data_size false) blank in
    (lines : List Line) × (y : System) × (run events (begin i opened (pos 0)) ≡ some (lines, y))
    × All IsGood lines
    × (y.sending.sequence ≡ 3)
    × (y.receiving.frame_count + y.receiving.reader.dropped_frames ≡ y.receiving.reader.last_frame)
    × (y.receiving.reader.last_frame ≤ 3)
    × ((y.receiving.reader.last_frame ≡ 0)
        ⊎ (slice y.receiving.buffer 0 data_size ≡ frame (y.receiving.reader.last_frame - 1)))
    × ((more : List Line) × (z : System) × (step (receive (pos 11) (pos 11)) y ≡ some (more, z))
        × (z.receiving.reader.last_frame ≡ 3)
        × ((◌≡◌ {A = ℕ} 3 0) ⊎ (slice z.receiving.buffer 0 data_size ≡ frame 2)))
simple_programs_example =
    simple_programs answers reader_answers (pos 0) (pos 11) (pos 11) blank opened events
      writer_opens reader_opens refl (omega arith)

abbrev ledger : Ledger
ledger = record { fds = 0 ∷ []; maps = [] }

writer_program_example :
    let i = Writer.init answers (Writer.new shm_name data_size false) blank in
    (x : Exit) × (writer_main answers (pos 6 ∷ pos 7 ∷ []) blank ≡ some x)
    × (enter_all x.calls ledger ≡ some ledger)
    × (((i.result ≡ true)
          × (x.code ≡ 0)
          × ((lines : List Line) × All IsGood lines
              × (x.lines ≡ lines ++ total_frames 2 ∷ done ∷ []))
          × ((view x.segment).frame ≡ 2)
          × ((◌≡◌ {A = ℕ} 2 0) ⊎ ((view x.segment).payload ≡ frame 1)))
        ⊎ ((i.result ≡ false) × (x.code ≡ 1) × (x.lines ≡ init_failed ∷ [])))
writer_program_example = writer_program answers (pos 6 ∷ pos 7 ∷ []) blank ledger (omega arith)

-- The first attempt finds no object, the second finds the one that the writer has set up.
abbrev attempts : List Attempt
attempts =
    record { answers = record { opened = none; mapped = none }; segment = blank }
    ∷ record { answers = reader_answers; segment = made }
    ∷ []

attempts-IsSized : All IsSized attempts
unfolding Writer.init Writer.new calculate_shm_size
attempts-IsSized = (inl refl, (inr (inr (omega arith)), tt))

abbrev looks : List Look
looks = record { now = pos 7; time = pos 8; segment = made } ∷ []

looks-IsSetUp : All (λ (k : Look). IsSetUp k.segment) looks
looks-IsSetUp =
    let v = begin-IsSending answers blank writer_opens in
    ((v.attached.segment, omega (arith, v.attached.capacity, v.max)), tt)

reader_program_example :
    (joined : Bool) × (r : Reader) × (taken : List Call) × (lines : List Line) × (calls : List Call)
    × (connect attempts (Reader.new shm_name data_size) ≡ some (joined, r, taken))
    × (reader_main attempts false (pos 0) looks ≡ some (lines, calls))
    × (enter_all calls ledger ≡ some ledger)
    × (((joined ≡ true) × (◌≡◌ {A = Bool} false false)) ⊎ (lines ≡ cancelled ∷ []))
reader_program_example =
    reader_program attempts false (pos 0) looks ledger attempts-IsSized looks-IsSetUp
