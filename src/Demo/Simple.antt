-- ===== src/Demo/Simple.antt =====
-- examples/simple_writer.cpp and examples/simple_reader.cpp. `none` is undefined behaviour.
use sim_library_v.Prelude.{
  ℕ, ◌%◌, Bool, true, false, Option, none, some, List, [], ◌∷◌, ◌++◌, String, ◌==◌, add64, length,
  not, ◌||◌, if◌then◌else◌,
}
use sim_library_v.Prelude.Int.{ℤ, pos, ◌-ℤ◌, div_ℕ, lt_ℕ}
use sim_library_v.Memory.{◌>>=◌, Mem, blit, slice}
use sim_library_v.Os.{Call}
use sim_library_v.Sim.Header.{Segment}
use sim_library_v.Sim.Writer
use sim_library_v.Sim.Writer.{Writer}
use sim_library_v.Sim.Reader
use sim_library_v.Sim.Reader.{Reader}
use sim_library_v.Demo.Frame.{data_size, fill, extract}
pub mod Run
pub mod Steps
pub mod Main
pub mod Connect
pub mod ReaderMain
pub mod Whole
pub mod Looks

abbrev pub shm_name : String
shm_name = "/sensor_data"

-- What the two programs print, but for their titles and hints.
pub data Line : Type 0 where
  init_failed write_failed writer_timeout cancelled done : Line
  sequence_is total_frames dropped_total : ℕ → Line
  received : ℕ → ℕ → Line

-- The variables of the writer's `main`.
pub record Sending : Type 0 where
  pub writer : Writer
  pub bytes : Mem
  pub sequence : ℕ

-- The body of the writer's loop, but for the pause.
unfoldable pub send_round : ℤ → Sending → Segment → Option (List Line × Sending × Segment)
send_round now m s = do
  let bytes = fill m.sequence m.bytes
  (written, w, s') ← Writer.write now m.writer s (some (slice bytes 0 data_size)) data_size
  some (
    (if written then [] else write_failed ∷ [])
        ++ (if m.sequence % 30 == 0 then sequence_is m.sequence ∷ [] else []),
    record { writer = w; bytes = bytes; sequence = add64 m.sequence 1 },
    s',
  )

-- The loop, with the time of each round until the signal.
unfoldable pub send_loop : List ℤ → Sending → Segment → Option (List Line × Sending × Segment)
unfolding send_round
send_loop [] m s = some ([], m, s)
send_loop (now ∷ times) m s = do
  (lines, m', s') ← send_round now m s
  (more, m'', s'') ← send_loop times m' s'
  some (lines ++ more, m'', s'')

-- What `main` leaves: its result, its lines, the segment and the system calls.
pub record Exit : Type 0 where
  pub code : ℕ
  pub lines : List Line
  pub segment : Segment
  pub calls : List Call

send_connected : List ℤ → Writer.Init → Bool → Option Exit
send_connected times i false = some (record {
  code = 1;
  lines = init_failed ∷ [];
  segment = i.segment;
  calls = i.calls ++ Writer.drop i.writer;
})
send_connected times i true = do
  (lines, m, s) ←
      send_loop times (record { writer = i.writer; bytes = λ a. 0; sequence = 0 }) i.segment
  let (w, calls) = Writer.destroy m.writer
  some (record {
    code = 0;
    lines = lines ++ total_frames m.sequence ∷ done ∷ [];
    segment = s;
    calls = i.calls ++ (calls ++ Writer.drop w);
  })

unfoldable pub writer_main : Writer.Answers → List ℤ → Segment → Option Exit
unfolding send_connected
writer_main a times s =
    let i = Writer.init a (Writer.new shm_name data_size false) s in send_connected times i i.result

-- The variables of the reader's `main`.
pub record Receiving : Type 0 where
  pub reader : Reader
  pub buffer : Mem
  pub frame_count : ℕ
  pub last_log : ℤ

-- The branch of a round in which a frame came: `now` is the steady clock.
unfoldable pub take_frame : ℤ → Reader → List ℕ → Receiving → List Line × Receiving
unfolding ◌-ℤ◌
take_frame now r bytes m =
    let buffer = blit m.buffer 0 bytes in
    let elapsed = div_ℕ (now -ℤ m.last_log) 1000000000 in
    if lt_ℕ elapsed 1
    then ([], record m { reader = r; buffer = buffer; frame_count = add64 m.frame_count 1 })
    else (
      received (extract buffer) r.dropped_frames ∷ [],
      record { reader = r; buffer = buffer; frame_count = add64 m.frame_count 1; last_log = now },
    )

abbrev pub take_result : ℤ → Reader → Option (List ℕ) → Receiving → List Line × Receiving
take_result now r none m = ([], record m { reader = r })
take_result now r (some bytes) m = take_frame now r bytes m

-- The body of the reader's loop: `time` is the clock of the heartbeats.
unfoldable pub receive_round : ℤ → ℤ → Receiving → Segment → Option (List Line × Receiving)
unfolding take_frame
receive_round now time m s = do
  (result, r) ← Reader.read m.reader s (some data_size)
  let (lines, m') = take_result now r result m
  alive ← Reader.is_writer_alive time m'.reader s 2000
  some (lines ++ (if alive then [] else writer_timeout ∷ []), m')

-- A round of the loop: the two clocks, and the segment as it is then.
pub record Look : Type 0 where
  pub now : ℤ
  pub time : ℤ
  pub segment : Segment

unfoldable pub receive_loop : List Look → Receiving → Option (List Line × Receiving)
unfolding receive_round
receive_loop [] m = some ([], m)
receive_loop (k ∷ ks) m = do
  (lines, m') ← receive_round k.now k.time m k.segment
  (more, m'') ← receive_loop ks m'
  some (lines ++ more, m'')

-- An attempt of `init`.
pub record Attempt : Type 0 where
  pub answers : Reader.Answers
  pub segment : Segment

-- The loop that waits for the writer: the attempts until one succeeds or the signal has come.
unfoldable pub connect : List Attempt → Reader → Option (Bool × Reader × List Call)
unfolding Reader.init
connect [] r = some (false, r, [])
connect (t ∷ ts) r = do
  i ← Reader.init t.answers r t.segment
  if i.result
      then some (true, i.reader, i.calls)
      else do (connected, r', calls) ← connect ts i.reader; some (connected, r', i.calls ++ calls)

-- The lines and the system calls of the reader's `main`. `stopped` says whether the signal has come
-- by the end of the loop that waits, which otherwise ends with a connection; `start` is the clock
-- then.
unfoldable pub reader_main : List Attempt → Bool → ℤ → List Look → Option (List Line × List Call)
reader_main ts stopped start ks = do
  (connected, r, calls) ← connect ts (Reader.new shm_name data_size)
  if not connected || stopped then some (cancelled ∷ [], calls ++ Reader.drop r) else do
    (lines, m) ←
        receive_loop ks (record { reader = r; buffer = λ a. 0; frame_count = 0; last_log = start })
    some (
      lines ++ total_frames m.frame_count ∷ dropped_total m.reader.dropped_frames ∷ done ∷ [],
      calls ++ Reader.drop m.reader,
    )
