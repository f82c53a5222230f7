-- ===== src/Demo/Sahm.antt =====
-- examples/sahm_writer.cpp and examples/sahm_reader.cpp. `none` is undefined behaviour.
use sim_library_v.Prelude.{
  ℕ, ◌%◌, Bool, true, false, Option, none, some, List, [], ◌∷◌, ◌++◌, String, ◌==◌, ◌||◌, add64,
  ltb, leb, not, if◌then◌else◌,
}
use sim_library_v.Prelude.Int.{ℤ, ◌-ℤ◌, div_ℕ, lt_ℕ}
use sim_library_v.Memory.{◌>>=◌, Mem, slice}
use sim_library_v.Os.{Call}
use sim_library_v.Sahm.Ring.{Ring}
use sim_library_v.Sahm.Control.{Control}
use sim_library_v.Sahm.Writer
use sim_library_v.Sahm.Writer.{Writer, Rings, Find}
use sim_library_v.Sahm.Reader
use sim_library_v.Sahm.Reader.{Reader, Found}
use sim_library_v.Demo.Frame.{data_size, fill, of_bytes}
pub mod Run
pub mod Steps
pub mod Whole
pub mod Looks

abbrev pub channel : String
channel = "/sensor_channel"

-- `RING_SIZE`
abbrev pub ring_size : ℕ
ring_size = 30

-- What the two programs print, but for their titles and hints.
pub data Line : Type 0 where
  init_failed waiting writer_timeout done : Line
  connected total_frames total_received : ℕ → Line
  published : ℕ → ℕ → Line
  received : ℕ → ℕ → ℕ → Line

-- The variables of the writer's `main`.
pub record Sending : Type 0 where
  pub writer : Writer
  pub bytes : Mem
  pub sequence : ℕ

-- What is outside the two programs: the control channel and the ring buffers.
pub record World : Type 0 where
  pub control : Control
  pub rings : Rings

-- What a round of the writer's loop leaves.
pub record Sent : Type 0 where
  pub lines : List Line
  pub sending : Sending
  pub world : World
  pub calls : List Call

-- The body of the writer's loop, but for the pause: `fs` are the answers that `discoverReaders`
-- gets.
unfoldable pub send_round : ℤ → List Find → Sending → World → Option Sent
send_round now fs m x = do
  let bytes = fill m.sequence m.bytes
  written ← Writer.write now fs m.writer x.control x.rings (slice bytes 0 data_size) data_size
  some (record {
    lines = if m.sequence % 30 == 0 then published m.sequence written.count ∷ [] else [];
    sending = record { writer = written.writer; bytes = bytes; sequence = add64 m.sequence 1 };
    world = record { control = written.control; rings = written.rings };
    calls = written.calls;
  })

-- A round of the writer: the clock, the answers, and the world that it finds.
pub record Round : Type 0 where
  pub now : ℤ
  pub finds : List Find
  pub world : World

-- The loop, with its rounds until the signal.
unfoldable pub send_loop : List Round → Sending → Option (List Line × Sending × List Call)
unfolding send_round
send_loop [] m = some ([], m, [])
send_loop (k ∷ ks) m = do
  sent ← send_round k.now k.finds m k.world
  (lines, m', calls) ← send_loop ks sent.sending
  some (sent.lines ++ lines, m', sent.calls ++ calls)

-- The loop that waits for a reader, with the control channel as it is at each look until the signal:
-- the lines, and whether a reader came.
unfoldable pub wait : List Control → Writer → List Line × Bool
wait [] w = ([], false)
wait (c ∷ cs) w =
    let (lines, came) = wait cs w in
    if Writer.get_reader_count w c == 0 then (waiting ∷ lines, came) else ([], true)

-- What `main` leaves: its result, its lines and the system calls.
pub record Exit : Type 0 where
  pub code : ℕ
  pub lines : List Line
  pub calls : List Call

send_connected : List Control → Bool → Control → List Round → Writer.Init → Bool → Option Exit
send_connected cs stopped start ks i false =
    some (record {
      code = 1;
      lines = init_failed ∷ [];
      calls = i.calls ++ (Writer.destroy i.writer).1;
    })
send_connected cs stopped start ks i true =
    let (waits, came) = wait cs i.writer in
    if not came || stopped
    then some (record { code = 0; lines = waits; calls = i.calls ++ (Writer.destroy i.writer).1 })
    else do
      (lines, m, calls) ← send_loop ks (record { writer = i.writer; bytes = λ a. 0; sequence = 0 })
      some (record {
        code = 0;
        lines =
            waits
            ++ connected (Writer.get_reader_count i.writer start)
              ∷ (lines ++ total_frames m.sequence ∷ done ∷ []);
        calls = i.calls ++ (calls ++ (Writer.destroy m.writer).1);
      })

-- `stopped` says whether the signal has come by the end of the loop that waits, and `start` is the
-- control channel then. The destructor calls `destroy` once more, which does nothing then.
unfoldable pub writer_main :
    Writer.Answers → Control → List Control → Bool → Control → List Round → Option Exit
unfolding send_connected wait send_loop
writer_main a c cs stopped start ks =
    let i = Writer.init a (Writer.new channel data_size) c in
    send_connected cs stopped start ks i i.result

-- The variables of the reader's `main`.
pub record Receiving : Type 0 where
  pub reader : Reader
  pub last_total : ℕ
  pub last_log : ℤ

-- The line about a frame, at most one in a second.
unfoldable pub log_frame : ℤ → ℕ → Receiving → Ring → ℕ → Option (List Line × ℤ)
unfolding ◌-ℤ◌
log_frame now total m ring sequence =
    if lt_ℕ (div_ℕ (now -ℤ m.last_log) 1000000000) 1 then some ([], m.last_log) else do
      timestamp ← Reader.get_latest_timestamp_ns m.reader ring
      some (received sequence total (Reader.get_write_index m.reader ring) ∷ [], now)

-- A frame behind a pointer, of at least the size of a number: `now` is the steady clock.
unfoldable pub take_frame : ℤ → ℕ → Receiving → Ring → Found → Option (List Line × ℤ)
unfolding log_frame
take_frame now total m ring f =
    if leb 8 f.size
    then log_frame now total m ring (of_bytes (slice ring.mem f.pointer 8))
    else some ([], m.last_log)

abbrev pub take_found : ℤ → ℕ → Receiving → Ring → Option Found → Option (List Line × ℤ)
take_found now total m ring none = some ([], m.last_log)
take_found now total m ring (some f) = take_frame now total m ring f

-- The branch of a round in which there are new writes.
unfoldable pub take_new : ℤ → ℕ → Receiving → Ring → Option (List Line × Receiving)
unfolding take_frame
take_new now total m ring = do
  found ← Reader.get_latest m.reader ring
  (lines, log) ← take_found now total m ring found
  some (lines, record m { last_total = total; last_log = log })

-- The body of the reader's loop: `time` is the clock of the heartbeats.
unfoldable pub receive_round : ℤ → ℤ → Receiving → Ring → Control → Option (List Line × Receiving)
unfolding take_new
receive_round now time m ring c =
    let total = Reader.get_total_writes m.reader ring in
    let late = if Reader.is_writer_alive time m.reader c 2000 then [] else writer_timeout ∷ [] in
    do
      (lines, m') ← if ltb m.last_total total then take_new now total m ring else some ([], m)
      some (lines ++ late, m')

-- A round of the reader's loop: the two clocks, and what it finds.
pub record Look : Type 0 where
  pub now : ℤ
  pub time : ℤ
  pub ring : Ring
  pub control : Control

unfoldable pub receive_loop : List Look → Receiving → Option (List Line × Receiving)
unfolding receive_round
receive_loop [] m = some ([], m)
receive_loop (k ∷ ks) m = do
  (lines, m') ← receive_round k.now k.time m k.ring k.control
  (more, m'') ← receive_loop ks m'
  some (lines ++ more, m'')

-- An attempt of `init`.
pub record Attempt : Type 0 where
  pub answers : Reader.Answers
  pub control : Control
  pub ring : Ring

-- The loop that waits for the writer: the attempts until one succeeds or the signal has come. `cut`
-- is what an entry keeps of a name.
unfoldable pub connect : (String → String) → List Attempt → Reader → Bool × Reader × List Call
connect cut [] r = (false, r, [])
connect cut (t ∷ ts) r =
    let i = Reader.init cut t.answers r t.control t.ring in
    let (joined, r', calls) = connect cut ts i.reader in
    if i.result then (true, i.reader, i.calls) else (joined, r', i.calls ++ calls)

-- The lines and the system calls of the reader's `main`, whose object has the name `name`: `stopped`
-- says whether the signal has come by the end of the loop that waits, `start` is the clock then, and
-- the ring buffer and the control channel at the end are `last`'s.
unfoldable pub reader_main :
    (String → String)
    → String
    → List Attempt
    → Bool
    → ℤ
    → List Look
    → Look
    → Option (List Line × List Call)
unfolding connect receive_loop
reader_main cut name ts stopped start ks last =
    let (joined, r, calls) = connect cut ts (Reader.new channel name data_size ring_size) in
    let release = λ (q : Reader). (Reader.drop q last.control).1 in
    if not joined || stopped then some ([], calls ++ release r) else do
      (lines, m) ← receive_loop ks (record { reader = r; last_total = 0; last_log = start })
      some (
        lines ++ total_received (Reader.get_total_writes m.reader last.ring) ∷ done ∷ [],
        calls ++ release m.reader,
      )
