-- ===== src/Demo/Simple/Run.antt =====
-- examples/simple_writer.cpp and examples/simple_reader.cpp side by side on one segment, in any order
-- of their rounds.
use sim_library_v.Prelude.{ℕ, ◌+◌, ◌-◌, ◌≤◌, ◌≡◌, ◌⊎◌, Option, some, List, [], ◌∷◌, ◌++◌}
use sim_library_v.Prelude.Int.{ℤ}
use sim_library_v.Memory.{◌>>=◌, slice}
use sim_library_v.Sim.Header.{Segment}
use sim_library_v.Sim.Valid.{view, IsAttached, IsConnected}
use sim_library_v.Demo.Frame.{data_size, frame}
use sim_library_v.Demo.Simple.{
  Line, write_failed, received, Sending, Receiving, send_round, receive_round,
}

-- A round of the writer, or one of the reader with its two clocks.
pub data Event : Type 0 where
  send : ℤ → Event
  receive : ℤ → ℤ → Event

pub record System : Type 0 where
  pub sending : Sending
  pub receiving : Receiving
  pub segment : Segment

unfoldable pub step : Event → System → Option (List Line × System)
step (send now) x = do
  (lines, m, s) ← send_round now x.sending x.segment
  some (lines, record x { sending = m; segment = s })
step (receive now time) x = do
  (lines, m) ← receive_round now time x.receiving x.segment
  some (lines, record x { receiving = m })

unfoldable pub run : List Event → System → Option (List Line × System)
run [] x = some ([], x)
run (e ∷ es) x = do (lines, y) ← step e x; (more, z) ← run es y; some (lines ++ more, z)

abbrev pub sends : Event → ℕ
sends (send now) = 1
sends (receive now time) = 0

-- How many rounds are the writer's.
abbrev pub rounds : List Event → ℕ
rounds [] = 0
rounds (e ∷ es) = sends e + rounds es

-- The reader is connected, what it counted adds up to the last frame's number, and the frame in
-- its buffer is that one, whole. The frames are numbered from 1 on, and hold numbers from 0 on.
pub record IsReceiving (m : Receiving) (s : Segment) : Type 0 where
  pub connected : IsConnected m.reader s
  pub max : m.reader.max_size ≡ data_size
  pub last : m.reader.last_frame ≤ (view s).frame
  pub total : m.frame_count + m.reader.dropped_frames ≡ m.reader.last_frame
  pub copied :
      (m.reader.last_frame ≡ 0) ⊎ (slice m.buffer 0 data_size ≡ frame (m.reader.last_frame - 1))

pub record IsSending (m : Sending) (s : Segment) : Type 0 where
  pub attached : IsAttached m.writer s
  pub max : m.writer.max_size ≡ data_size
  pub count : (view s).frame ≡ m.sequence
  pub shown : (m.sequence ≡ 0) ⊎ ((view s).payload ≡ frame (m.sequence - 1))

-- What the lines say.
abbrev pub IsGood : Line → Type 0
IsGood write_failed = ⊥
IsGood (received n dropped) = dropped ≤ n
IsGood l = Unit
