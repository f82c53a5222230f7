-- ===== src/Demo/Sahm/Run.antt =====
-- examples/sahm_writer.cpp and examples/sahm_reader.cpp side by side on one channel, in any order of
-- their rounds, while no reader comes or goes.
use sim_library_v.Prelude.{
  ℕ, ◌+◌, ◌-◌, ◌%◌, ◌^◌, ◌<◌, ◌≤◌, ◌≡◌, ◌⊎◌, true, Option, some, List, [], ◌∷◌, ◌++◌, length,
}
use sim_library_v.Prelude.Int.{ℤ}
use sim_library_v.Memory.{◌>>=◌}
use sim_library_v.Memory.Stores.{All, IsOneOf}
use sim_library_v.Os.{at}
use sim_library_v.Sahm.Writer.{Info, Find, discover_readers}
use sim_library_v.Sahm.Latest.{IsAttached}
use sim_library_v.Sahm.Delivery.{AreApart, AreReady}
use sim_library_v.Demo.Frame.{data_size, frame}
use sim_library_v.Demo.Sahm.{
  Line, published, received, Sending, World, Receiving, send_round, receive_round,
}

-- A round of the writer with the answers that it gets, or one of the reader with its two clocks.
pub data Event : Type 0 where
  send : ℤ → List Find → Event
  receive : ℤ → ℤ → Event

pub record System : Type 0 where
  pub sending : Sending
  pub receiving : Receiving
  pub world : World

-- `o` is the reader's object.
unfoldable pub step : ℕ → Event → System → Option (List Line × System)
step o (send now fs) x = do
  sent ← send_round now fs x.sending x.world
  some (sent.lines, record x { sending = sent.sending; world = sent.world })
step o (receive now time) x = do
  (lines, m) ← receive_round now time x.receiving (x.world.rings o) x.world.control
  some (lines, record x { receiving = m })

unfoldable pub run : ℕ → List Event → System → Option (List Line × System)
run o [] x = some ([], x)
run o (e ∷ es) x = do (lines, y) ← step o e x; (more, z) ← run o es y; some (lines ++ more, z)

-- How many rounds are the writer's.
abbrev pub rounds : List Event → ℕ
rounds [] = 0
rounds (send now fs ∷ es) = 1 + rounds es
rounds (receive now time ∷ es) = rounds es

-- The frames in a ring buffer after the rounds, where the writer starts with the number `sequence`.
abbrev pub sent_all : List Event → ℕ → List (List ℕ) → List (List ℕ)
sent_all [] sequence frames = frames
sent_all (send now fs ∷ es) sequence frames = sent_all es (sequence + 1) (frame sequence ∷ frames)
sent_all (receive now time ∷ es) sequence frames = sent_all es sequence frames

-- The writer has found the reader's ring buffer, the object of `i`, and finds no other changes.
-- `frames` are the frames in the ring buffers, and `base` counts those that the writer sent before
-- the reader came; `left` more can be sent.
pub record IsSystem (i : Info) (base left : ℕ) (frames : ℕ → List (List ℕ)) (x : System)
    : Type 0 where
  pub ready : x.sending.writer.is_initialized ≡ true
  pub max : data_size ≤ x.sending.writer.max_slot_size
  pub stable :
      (fs : List Find) → (discover_readers fs x.sending.writer x.world.control).0 ≡ x.sending.writer
  pub apart : AreApart x.sending.writer.readers
  pub rings : AreReady data_size x.sending.writer.readers x.world.rings frames
  pub few : (o : ℕ) → length (frames o) + left + 1 < 2 ^ 64
  pub few_frames : x.sending.sequence + left < 2 ^ 64
  pub found : IsOneOf i x.sending.writer.readers
  pub valid : i.valid ≡ true
  pub attached : IsAttached i.ring_size x.receiving.reader (x.world.rings i.object)
  pub mapped : (a : ℕ) × (x.receiving.reader.ring_header ≡ at a)
  pub count : length (frames i.object) + base ≡ x.sending.sequence
  pub latest :
      (frames i.object ≡ [])
      ⊎ ((older : List (List ℕ)) × (frames i.object ≡ frame (x.sending.sequence - 1) ∷ older))
  pub last : x.receiving.last_total ≤ length (frames i.object)

-- What the lines of a round say, where `total` frames have been pushed to the ring of `n` slots.
-- The writer's: the number is that of the last frame, and at least one reader got it. The reader's:
-- all of these are counted, the number is that of the last one, and the slot is the next to write.
abbrev pub IsGood : ℕ → ℕ → ℕ → Line → Type 0
IsGood n base total (published sequence count) = (sequence + 1 ≡ total + base) × (0 < count)
IsGood n base total (received sequence counted slot) =
    (counted ≡ total) × (sequence + 1 ≡ total + base) × (slot ≡ total % n)
IsGood n base total l = Unit

-- How many frames have been pushed to the ring after a round.
abbrev pub pushes : Event → ℕ → ℕ
pushes (send now fs) total = total + 1
pushes (receive now time) total = total

-- The lines are those of the rounds, one round after the other, and each round's lines say what is
-- so after that round.
abbrev pub AreGood : ℕ → ℕ → List Event → ℕ → List Line → Type 0
AreGood n base [] total lines = lines ≡ []
AreGood n base (e ∷ es) total lines =
    (own : List Line) × (more : List Line) × (lines ≡ own ++ more)
    × All (IsGood n base (pushes e total)) own
    × AreGood n base es (pushes e total) more
