-- ===== src/Channel.antt =====
-- The abstract contract of the double-buffered transports: a channel that keeps the latest frame.
-- The writer replaces the frame and numbers it; a reader that remembers the number of the last
-- frame it saw gets the payload if the number has changed.
use sim_library_v.Prelude.{
  ℕ, Bool, true, false, Option, none, some, List, [], ◌∷◌, length, ltb, add64, ◌==◌, if◌then◌else◌,
}
use sim_library_v.Prelude.Int.{ℤ}

pub record Channel : Type 0 where
  pub frame : ℕ
  pub payload : List ℕ

unfoldable pub publish : List ℕ → Channel → Channel
publish bytes c = record { frame = add64 c.frame 1; payload = bytes }

unfoldable pub poll : ℕ → Channel → Option (List ℕ)
poll last c = if c.frame == last then none else some c.payload

-- What the two ends of a channel do, each call in one piece, and what they see of it.
pub data Op : Type 0 where
  send : ℤ → List ℕ → Op
  receive : Op

pub data Reply : Type 0 where
  sent : Bool → Reply
  got : Option (List ℕ) → Reply

-- Frames longer than `max` are refused; `last` is the number of the last frame received.
module _ (max : ℕ) where
  unfoldable pub serve : Op → Channel → ℕ → Reply × Channel × ℕ
  serve (send now bytes) c last =
      if ltb max (length bytes) then (sent false, c, last) else (sent true, publish bytes c, last)
  serve receive c last = (got (poll last c), c, c.frame)

  unfoldable pub run : List Op → Channel → ℕ → List Reply
  run [] c last = []
  run (op ∷ ops) c last = let (reply, c', last') = serve op c last in reply ∷ run ops c' last'
