-- ===== src/Transport.antt =====
-- The interface of the double-buffered transports: what a writer and a reader on one segment do,
-- and the laws by which they implement a channel. SIM, BARQ and CASIR fill it.
pub mod Session
pub mod Wait
pub mod Rounds
use sim_library_v.Prelude.{ℕ, ◌≡◌, Bool, true, false, Option, none, some, List, length, ltb}
use sim_library_v.Prelude.Int.{ℤ}
use sim_library_v.Channel.{Channel, publish, poll}

-- `S` is the state of the two objects and their segment. `none` is undefined behaviour.
pub record Transport (S : Type 0) (max : ℕ) : Type 1 where
  pub send : ℤ → List ℕ → S → Option (Bool × S)
  pub receive : S → Option (Option (List ℕ) × S)
  pub IsValid : S → Type 0
  pub channel : S → Channel
  pub last : S → ℕ
  pub send_long :
      (now : ℤ) (bytes : List ℕ) (x : S)
      → IsValid x
      → ltb max (length bytes) ≡ true
      → send now bytes x ≡ some (false, x)
  pub send_fits :
      (now : ℤ) (bytes : List ℕ) (x : S)
      → IsValid x
      → ltb max (length bytes) ≡ false
      → (y : S) × (send now bytes x ≡ some (true, y))
        × IsValid y
        × (channel y ≡ publish bytes (channel x))
        × (last y ≡ last x)
  pub receive_next :
      (x : S)
      → IsValid x
      → (y : S) × (receive x ≡ some (poll (last x) (channel x), y))
        × IsValid y
        × (channel y ≡ channel x)
        × (last y ≡ (channel x).frame)
