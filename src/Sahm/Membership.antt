-- ===== src/Sahm/Membership.antt =====
-- Readers that come and go on a SAHM channel, as a step relation.
pub mod Hold
pub mod Invariant
use sim_library_v.Prelude.{
  ℕ, zero, suc, ◌+◌, ◌≤◌, ◌<◌, ◌≡◌, ◌≢◌, ◌⊎◌, ◌↔◌, inl, inr, refl, sym, add32, sub32, true, false,
  Option, none, some, List, [], ◌∷◌, String, length, get_or, arith, Bool-cases,
}
use sim_library_v.Prelude.Int.{ℤ}
use sim_library_v.Os.{is_null}
use sim_library_v.Sahm.Ring.{Ring}
use sim_library_v.Sahm.Control.{Control, Entry, claim, release, max_readers}
use sim_library_v.Sahm.Register.{count_active, Claimed, claim_takes_free, release_frees}
use sim_library_v.Sahm.Reader
use sim_library_v.Sahm.Reader.{Reader}
use sim_library_v.Sahm.Writer
use sim_library_v.Sahm.Writer.{Writer, no_entry, replicate, Rings, Find, Written, discover_readers}

-- The channel, and the readers whose `init` returned true and that still live.
pub record System : Type 0 where
  pub control : Control
  pub readers : List Reader

-- One reader among others.
pub data Picks : List Reader → Reader → List Reader → Type 0 where
  first : (r : Reader) (rs : List Reader) → Picks (r ∷ rs) r rs
  later :
      {rs rest : List Reader} {r : Reader} (q : Reader)
      → Picks rs r rest
      → Picks (q ∷ rs) r (q ∷ rest)

-- What happens on the channel: a new reader is initialized, with success or without, a reader is
-- destroyed, a writer writes.
pub data Step : System → System → Type 0 where
  join :
      (x : System) (cut : String → String) (a : Reader.Answers) (channel mine : String) (max n : ℕ)
      (ring : Ring) (i : Reader.Init)
      → Reader.init cut a (Reader.new channel mine max n) x.control ring ≡ i
      → i.result ≡ true
      → Step x (record { control = i.control; readers = i.reader ∷ x.readers })
  refuse :
      (x : System) (cut : String → String) (a : Reader.Answers) (channel mine : String) (max n : ℕ)
      (ring : Ring) (i : Reader.Init)
      → Reader.init cut a (Reader.new channel mine max n) x.control ring ≡ i
      → i.result ≡ false
      → Step x (record x { control = i.control })
  leave :
      (x : System) (r : Reader) (rest : List Reader)
      → Picks x.readers r rest
      → Step x (record { control = (Reader.drop r x.control).0; readers = rest })
  publish :
      (x : System) (now : ℤ) (fs : List Find) (w : Writer) (rings : Rings) (bytes : List ℕ)
      (size : ℕ) (y : Written)
      → Writer.write now fs w x.control rings bytes size ≡ some y
      → Step x (record x { control = y.control })

pub data Reach (x : System) : System → Type 0 where
  here : Reach x x
  next : {y z : System} → Reach x y → Step y z → Reach x z
