-- ===== src/Interchange.antt =====
-- The three double-buffered transports against each other.
mod Tests
use sim_library_v.Prelude.{ℕ, ◌≡◌, List}
use sim_library_v.Channel.{Op}
use sim_library_v.Transport.Session.{run, transports_agree}
use sim_library_v.Sim
use sim_library_v.Barq
use sim_library_v.Casir

-- SIM, BARQ and CASIR cannot be told apart by their answers: from an attached writer and a
-- connected reader on a segment of each, with the same maximal size, where the segments present
-- the same frame and the readers remember the same number, any sequence of sends and receives
-- gets the same answers from each of the three.
pub interchange :
    (max : ℕ) (ops : List Op) (x : Sim.Session.Session) (y : Barq.Session.Session)
    (z : Casir.Session.Session)
    → Sim.Session.IsSession max x
    → Barq.Session.IsSession max y
    → Casir.Session.IsSession max z
    → Sim.Valid.view x.segment ≡ Barq.Valid.view y.segment
    → Sim.Valid.view x.segment ≡ Casir.Valid.view z.segment
    → x.reader.last_frame ≡ y.reader.last_seq
    → x.reader.last_frame ≡ z.reader.last_frame
    → (run (Sim.Session.transport max) ops x ≡ run (Barq.Session.transport max) ops y)
      × (run (Sim.Session.transport max) ops x ≡ run (Casir.Session.transport max) ops z)
interchange max ops x y z u v w same_y same_z seen_y seen_z = (
  transports_agree (Sim.Session.transport max) (Barq.Session.transport max) ops x y u v same_y
      seen_y,
  transports_agree (Sim.Session.transport max) (Casir.Session.transport max) ops x z u w same_z
      seen_z,
)
