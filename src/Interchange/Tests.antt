-- ===== src/Interchange/Tests.antt =====
-- The three transports at a concrete sequence of calls.
use sim_library_v.Prelude.{◌≡◌, refl, List, [], ◌∷◌}
use sim_library_v.Prelude.Int.{pos}
use sim_library_v.Channel.{Op, send, receive}
use sim_library_v.Memory.{slice}
use sim_library_v.Transport.Session.{run}
use sim_library_v.Sim
use sim_library_v.Barq
use sim_library_v.Casir
use sim_library_v.Interchange.{interchange}

abbrev ops : List Op
ops = send (pos 6) (10 ∷ 20 ∷ 30 ∷ []) ∷ receive ∷ receive ∷ []

abbrev sim : Sim.Session.Session
sim = record { writer = Sim.Tests.writer; reader = Sim.Tests.reader; segment = Sim.Tests.segment }

abbrev barq : Barq.Session.Session
barq = record {
  writer = Barq.Tests.writer;
  reader = Barq.Tests.reader;
  segment = Barq.Tests.segment;
}

abbrev casir : Casir.Session.Session
casir = record {
  writer = Casir.Tests.writer;
  reader = Casir.Tests.reader;
  segment = Casir.Tests.segment;
}

interchange_example :
    (run (Sim.Session.transport 4) ops sim ≡ run (Barq.Session.transport 4) ops barq)
    × (run (Sim.Session.transport 4) ops sim ≡ run (Casir.Session.transport 4) ops casir)
unfolding slice
interchange_example =
    interchange 4 ops sim barq casir
      (record {
        attached = Sim.Tests.writer-IsAttached;
        connected = Sim.Tests.reader-IsConnected;
        writer_max = refl;
        reader_max = refl;
      })
      (record {
        attached = Barq.Tests.writer-IsAttached;
        connected = Barq.Tests.reader-IsConnected;
        writer_max = refl;
      })
      (record {
        attached = Casir.Tests.writer-IsAttached;
        connected = Casir.Tests.reader-IsConnected;
        writer_max = refl;
        reader_max = refl;
        free = refl;
      })
      refl refl refl refl
