-- ===== src/Sim/Tests/Life.antt =====
-- `init`, the lifecycles and a whole session of SIM at concrete inputs.
use sim_library_v.Prelude.{◌≡◌, refl, true, false, none, some, List, [], ◌∷◌}
use sim_library_v.Prelude.Int.{pos}
use sim_library_v.Channel
use sim_library_v.Channel.{Op, send, receive, Reply, sent, got}
use sim_library_v.Memory.{blit, slice}
use sim_library_v.Sim.Checksum.{calculate_checksum}
use sim_library_v.Sim.Writer
use sim_library_v.Sim.Writer.{Writer}
use sim_library_v.Sim.Reader
use sim_library_v.Sim.Reader.{Reader}
use sim_library_v.Sim.Valid.{view}
use sim_library_v.Sim.Session.{Session, transport, write_call, read_call, run_refines}
use sim_library_v.Transport.Session.{run}
use sim_library_v.Sim.Tests.{writer, reader, segment, writer-IsAttached, reader-IsConnected}

abbrev session : Session
session = record { writer = writer; reader = reader; segment = segment }

abbrev script : List Op
script =
    receive
    ∷ send (pos 6) (1 ∷ 2 ∷ [])
    ∷ send (pos 7) (3 ∷ [])
    ∷ receive
    ∷ receive
    ∷ send (pos 8) (1 ∷ 2 ∷ 3 ∷ 4 ∷ 5 ∷ [])
    ∷ []

session_runs :
    run (transport 4) script session
    ≡ some (got none ∷ sent true ∷ sent true ∷ got (some (3 ∷ [])) ∷ got none ∷ sent false ∷ [])
unfolding run write_call read_call Writer.write Reader.read slice blit calculate_checksum
session_runs = refl

run_refines_example :
    run (transport 4) script session ≡ some (Channel.run 4 script (view segment) 0)
run_refines_example = run_refines 4 script session (record {
  attached = writer-IsAttached;
  connected = reader-IsConnected;
  writer_max = refl;
  reader_max = refl;
})
