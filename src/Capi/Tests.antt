-- ===== src/Capi/Tests.antt =====
-- The C interface at concrete inputs.
use sim_library_v.Prelude.{
  ℕ, ◌≡◌, ◌≢◌, refl, Bool, String, true, Option, none, some, [], ◌∷◌, arith, same_text_iff,
}
use sim_library_v.Prelude.Int.{pos}
use sim_library_v.Channel
use sim_library_v.Channel.{send, receive, sent, got, publish}
use sim_library_v.Transport.Session.{run}
use sim_library_v.Sim.Header.{Segment}
use sim_library_v.Sim
use sim_library_v.Capi.{Globals, destroy, read_data, is_available}
use sim_library_v.Capi.Session.{State, IsOpen, transport, capi_refines}
use sim_library_v.Capi.Release.{destroy_takes_reader}

abbrev globals : Globals
globals = record { writer = some Sim.Tests.writer; reader = some Sim.Tests.reader }

abbrev state : State
state = record { globals = globals; segment = Sim.Tests.segment }

state-IsOpen : IsOpen 4 "/cam" state
state-IsOpen = record {
  writer = Sim.Tests.writer;
  reader = Sim.Tests.reader;
  has_writer = refl;
  has_reader = refl;
  same_name = refl;
  session = record {
    attached = Sim.Tests.writer-IsAttached;
    connected = Sim.Tests.reader-IsConnected;
    writer_max = refl;
    reader_max = refl;
  };
}

capi_refines_example :
    run (transport 4 "/cam") (send (pos 6) (10 ∷ 20 ∷ []) ∷ receive ∷ receive ∷ []) state
    ≡ some (sent true ∷ got (some (10 ∷ 20 ∷ [])) ∷ got none ∷ [])
unfolding Channel.run Channel.serve Channel.poll publish
capi_refines_example =
    capi_refines 4 "/cam" (send (pos 6) (10 ∷ 20 ∷ []) ∷ receive ∷ receive ∷ []) state state-IsOpen

other_name : Sim.Tests.writer.shm_name ≢ "/dev"
other_name e = ground (arith, (same_text_iff "/cam" "/dev").1 e)

destroy_takes_reader_example :
    let g' = (destroy globals "/dev").0 in
    (g'.writer ≡ some Sim.Tests.writer)
    × ((s : Segment) (other : String) (room : Option ℕ) (sized : Bool)
        → read_data g' s other room sized ≡ some (none, g'))
destroy_takes_reader_example = destroy_takes_reader globals Sim.Tests.writer "/dev" refl other_name

probe_closes : (is_available (some 3) "/cam").0 ≡ true
unfolding is_available
probe_closes = refl
