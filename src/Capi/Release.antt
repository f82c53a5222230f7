-- ===== src/Capi/Release.antt =====
-- What the C interface gives back, and what `destroy` does to objects of another name.
use sim_library_v.Prelude.{
  ℕ, ◌≡◌, ◌≢◌, refl, Bool, Option, none, some, List, ◌++◌, String, arith, same_text_iff,
}
use sim_library_v.Os.{Call, Ledger, enter_all}
use sim_library_v.Sim.Header.{Segment}
use sim_library_v.Sim.Writer
use sim_library_v.Sim.Writer.{Writer}
use sim_library_v.Sim.Reader
use sim_library_v.Sim.Reader.{Reader}
use sim_library_v.Capi.{Globals, writer_init, reader_init, destroy, read_data}

abbrev pub no_objects : Globals
no_objects = record { writer = none; reader = none }

-- From no objects: `writerInit`, `readerInit` and `destroy`, with one name, release what was
-- acquired, each thing once, and nothing else, whatever the system calls answer and whether or
-- not the initializations succeed; no object is left. The reader does not fault.
pub capi_releases :
    (a : Writer.Answers) (b : Reader.Answers) (name : String) (size : ℕ) (checked : Bool)
    (s t : Segment) (l : Ledger) (ready : Bool) (g' : Globals) (calls' : List Call)
    → let (done, g, s', calls) = writer_init a no_objects s name size checked in
      reader_init b g t name size ≡ some (ready, g', calls')
      → let (g'', calls'') = destroy g' name in
        (enter_all (calls ++ (calls' ++ calls'')) l ≡ some l) × (g'' ≡ no_objects)
unfolding writer_init reader_init destroy Writer.init Writer.new Writer.destroy Writer.drop
    Reader.init Reader.new Reader.drop enter_all
capi_releases a b name size checked s t l ready g' calls' ran =
    (ground (arith, ran, same_text_iff name name), ground (arith, ran, same_text_iff name name))

-- `destroy` with a name that is not the writer's keeps the writer but takes the reader away,
-- whatever the reader's name: `readData` then returns false on any segment.
pub destroy_takes_reader :
    (g : Globals) (w : Writer) (name : String)
    → g.writer ≡ some w
    → w.shm_name ≢ name
    → let g' = (destroy g name).0 in
      (g'.writer ≡ some w)
      × ((s : Segment) (other : String) (room : Option ℕ) (sized : Bool)
          → read_data g' s other room sized ≡ some (none, g'))
unfolding destroy read_data
destroy_takes_reader g w name e ne =
    (ground (arith, e, same_text_iff w.shm_name name), λ s other room sized. refl)
