-- ===== src/Capi.antt =====
-- The functions of `SIM::C_API` of src/sim.cpp over the two global objects `g_writer` and
-- `g_reader`. A name is a text, never `nullptr`; `none` is undefined behaviour.
pub mod Session
pub mod Release
mod Tests
use sim_library_v.Prelude.{
  ℕ, Bool, true, false, Option, none, some, List, [], ◌∷◌, ◌++◌, String, same_text, not,
  if◌then◌else◌,
}
use sim_library_v.Prelude.Int.{ℤ}
use sim_library_v.Memory.{◌>>=◌}
use sim_library_v.Os.{Call, shm_open, shm_unlink, close}
use sim_library_v.Sim.Header.{Segment}
use sim_library_v.Sim.Writer
use sim_library_v.Sim.Writer.{Writer}
use sim_library_v.Sim.Reader
use sim_library_v.Sim.Reader.{Reader}

-- `g_writer` and `g_reader`; `none` is an empty `unique_ptr`.
pub record Globals : Type 0 where
  pub writer : Option Writer
  pub reader : Option Reader

-- What the destructor of an object held calls.
abbrev pub drop_writer : Option Writer → List Call
drop_writer none = []
drop_writer (some w) = Writer.drop w

abbrev pub drop_reader : Option Reader → List Call
drop_reader none = []
drop_reader (some r) = Reader.drop r

-- The new object takes the place of the old one, which is destroyed, before `init`.
unfoldable pub writer_init :
    Writer.Answers → Globals → Segment → String → ℕ → Bool → Bool × Globals × Segment × List Call
writer_init a g s name size enable_checksum =
    let i = Writer.init a (Writer.new name size enable_checksum) s in
    (i.result, record g { writer = some i.writer }, i.segment, drop_writer g.writer ++ i.calls)

unfoldable pub reader_init :
    Reader.Answers → Globals → Segment → String → ℕ → Option (Bool × Globals × List Call)
reader_init a g s name size = do
  i ← Reader.init a (Reader.new name size) s
  some (i.result, record g { reader = some i.reader }, drop_reader g.reader ++ i.calls)

unfoldable pub write_data :
    ℤ → Globals → Segment → String → Option (List ℕ) → ℕ → Option (Bool × Globals × Segment)
write_data now g s name bytes size = elim g.writer [
  | none ↦ some (false, g, s)
  | some w ↦ if not (same_text w.shm_name name) then some (false, g, s) else do
    (done, w', s') ← Writer.write now w s bytes size
    some (done, record g { writer = some w' }, s')
]

-- The name is not used. `sized` tells whether `size` is a pointer.
unfoldable pub read_data :
    Globals → Segment → String → Option ℕ → Bool → Option (Option (List ℕ) × Globals)
read_data g s name room sized = elim g.reader [
  | none ↦ some (none, g)
  | some r ↦
      if not sized
      then some (none, g)
      else do (bytes, r') ← Reader.read r s room; some (bytes, record g { reader = some r' })
]

-- `g_writer->destroy()` and `g_writer.reset()`, if the name is the writer's.
abbrev pub destroy_writer : Option Writer → String → Option Writer × List Call
destroy_writer none name = (none, [])
destroy_writer (some w) name =
    let (w', calls) = Writer.destroy w in
    if same_text w.shm_name name then (none, calls ++ Writer.drop w') else (some w, [])

-- The reader goes, whatever its name.
unfoldable pub destroy : Globals → String → Globals × List Call
destroy g name =
    let (writer, calls) = destroy_writer g.writer name in
    (
      record { writer = writer; reader = none },
      calls ++ (drop_reader g.reader ++ shm_unlink name ∷ []),
    )

-- `isAvailable`, by what `shm_open` answers.
unfoldable pub is_available : Option ℕ → String → Bool × List Call
is_available none name = (false, shm_open name none ∷ [])
is_available (some fd) name = (true, shm_open name (some fd) ∷ close fd ∷ [])
