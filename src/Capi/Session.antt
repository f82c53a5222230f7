-- ===== src/Capi/Session.antt =====
-- The C interface is a transport too, on a writer and a reader that it holds.
use sim_library_v.Prelude.{
  ℕ, ◌≡◌, refl, Bool, true, false, Option, none, some, List, String, length, arith, ltb,
  same_text_iff,
}
use mathlib.Core.Path.{subst}
use sim_library_v.Prelude.Int.{ℤ}
use sim_library_v.Memory.{◌>>=◌}
use sim_library_v.Channel
use sim_library_v.Channel.{Op}
use sim_library_v.Transport.{Transport}
use sim_library_v.Transport.Session.{run, session_refines}
use sim_library_v.Sim.Header.{Segment}
use sim_library_v.Sim.Writer.{Writer, write}
use sim_library_v.Sim.Reader.{Reader}
use sim_library_v.Sim.Valid.{view}
use sim_library_v.Sim.Session.{
  Session, IsSession, write_call, read_call, write_call_long, write_call_fits, read_call_next,
}
use sim_library_v.Capi.{Globals, write_data, read_data}

pub record State : Type 0 where
  pub globals : Globals
  pub segment : Segment

-- The objects held are attached to the segment, and the writer has this name.
pub record IsOpen (max : ℕ) (name : String) (x : State) : Type 0 where
  pub writer : Writer
  pub reader : Reader
  pub has_writer : x.globals.writer ≡ some writer
  pub has_reader : x.globals.reader ≡ some reader
  pub same_name : writer.shm_name ≡ name
  pub session : IsSession max (record { writer = writer; reader = reader; segment = x.segment })

-- The number of the last frame read.
abbrev pub last_frame : State → ℕ
last_frame x = elim x.globals.reader [ none ↦ 0 | some r ↦ r.last_frame ]

unfoldable pub send_call : String → ℤ → List ℕ → State → Option (Bool × State)
send_call name now bytes x = do
  (done, g, s) ← write_data now x.globals x.segment name (some bytes) (length bytes)
  some (done, record { globals = g; segment = s })

-- The destination has `max` bytes.
unfoldable pub receive_call : ℕ → String → State → Option (Option (List ℕ) × State)
receive_call max name x = do
  (bytes, g) ← read_data x.globals x.segment name (some max) true
  some (bytes, record x { globals = g })

write_call-keeps_name :
    (now : ℤ) (bytes : List ℕ) (x y : Session) (done : Bool)
    → write_call now bytes x ≡ some (done, y)
    → (y.writer.shm_name ≡ x.writer.shm_name) × (y.reader ≡ x.reader)
unfolding write_call write
write_call-keeps_name now bytes x y done e = ground (arith, e)

read_call-keeps_writer :
    (x y : Session) (bytes : Option (List ℕ))
    → read_call x ≡ some (bytes, y)
    → y ≡ record x { reader = y.reader }
unfolding read_call
read_call-keeps_writer x y bytes e = ground (arith, e)

module _ (max : ℕ) (name : String) (x : State) (v : IsOpen max name x) where
  -- The calls of the interface are those of the objects.
  session : Session
  session = record { writer = v.writer; reader = v.reader; segment = x.segment }

  sent_state : Session → State
  sent_state y = record {
    globals = record x.globals { writer = some y.writer };
    segment = y.segment;
  }

  send_call-write_call :
      (now : ℤ) (bytes : List ℕ) (done : Bool) (y : Session)
      → write_call now bytes session ≡ some (done, y)
      → send_call name now bytes x ≡ some (done, sent_state y)
  unfolding send_call write_data write_call session sent_state
  send_call-write_call now bytes done y e =
      ground (arith, e, v.has_writer, (same_text_iff v.writer.shm_name name).1 v.same_name)

  receive_call-read_call :
      (bytes : Option (List ℕ)) (y : Session)
      → read_call session ≡ some (bytes, y)
      → receive_call max name x
        ≡ some (bytes, record x { globals = record x.globals { reader = some y.reader } })
  unfolding receive_call read_data read_call session
  receive_call-read_call bytes y e = ground (arith, e, v.has_reader, v.session.reader_max)

  pub send_call_long :
      (now : ℤ) (bytes : List ℕ)
      → ltb max (length bytes) ≡ true
      → send_call name now bytes x ≡ some (false, x)
  unfolding session sent_state
  send_call_long now bytes long =
      let e = write_call_long max session v.session now bytes long in
      ground (arith, send_call-write_call now bytes false session e, v.has_writer)

  pub send_call_fits :
      (now : ℤ) (bytes : List ℕ)
      → ltb max (length bytes) ≡ false
      → (y : State) × (send_call name now bytes x ≡ some (true, y))
        × IsOpen max name y
        × (view y.segment ≡ Channel.publish bytes (view x.segment))
        × (last_frame y ≡ last_frame x)
  unfolding session sent_state
  send_call_fits now bytes fits =
      let (y, e, s, presents, last) = write_call_fits max session v.session now bytes fits in
      let (named, same) = write_call-keeps_name now bytes session y true e in
      (
        sent_state y,
        send_call-write_call now bytes true y e,
        record {
          writer = y.writer;
          reader = y.reader;
          has_writer = refl;
          has_reader = ground (arith, same, v.has_reader);
          same_name = ground (arith, named, v.same_name);
          session = s;
        },
        presents,
        refl,
      )

  pub receive_call_next :
      (y : State) × (receive_call max name x
        ≡ some (Channel.poll (last_frame x) (view x.segment), y))
      × IsOpen max name y
      × (view y.segment ≡ view x.segment)
      × (last_frame y ≡ (view x.segment).frame)
  unfolding session
  receive_call_next =
      let (y, e, s, presents, last) = read_call_next max session v.session in
      let kept = read_call-keeps_writer session y _ e in
      (
        record x { globals = record x.globals { reader = some y.reader } },
        ground (arith, receive_call-read_call _ y e, v.has_reader),
        record {
          writer = v.writer;
          reader = y.reader;
          has_writer = v.has_writer;
          has_reader = refl;
          same_name = v.same_name;
          session = subst (IsSession max) kept s;
        },
        refl,
        last,
      )

abbrev pub transport : (max : ℕ) → String → Transport State max
transport max name = record {
  send = send_call name;
  receive = receive_call max name;
  IsValid = IsOpen max name;
  channel = λ x. view x.segment;
  last = last_frame;
  send_long = λ now bytes x v. send_call_long max name x v now bytes;
  send_fits = λ now bytes x v. send_call_fits max name x v now bytes;
  receive_next = receive_call_next max name;
}

-- On a writer and a reader of SIM that the two globals hold and that are attached to one
-- segment, with the same maximal size: any sequence of calls of `writeData` with the writer's
-- name and of `readData` runs into no undefined behaviour, and every call is answered as the
-- abstract channel answers it.
pub capi_refines :
    (max : ℕ) (name : String) (ops : List Op) (x : State)
    → IsOpen max name x
    → run (transport max name) ops x ≡ some (Channel.run max ops (view x.segment) (last_frame x))
capi_refines max name = session_refines (transport max name)
