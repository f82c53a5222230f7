-- ===== src/Sim/Session.antt =====
-- A writer and a reader on one segment, in any order of calls, against the channel.
use sim_library_v.Prelude.{
  ℕ, ◌≡◌, refl, Bool, true, false, Option, some, List, length, arith, ltb, take-length, add64,
}
use sim_library_v.Memory.{◌>>=◌}
use sim_library_v.Channel
use sim_library_v.Channel.{Op, send, receive, Reply, sent, got}
use sim_library_v.Transport.{Transport}
use sim_library_v.Transport.Session.{run, session_refines}
use sim_library_v.Sim.Header.{Segment}
use sim_library_v.Sim.Writer.{Writer, write}
use sim_library_v.Sim.Reader.{Reader, read}
use sim_library_v.Prelude.Int.{ℤ}
use sim_library_v.Sim.Write.{
  write_rejects, written, write-written, written-IsAttached, view-written,
}
use sim_library_v.Sim.Read.{read_refines}
use sim_library_v.Sim.Roundtrip.{written-IsConnected}
use sim_library_v.Sim.Valid.{view, IsAttached, IsConnected}

pub record Session : Type 0 where
  pub writer : Writer
  pub reader : Reader
  pub segment : Segment

pub record IsSession (max : ℕ) (x : Session) : Type 0 where
  pub attached : IsAttached x.writer x.segment
  pub connected : IsConnected x.reader x.segment
  pub writer_max : x.writer.max_size ≡ max
  pub reader_max : x.reader.max_size ≡ max

unfoldable pub write_call : ℤ → List ℕ → Session → Option (Bool × Session)
write_call now bytes x = do
  (done, w, s) ← write now x.writer x.segment (some bytes) (length bytes)
  some (done, record x { writer = w; segment = s })

-- A reader's buffer has `max_size` bytes.
unfoldable pub read_call : Session → Option (Option (List ℕ) × Session)
read_call x = do
  (bytes, r) ← read x.reader x.segment (some x.reader.max_size)
  some (bytes, record x { reader = r })

module _ (max : ℕ) (x : Session) (v : IsSession max x) where
  open x use {writer, reader, segment}

  pub write_call_long :
      (now : ℤ) (bytes : List ℕ)
      → ltb max (length bytes) ≡ true
      → write_call now bytes x ≡ some (false, x)
  unfolding write_call
  write_call_long now bytes long =
      ground (arith, v.writer_max, (write_rejects now writer segment (some bytes) (length bytes)).1)

  pub write_call_fits :
      (now : ℤ) (bytes : List ℕ)
      → ltb max (length bytes) ≡ false
      → (y : Session) × (write_call now bytes x ≡ some (true, y))
        × IsSession max y
        × (view y.segment ≡ Channel.publish bytes (view segment))
        × (y.reader.last_frame ≡ reader.last_frame)
  unfolding write_call
  write_call_fits now bytes fits = (
    record x {
      writer = record writer { frame_count = add64 writer.frame_count 1 };
      segment = written now writer segment bytes;
    },
    ground (arith, write-written now writer segment bytes (length bytes), take-length bytes),
    record {
      attached = written-IsAttached now writer segment bytes v.attached (ground arith);
      connected =
          written-IsConnected now writer reader segment bytes v.attached v.connected (ground arith);
      writer_max = v.writer_max;
      reader_max = v.reader_max;
    },
    ground (arith, view-written now writer segment bytes v.attached),
    refl,
  )

  pub read_call_next :
      (y : Session) × (read_call x ≡ some (Channel.poll reader.last_frame (view segment), y))
      × IsSession max y
      × (view y.segment ≡ view segment)
      × (y.reader.last_frame ≡ (view segment).frame)
  unfolding read_call
  read_call_next =
      let (r', e, c, seen) =
        read_refines reader segment reader.max_size v.connected (omega arith) in
      (
        record x { reader = r' },
        ground (arith, e),
        record {
          attached = v.attached;
          connected = c;
          writer_max = v.writer_max;
          reader_max = omega (arith, c.capacity, v.connected.capacity, v.reader_max);
        },
        refl,
        seen,
      )

-- SIM is a transport.
abbrev pub transport : (max : ℕ) → Transport Session max
transport max = record {
  send = write_call;
  receive = read_call;
  IsValid = IsSession max;
  channel = λ x. view x.segment;
  last = λ x. x.reader.last_frame;
  send_long = λ now bytes x v. write_call_long max x v now bytes;
  send_fits = λ now bytes x v. write_call_fits max x v now bytes;
  receive_next = read_call_next max;
}

-- From an attached writer and a connected reader with the same maximal size, any sequence of
-- writes and reads runs into no undefined behaviour, and the two sides see exactly what the
-- abstract channel gives: every read the latest frame not yet seen, byte for byte, or nothing,
-- and every write whether it fits.
pub run_refines :
    (max : ℕ) (ops : List Op) (x : Session)
    → IsSession max x
    → run (transport max) ops x ≡ some (Channel.run max ops (view x.segment) x.reader.last_frame)
run_refines max = session_refines (transport max)
