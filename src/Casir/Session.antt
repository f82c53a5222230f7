-- ===== src/Casir/Session.antt =====
-- CASIR is a transport: `write`, and `read`, which copies the frame.
use sim_library_v.Prelude.{
  ℕ, ◌≤◌, ◌≡◌, refl, Bool, true, false, Option, some, List, length, arith, ltb,
}
use sim_library_v.Prelude.Int.{ℤ}
use sim_library_v.Memory.{◌>>=◌}
use sim_library_v.Channel
use sim_library_v.Channel.{Op}
use sim_library_v.Transport.{Transport}
use sim_library_v.Transport.Session.{run, session_refines}
use sim_library_v.Casir.Header.{Segment}
use sim_library_v.Casir.Writer.{Writer, write}
use sim_library_v.Casir.Reader.{Reader, read}
use sim_library_v.Casir.Write.{
  writes_refuse, written, next, write_all, written-IsAttached, view-written, written-IsConnected,
}
use sim_library_v.Casir.Read.{read_refines_channel}
use sim_library_v.Casir.Valid.{view, IsAttached, IsConnected}

pub record Session : Type 0 where
  pub writer : Writer
  pub reader : Reader
  pub segment : Segment

pub record IsSession (max : ℕ) (x : Session) : Type 0 where
  pub attached : IsAttached x.writer x.segment
  pub connected : IsConnected x.reader x.segment
  pub writer_max : x.writer.max_size ≡ max
  pub reader_max : x.reader.max_size ≡ max
  pub free : x.reader.zero_copy_active ≡ false

unfoldable pub write_call : ℤ → List ℕ → Session → Option (Bool × Session)
write_call now bytes x = do
  (done, w, s) ← write now x.writer x.segment bytes (length bytes)
  some (done, record x { writer = w; segment = s })

-- The destination has `max_size` bytes.
unfoldable pub read_call : Session → Option (Option (List ℕ) × Session)
read_call x = do
  (bytes, r) ← read x.reader x.segment x.reader.max_size
  some (bytes, record x { reader = r })

module _ (max : ℕ) (x : Session) (v : IsSession max x) where
  open x use {writer, reader, segment}

  pub write_call_long :
      (now : ℤ) (bytes : List ℕ)
      → ltb max (length bytes) ≡ true
      → write_call now bytes x ≡ some (false, x)
  unfolding write_call
  write_call_long now bytes long =
      ground (arith, v.writer_max, (writes_refuse now writer segment bytes (length bytes)).0.1)

  pub write_call_fits :
      (now : ℤ) (bytes : List ℕ)
      → ltb max (length bytes) ≡ false
      → (y : Session) × (write_call now bytes x ≡ some (true, y))
        × IsSession max y
        × (view y.segment ≡ Channel.publish bytes (view segment))
        × (y.reader.last_frame ≡ reader.last_frame)
  unfolding write_call
  write_call_fits now bytes fits =
      let room : length bytes ≤ writer.max_size = ground (arith, v.writer_max) in
      (
        record x { writer = next writer; segment = written now writer segment bytes },
        ground (arith, write_all now writer segment v.attached bytes room),
        record {
          attached = written-IsAttached now writer segment v.attached bytes room;
          connected =
              written-IsConnected now writer segment v.attached reader bytes v.connected room;
          writer_max = v.writer_max;
          reader_max = v.reader_max;
          free = v.free;
        },
        view-written now writer segment v.attached bytes,
        refl,
      )

  pub read_call_next :
      (y : Session) × (read_call x ≡ some (Channel.poll reader.last_frame (view segment), y))
      × IsSession max y
      × (view y.segment ≡ view segment)
      × (y.reader.last_frame ≡ (view segment).frame)
  unfolding read_call
  read_call_next =
      let (r', e, c, same, free, seen) =
        read_refines_channel reader segment reader.max_size v.connected (omega arith) in
      (
        record x { reader = r' },
        ground (arith, e),
        record {
          attached = v.attached;
          connected = c;
          writer_max = v.writer_max;
          reader_max = omega (arith, same, v.reader_max);
          free = ground (arith, free, v.free);
        },
        refl,
        seen,
      )

-- CASIR with `write` and `read`.
abbrev pub transport : (max : ℕ) → Transport Session max
transport max = record {
  send = write_call;
  receive = read_call;
  IsValid = IsSession max;
  channel = λ x. view x.segment;
  last = λ x. x.reader.last_frame;
  send_long = λ now bytes x v. write_call_long max x v now bytes;
  send_fits = λ now bytes x v. write_call_fits max x v now bytes;
  receive_next = read_call_next max;
}

-- From an attached writer and a connected reader with the same maximal size, any sequence of
-- `write` and `read` runs into no undefined behaviour, and every call is answered as the abstract
-- channel answers it.
pub casir_refines :
    (max : ℕ) (ops : List Op) (x : Session)
    → IsSession max x
    → run (transport max) ops x ≡ some (Channel.run max ops (view x.segment) x.reader.last_frame)
casir_refines max = session_refines (transport max)
