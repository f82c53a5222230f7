-- ===== src/Barq/Session.antt =====
-- BARQ is a transport: `write`, and `getLatest` with a look at the bytes behind its pointer.
use sim_library_v.Prelude.{
  ℕ, ◌+◌, ◌^◌, ◌≤◌, ◌≡◌, refl, Bool, true, false, Option, some, List, length, arith, ltb, add64,
}
use sim_library_v.Prelude.Int.{ℤ}
use sim_library_v.Align.{cache_line}
use sim_library_v.Memory.{◌>>=◌}
use sim_library_v.Channel
use sim_library_v.Channel.{Op}
use sim_library_v.Transport.{Transport}
use sim_library_v.Transport.Session.{run, session_refines}
use sim_library_v.Barq.Header.{Segment}
use sim_library_v.Barq.Writer.{Writer, write, set_metadata}
use sim_library_v.Barq.Reader.{Reader, get_latest}
use sim_library_v.Barq.Valid.{view, IsAttached, IsConnected}
use sim_library_v.Barq.Write.{write_refuses, written, write_all, written-IsAttached, view-written}
use sim_library_v.Barq.Read.{bytes_of, get_latest_refines}

pub record Session : Type 0 where
  pub writer : Writer
  pub reader : Reader
  pub segment : Segment

pub record IsSession (max : ℕ) (x : Session) : Type 0 where
  pub attached : IsAttached x.writer x.segment
  pub connected : IsConnected x.reader x.segment
  pub writer_max : x.writer.max_size ≡ max

unfoldable pub write_call : ℤ → List ℕ → Session → Option (Bool × Session)
write_call now bytes x = do
  (done, w, s) ← write now x.writer x.segment bytes (length bytes)
  some (done, record x { writer = w; segment = s })

unfoldable pub latest_call : Session → Option (Option (List ℕ) × Session)
latest_call x = do
  (latest, r) ← get_latest x.reader x.segment
  some (bytes_of x.segment latest, record x { reader = r })

written-IsConnected :
    (now : ℤ) (w : Writer) (s : Segment) (r : Reader) (bytes : List ℕ)
    → IsAttached w s
    → IsConnected r s
    → length bytes ≤ w.max_size
    → IsConnected r (written now w s bytes)
unfolding set_metadata
written-IsConnected now w s r bytes v c h =
    let a = written-IsAttached now w s bytes v h in
    record {
      segment = a.segment;
      ready = c.ready;
      base = c.base;
      mapped = c.mapped;
      first = c.first;
      second = c.second;
      capacity = omega (arith, a.capacity, v.capacity, c.capacity);
    }

module _ (max : ℕ) (x : Session) (v : IsSession max x) where
  open x use {writer, reader, segment}

  pub write_call_long :
      (now : ℤ) (bytes : List ℕ)
      → ltb max (length bytes) ≡ true
      → write_call now bytes x ≡ some (false, x)
  unfolding write_call
  write_call_long now bytes long =
      ground (arith, v.writer_max, (write_refuses now writer segment bytes (length bytes)).0.1)

  pub write_call_fits :
      (now : ℤ) (bytes : List ℕ)
      → ltb max (length bytes) ≡ false
      → (y : Session) × (write_call now bytes x ≡ some (true, y))
        × IsSession max y
        × (view y.segment ≡ Channel.publish bytes (view segment))
        × (y.reader.last_seq ≡ reader.last_seq)
  unfolding write_call
  write_call_fits now bytes fits =
      let room : length bytes ≤ writer.max_size = ground (arith, v.writer_max) in
      (
        record x {
          writer = record writer { frame_count = add64 writer.frame_count 1 };
          segment = written now writer segment bytes;
        },
        ground (arith, write_all now writer segment bytes v.attached room),
        record {
          attached = written-IsAttached now writer segment bytes v.attached room;
          connected =
              written-IsConnected now writer segment reader bytes v.attached v.connected room;
          writer_max = v.writer_max;
        },
        view-written now writer segment bytes v.attached,
        refl,
      )

  pub latest_call_next :
      (y : Session) × (latest_call x ≡ some (Channel.poll reader.last_seq (view segment), y))
      × IsSession max y
      × (view y.segment ≡ view segment)
      × (y.reader.last_seq ≡ (view segment).frame)
  unfolding latest_call
  latest_call_next =
      let small : reader.max_size + cache_line ≤ 2 ^ 64 =
        omega (arith, v.attached.small, v.attached.capacity, v.connected.capacity) in
      let (result, r', e, bytes, inside, seen, c) =
        get_latest_refines reader segment v.connected small in
      (
        record x { reader = r' },
        ground (arith, e, bytes),
        record { attached = v.attached; connected = c; writer_max = v.writer_max },
        refl,
        seen,
      )

abbrev pub transport : (max : ℕ) → Transport Session max
transport max = record {
  send = write_call;
  receive = latest_call;
  IsValid = IsSession max;
  channel = λ x. view x.segment;
  last = λ x. x.reader.last_seq;
  send_long = λ now bytes x v. write_call_long max x v now bytes;
  send_fits = λ now bytes x v. write_call_fits max x v now bytes;
  receive_next = latest_call_next max;
}

-- From an attached writer and a connected reader, any sequence of calls of `write` and
-- `getLatest` runs into no undefined behaviour, and every call is answered as the abstract
-- channel answers it, if the bytes behind the pointer of `getLatest` are looked at before the
-- next call.
pub barq_refines :
    (max : ℕ) (ops : List Op) (x : Session)
    → IsSession max x
    → run (transport max) ops x ≡ some (Channel.run max ops (view x.segment) x.reader.last_seq)
barq_refines max = session_refines (transport max)
