-- ===== src/Demo/Sahm/Steps.antt =====
-- What a round of examples/sahm_writer.cpp keeps.
use sim_library_v.Prelude.{
  ℕ, ◌+◌, ◌%◌, ◌≡◌, inl, inr, sym, ap, ◌∙◌, some, List, [], ◌∷◌, length, take, take-length, add64,
  arith, ◌==◌, Bool-cases,
}
use sim_library_v.Prelude.Int.{ℤ}
use sim_library_v.Memory.Stores.{All}
use sim_library_v.Sahm.Writer.{Info, Find, Written, discover_readers, write}
use sim_library_v.Sahm.Shape.{SameShape}
use sim_library_v.Sahm.Delivery.{AreDelivered, AreReady, count_valid, write_delivers}
use sim_library_v.Sahm.Repeat.{AreDelivered-AreReady, IsOneOf-IsReady, count_valid-positive}
use sim_library_v.Demo.Frame.{data_size, fill, frame}
use sim_library_v.Demo.Frame.Laws.{slice-fill, length-frame}
use sim_library_v.Demo.Sahm.{Line, published, send_round}
use sim_library_v.Demo.Sahm.Run.{System, send, step, IsSystem, IsGood}

module _ (now : ℤ) (fs : List Find) (i : Info) (base left : ℕ) (frames : ℕ → List (List ℕ))
    (x : System) (v : IsSystem i base (1 + left) frames x) where
  open x use {sending, world, receiving}

  -- What `write` leaves of the frame.
  record IsSent (y : Written) : Type 0 where
    returns :
        write now fs sending.writer world.control world.rings (frame sending.sequence) data_size
        ≡ some y
    count : y.count ≡ count_valid sending.writer.readers
    delivered : AreDelivered (frame sending.sequence) sending.writer.readers y.rings frames
    control : y.control ≡ record world.control { writer_heartbeat_ns = now }
    same : (o : ℕ) → SameShape (world.rings o) (y.rings o)
    writer : y.writer ≡ sending.writer

  whole : take data_size (frame sending.sequence) ≡ frame sending.sequence
  whole =
      ap (λ n. take n (frame sending.sequence)) (sym (length-frame sending.sequence))
      ∙ take-length (frame sending.sequence)

  write-IsSent : (y : Written) × IsSent y
  write-IsSent =
      let e = v.stable fs in
      let (y, returns, count, delivered, others, control, same, writer) =
        write_delivers now fs sending.writer world.control world.rings (frame sending.sequence)
          data_size frames v.ready v.max (omega (arith, length-frame sending.sequence))
          (rw e v.apart) (rw e v.rings) in
      (
        y,
        record {
          returns = returns;
          count = rw e at count;
          delivered = rw (e, whole) at delivered;
          control = control;
          same = same;
          writer = writer ∙ e;
        },
      )

  abbrev sent : Written → System
  sent y = record x {
    sending = record {
      writer = sending.writer;
      bytes = fill sending.sequence sending.bytes;
      sequence = add64 sending.sequence 1;
    };
    world = record {
      control = record world.control { writer_heartbeat_ns = now };
      rings = y.rings;
    };
  }

  abbrev more : ℕ → List (List ℕ)
  more o = frame sending.sequence ∷ frames o

  sent-IsSystem : (y : Written) → IsSent y → IsSystem i base left more (sent y)
  sent-IsSystem y s = record {
    ready = v.ready;
    max = v.max;
    stable = λ gs. unfold discover_readers in v.stable gs;
    apart = v.apart;
    rings = rings;
    few = λ o. omega (arith, v.few o);
    few_frames = omega (arith, v.few_frames);
    found = v.found;
    valid = v.valid;
    attached = record {
      ring_ok =
          (IsOneOf-IsReady data_size i sending.writer.readers y.rings more rings v.found
            v.valid).ring_ok;
      ready = v.attached.ready;
      base = v.attached.base;
      slots = v.attached.slots;
      half = v.attached.half;
      stride = v.attached.stride ∙ sym (s.same i.object).stride;
    };
    mapped = v.mapped;
    count = omega (arith, v.count, v.few_frames);
    latest =
        inr (frames i.object, ap (λ n. frame n ∷ frames i.object) (omega (arith, v.few_frames)));
    last = omega (arith, v.last);
  }
    where
      rings : AreReady data_size sending.writer.readers y.rings more
      rings =
          AreDelivered-AreReady data_size (frame sending.sequence) sending.writer.readers
            world.rings y.rings frames v.rings s.delivered s.same (λ o. omega (arith, v.few o))

  pub send_step :
      (lines : List Line) × (y : System) × (step i.object (send now fs) x ≡ some (lines, y))
      × All (IsGood i.ring_size base (length (frames i.object) + 1)) lines
      × IsSystem i base left more y
      × (y.sending.sequence ≡ sending.sequence + 1)
  unfolding step send_round
  send_step =
      let (y, s) = write-IsSent in
      let next : add64 sending.sequence 1 ≡ sending.sequence + 1 = omega (arith, v.few_frames) in
      let filled = slice-fill sending.sequence sending.bytes in
      elim (Bool-cases (sending.sequence % 30 == 0)) [
        | inl log ↦ (
          published sending.sequence y.count ∷ [],
          sent y,
          ground (arith, filled, s.returns, s.control, s.writer),
          (
            (
              omega (arith, v.count),
              omega (arith, s.count, count_valid-positive i sending.writer.readers v.found v.valid),
            ),
            tt,
          ),
          sent-IsSystem y s,
          next,
        )
        | inr quiet ↦ (
          [],
          sent y,
          ground (arith, filled, s.returns, s.control, s.writer),
          tt,
          sent-IsSystem y s,
          next,
        )
      ]
