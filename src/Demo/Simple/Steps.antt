-- ===== src/Demo/Simple/Steps.antt =====
-- What a round of examples/simple_writer.cpp keeps.
use sim_library_v.Prelude.{
  ◌+◌, ◌%◌, ◌^◌, ◌<◌, ◌≤◌, ◌≡◌, inl, inr, true, some, List, [], ◌∷◌, length, ap, ◌∙◌, arith, add64,
  ◌==◌, Bool-cases,
}
use mathlib.Core.Path.{subst}
use sim_library_v.Prelude.Int.{ℤ}
use sim_library_v.Memory.{slice}
use sim_library_v.Memory.Stores.{All}
use sim_library_v.Sim.Header.{Segment}
use sim_library_v.Sim.Writer.{write}
use sim_library_v.Sim.Valid.{view}
use sim_library_v.Sim.Write.{written, write_all, written-IsAttached}
use sim_library_v.Sim.Roundtrip.{written-IsConnected, frame-written, payload-written}
use sim_library_v.Demo.Frame.{data_size, frame, fill}
use sim_library_v.Demo.Frame.Laws.{length-frame, slice-fill}
use sim_library_v.Demo.Simple.{Line, sequence_is, Sending, Receiving, send_round}
use sim_library_v.Demo.Simple.Run.{IsReceiving, IsSending, IsGood}

-- The round's segment.
abbrev pub sent : ℤ → Sending → Segment → Segment
sent now m s = written now m.writer s (frame m.sequence)

abbrev pub next : Sending → Sending
next m = record {
  writer = record m.writer { frame_count = add64 m.writer.frame_count 1 };
  bytes = fill m.sequence m.bytes;
  sequence = add64 m.sequence 1;
}

module _ (now : ℤ) (m : Sending) (s : Segment) (v : IsSending m s) where
  fits : length (frame m.sequence) ≤ m.writer.max_size
  fits = omega (arith, length-frame m.sequence, v.max)

  number : (view (sent now m s)).frame ≡ add64 m.sequence 1
  number =
      frame-written now m.writer s (frame m.sequence) v.attached
      ∙ ap (λ k. add64 k 1) (v.attached.count ∙ v.count)

  write_frame :
      write now m.writer s (some (slice (fill m.sequence m.bytes) 0 data_size)) data_size
      ≡ some (true, record m.writer { frame_count = add64 m.writer.frame_count 1 }, sent now m s)
  write_frame = rw (slice-fill m.sequence m.bytes) (
      subst
        (λ n.
          write now m.writer s (some (frame m.sequence)) n
          ≡ some
              (true, record m.writer { frame_count = add64 m.writer.frame_count 1 }, sent now m s))
        (length-frame m.sequence) (write_all now m.writer s (frame m.sequence) v.attached fits))

  pub send_round_lem :
      (lines : List Line) × (send_round now m s ≡ some (lines, next m, sent now m s))
      × All IsGood lines
  unfolding send_round
  send_round_lem = elim (Bool-cases (m.sequence % 30 == 0)) [
    | inl log ↦ (sequence_is m.sequence ∷ [], ground (arith, write_frame), (tt, tt))
    | inr quiet ↦ ([], ground (arith, write_frame), tt)
  ]

  pub next-IsSending : m.sequence + 1 < 2 ^ 64 → IsSending (next m) (sent now m s)
  next-IsSending h = record {
    attached = written-IsAttached now m.writer s (frame m.sequence) v.attached fits;
    max = v.max;
    count = number;
    shown = inr (
        payload-written now m.writer s (frame m.sequence) v.attached ∙ ap frame (omega (arith, h)));
  }

  pub sent-IsReceiving :
      (n : Receiving) → m.sequence + 1 < 2 ^ 64 → IsReceiving n s → IsReceiving n (sent now m s)
  sent-IsReceiving n h k = record {
    connected =
        written-IsConnected now m.writer n.reader s (frame m.sequence) v.attached k.connected fits;
    max = k.max;
    last = omega (arith, number, k.last, v.count, h);
    total = k.total;
    copied = k.copied;
  }
