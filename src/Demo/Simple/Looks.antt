-- ===== src/Demo/Simple/Looks.antt =====
-- What a round of examples/simple_reader.cpp keeps.
use sim_library_v.Prelude.{
  ℕ, ◌+◌, ◌-◌, ◌^◌, ◌<◌, ◌≤◌, ◌≡◌, inl, inr, refl, Bool, true, false, Option, none, some, List, [],
  ◌∷◌, ◌++◌, ap, sym, ◌∙◌, arith, add64, if◌then◌else◌, Bool-cases,
}
use sim_library_v.Prelude.Int.{ℤ, ◌-ℤ◌, lt_ℕ, div_ℕ}
use sim_library_v.Memory.{Mem, blit, slice}
use sim_library_v.Memory.Stores.{All, All-append}
use sim_library_v.Sim.Header.{Segment}
use sim_library_v.Sim.Reader.{Reader, read, is_writer_alive}
use sim_library_v.Heartbeat.{is_recent}
use sim_library_v.Heartbeat.{is_recent}
use sim_library_v.Sim.Valid.{view, IsConnected}
use sim_library_v.Sim.Read.{read_refines, read_counts_dropped}
use sim_library_v.Demo.Frame.{data_size, frame, extract}
use sim_library_v.Demo.Frame.Laws.{extract-frame, slice-blit_frame}
use sim_library_v.Demo.Simple.{
  Line, writer_timeout, Sending, Receiving, receive_round, take_result, take_frame,
}
use sim_library_v.Demo.Simple.Run.{IsReceiving, IsSending, IsGood}

module _ (now time : ℤ) (m : Sending) (s : Segment) (n : Receiving) (v : IsSending m s)
    (k : IsReceiving n s) where
  -- The lines after the look at the heartbeat.
  timeout-IsGood :
      (b : Bool) (lines : List Line)
      → All IsGood lines
      → All IsGood (lines ++ (if b then [] else writer_timeout ∷ []))
  timeout-IsGood true lines g = All-append IsGood lines [] g tt
  timeout-IsGood false lines g = All-append IsGood lines (writer_timeout ∷ []) g (tt, tt)

  -- A round whose `read` is known.
  look :
      (result : Option (List ℕ)) (r : Reader)
      → read n.reader s (some data_size) ≡ some (result, r)
      → IsConnected r s
      → let (lines, n') = take_result now r result n in
        All IsGood lines
        → n'.reader ≡ r
        → (more : List Line) × (receive_round now time n s ≡ some (more, n')) × All IsGood more
  unfolding receive_round is_writer_alive
  look result r e c good same =
      let b = is_recent time s.header.writer_heartbeat_ns 2000 in
      let (lines, n') = take_result now r result n in
      (
        lines ++ (if b then [] else writer_timeout ∷ []),
        ground (arith, e, same, c.ready, c.mapped),
        timeout-IsGood b lines good,
      )

  -- A frame that the reader takes: its number is one more than the one in its bytes.
  module _ (r : Reader) (small : m.sequence < 2 ^ 64) (c : IsConnected r s)
      (max : r.max_size ≡ data_size) (last : r.last_frame ≡ (view s).frame)
      (count : r.dropped_frames + n.reader.last_frame + 1
        ≡ n.reader.dropped_frames + (view s).frame) where
    buffer : Mem
    buffer = blit n.buffer 0 (view s).payload

    positive : 0 < m.sequence
    positive = omega (arith, count, k.last, k.total, v.count)

    extracted : extract buffer + 1 ≡ m.sequence
    unfolding buffer
    extracted = elim v.shown [
      | inl e ↦ absurd (omega (arith, e, positive))
      | inr e ↦
          ap (λ p. extract (blit n.buffer 0 p) + 1) e
          ∙ omega (arith, positive, extract-frame (m.sequence - 1) n.buffer (omega (arith, small)))
    ]

    whole : slice buffer 0 data_size ≡ frame (r.last_frame - 1)
    unfolding buffer
    whole = elim v.shown [
      | inl e ↦ absurd (omega (arith, e, positive))
      | inr e ↦
          ap (λ p. slice (blit n.buffer 0 p) 0 data_size) e
          ∙ slice-blit_frame (m.sequence - 1) n.buffer
          ∙ ap (λ k. frame (k - 1)) (omega (arith, last, v.count))
    ]

    total : add64 n.frame_count 1 + r.dropped_frames ≡ r.last_frame
    total = omega (arith, k.total, count, last, v.count, small)

    taken-IsGood : All IsGood (take_frame now r (view s).payload n).0
    unfolding take_frame buffer
    taken-IsGood = elim (Bool-cases (lt_ℕ (div_ℕ (now -ℤ n.last_log) 1000000000) 1)) [
      | inl quiet ↦ rw quiet tt
      | inr log ↦ rw log (omega (arith, extracted, total, last, v.count), tt)
    ]

    taken-IsReceiving : IsReceiving (take_frame now r (view s).payload n).1 s
    unfolding take_frame buffer
    taken-IsReceiving = elim (Bool-cases (lt_ℕ (div_ℕ (now -ℤ n.last_log) 1000000000) 1)) [
      | inl quiet ↦ rw quiet (record {
        connected = c;
        max = max;
        last = omega (arith, last);
        total = total;
        copied = inr whole;
      })
      | inr log ↦ rw log (record {
        connected = c;
        max = max;
        last = omega (arith, last);
        total = total;
        copied = inr whole;
      })
    ]

    reader_taken : (take_frame now r (view s).payload n).1.reader ≡ r
    unfolding take_frame
    reader_taken = elim (Bool-cases (lt_ℕ (div_ℕ (now -ℤ n.last_log) 1000000000) 1)) [
      | inl quiet ↦ rw quiet refl
      | inr log ↦ rw log refl
    ]

  pub receive_round_lem :
      m.sequence < 2 ^ 64
      → (lines : List Line) × (n' : Receiving) × (receive_round now time n s ≡ some (lines, n'))
        × All IsGood lines
        × IsReceiving n' s
        × (n'.reader.last_frame ≡ (view s).frame)
  receive_round_lem small =
      let (r, done, c, last) = read_refines n.reader s data_size k.connected fits in
      elim (read_counts_dropped n.reader r s data_size _ k.connected fits k.last below counted
        done) [
          | inl (same, nothing, keep) ↦
              let (lines, round, good) =
                look none n.reader (ground (arith, done, nothing, keep)) k.connected tt refl in
              (lines, n, round, good, k, ap (λ (q : Reader). q.last_frame) (sym keep) ∙ last)
          | inr (found, count) ↦
              let max : r.max_size ≡ data_size =
                omega (arith, c.capacity, k.connected.capacity, k.max) in
              let (lines, round, good) =
                look (some (view s).payload) r (done ∙ ap (λ b. some (b, r)) found) c
                  (taken-IsGood r small c max last count) (reader_taken r small c max last count) in
              (
                lines,
                (take_frame now r (view s).payload n).1,
                round,
                good,
                taken-IsReceiving r small c max last count,
                ap (λ (q : Reader). q.last_frame) (reader_taken r small c max last count) ∙ last,
              )
        ]
    where
      fits : n.reader.max_size ≤ data_size
      fits = omega (arith, k.max)

      below : (view s).frame < 2 ^ 64
      below = omega (arith, v.count, small)

      counted : n.reader.dropped_frames ≤ n.reader.last_frame
      counted = omega (arith, k.total)
