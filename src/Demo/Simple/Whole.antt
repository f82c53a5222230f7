-- ===== src/Demo/Simple/Whole.antt =====
-- examples/simple_writer.cpp and examples/simple_reader.cpp from their `init` on, in any order of
-- rounds.
use sim_library_v.Prelude.{
  ◌+◌, ◌-◌, ◌^◌, ◌<◌, ◌≤◌, ◌≡◌, ◌⊎◌, inl, inr, refl, ap, true, false, some, List, [], ◌∷◌, ◌++◌,
  arith,
}
use mathlib.Core.Path.{subst}
use sim_library_v.Prelude.Int.{ℤ}
use sim_library_v.Channel.{Channel}
use sim_library_v.Memory.{slice}
use sim_library_v.Memory.Stores.{All, All-append}
use sim_library_v.Sim.Header.{Segment}
use sim_library_v.Sim.Writer
use sim_library_v.Sim.Reader
use sim_library_v.Sim.Init.{writer_init_lem, reader_init_lem}
use sim_library_v.Demo.Frame.{data_size, frame}
use sim_library_v.Demo.Simple.{Line, shm_name, Sending}
use sim_library_v.Demo.Simple.Run.{
  Event, send, receive, System, step, run, rounds, sends, IsSending, IsReceiving, IsGood,
}
use sim_library_v.Demo.Simple.Steps.{next, sent, send_round_lem, next-IsSending, sent-IsReceiving}
use sim_library_v.Demo.Simple.Looks.{receive_round_lem}

record IsSystem (x : System) : Type 0 where
  sending : IsSending x.sending x.segment
  receiving : IsReceiving x.receiving x.segment

step_lem :
    (e : Event) (x : System)
    → IsSystem x
    → x.sending.sequence + sends e < 2 ^ 64
    → (lines : List Line) × (y : System) × (step e x ≡ some (lines, y))
      × All IsGood lines
      × IsSystem y
      × (y.sending.sequence ≡ x.sending.sequence + sends e)
unfolding step
step_lem (send now) x v h =
    let (lines, done, good) = send_round_lem now x.sending x.segment v.sending in
    (
      lines,
      record x { sending = next x.sending; segment = sent now x.sending x.segment },
      ground (arith, done),
      good,
      record {
        sending = next-IsSending now x.sending x.segment v.sending (omega (arith, h));
        receiving =
            sent-IsReceiving now x.sending x.segment v.sending x.receiving (omega (arith, h))
              v.receiving;
      },
      omega (arith, h),
    )
step_lem (receive now time) x v h =
    let (lines, n, done, good, k, newest) =
      receive_round_lem now time x.sending x.segment x.receiving v.sending v.receiving
        (omega (arith, h)) in
    (
      lines,
      record x { receiving = n },
      ground (arith, done),
      good,
      record { sending = v.sending; receiving = k },
      omega arith,
    )

run_lem :
    (es : List Event) (x : System)
    → IsSystem x
    → x.sending.sequence + rounds es < 2 ^ 64
    → (lines : List Line) × (y : System) × (run es x ≡ some (lines, y))
      × All IsGood lines
      × IsSystem y
      × (y.sending.sequence ≡ x.sending.sequence + rounds es)
unfolding run
run_lem [] x v h = ([], x, refl, tt, v, omega arith)
run_lem (e ∷ es) x v h =
    let (lines, y, stepped, good, w, count) = step_lem e x v (omega (arith, h)) in
    let (more, z, ran, better, u, total) = run_lem es y w (omega (arith, h, count)) in
    (
      lines ++ more,
      z,
      ground (arith, stepped, ran),
      All-append IsGood lines more good better,
      u,
      omega (arith, count, total),
    )

-- The two programs after their `init`.
abbrev pub begin : Writer.Init → Reader.Init → ℤ → System
begin i j start = record {
  sending = record { writer = i.writer; bytes = λ o. 0; sequence = 0 };
  receiving = record { reader = j.reader; buffer = λ o. 0; frame_count = 0; last_log = start };
  segment = i.segment;
}

writer_max :
    (a : Writer.Answers) (s : Segment)
    → (Writer.init a (Writer.new shm_name data_size false) s).writer.max_size ≡ data_size
unfolding Writer.init Writer.new
writer_max a s = ground arith

reader_start :
    (b : Reader.Answers) (s : Segment) (j : Reader.Init)
    → Reader.init b (Reader.new shm_name data_size) s ≡ some j
    → (j.reader.max_size ≡ data_size) × (j.reader.dropped_frames ≡ 0)
unfolding Reader.init Reader.new
reader_start b s j ran = (ground (arith, ran), ground (arith, ran))

pub begin-IsSending :
    (a : Writer.Answers) (s : Segment)
    → let i = Writer.init a (Writer.new shm_name data_size false) s in
      i.result ≡ true
      → IsSending (record { writer = i.writer; bytes = λ o. 0; sequence = 0 }) i.segment
unfolding Writer.new
begin-IsSending a s wrote =
    elim (writer_init_lem a (Writer.new shm_name data_size false) s refl refl refl (omega arith)) [
      | inr failed ↦ absurd (ground (arith, failed.0, wrote))
      | inl opened ↦ record {
        attached = opened.1;
        max = writer_max a s;
        count = ap (λ (c : Channel). c.frame) opened.2;
        shown = inl refl;
      }
    ]

begin-IsReceiving :
    (b : Reader.Answers) (m : Sending) (s : Segment) (j : Reader.Init) (start : ℤ)
    → IsSending m s
    → Reader.init b (Reader.new shm_name data_size) s ≡ some j
    → j.result ≡ true
    → IsReceiving
        (record { reader = j.reader; buffer = λ o. 0; frame_count = 0; last_log = start })
        s
unfolding Reader.new
begin-IsReceiving b m s j start v ran read =
    elim (reader_init_lem b (Reader.new shm_name data_size) s j ran refl refl (omega arith)
      v.attached.segment (omega (arith, v.attached.capacity, v.max))) [
        | inr failed ↦ absurd (ground (arith, failed.0, read))
        | inl joined ↦ record {
          connected = joined.1;
          max = (reader_start b s j ran).0;
          last = omega (arith, joined.2);
          total = omega (arith, joined.2, (reader_start b s j ran).1);
          copied = inl joined.2;
        }
      ]

-- The writer's program and the reader's run on one segment: the reader finds the one that the
-- writer's `init` left, both calls of `init` return true, whatever the answers, and then come their
-- rounds, in any order, fewer than 2 ^ 64 of the writer's, at any times. No round runs into
-- undefined behaviour. No write fails, and each line about a frame counts at most as many frames
-- dropped as the number in the frame says were sent before it. In the end the frames received and
-- those dropped add up to the number of the last frame received, which is one of those sent, and
-- the reader's buffer holds all the bytes of that frame. One more round of the reader then takes
-- the last frame sent, if there is one: its number is the reader's last, and its bytes fill the
-- buffer.
pub simple_programs :
    (a : Writer.Answers) (b : Reader.Answers) (start now time : ℤ) (s : Segment) (j : Reader.Init)
    (es : List Event)
    → let i = Writer.init a (Writer.new shm_name data_size false) s in
      i.result ≡ true
      → Reader.init b (Reader.new shm_name data_size) i.segment ≡ some j
      → j.result ≡ true
      → rounds es < 2 ^ 64
      → (lines : List Line) × (y : System) × (run es (begin i j start) ≡ some (lines, y))
        × All IsGood lines
        × (y.sending.sequence ≡ rounds es)
        × (y.receiving.frame_count + y.receiving.reader.dropped_frames
            ≡ y.receiving.reader.last_frame)
        × (y.receiving.reader.last_frame ≤ rounds es)
        × ((y.receiving.reader.last_frame ≡ 0)
            ⊎ (slice y.receiving.buffer 0 data_size ≡ frame (y.receiving.reader.last_frame - 1)))
        × ((more : List Line) × (z : System) × (step (receive now time) y ≡ some (more, z))
            × (z.receiving.reader.last_frame ≡ rounds es)
            × ((rounds es ≡ 0) ⊎ (slice z.receiving.buffer 0 data_size ≡ frame (rounds es - 1))))
unfolding step
simple_programs a b start now time s j es wrote ran read h =
    let i = Writer.init a (Writer.new shm_name data_size false) s in
    let w = begin-IsSending a s wrote in
    let (lines, y, finished, good, v, count) =
      run_lem es (begin i j start)
        (record { sending = w; receiving = begin-IsReceiving b _ _ j start w ran read })
        (omega (arith, h)) in
    let (more, n, round, better, k, newest) =
      receive_round_lem now time y.sending y.segment y.receiving v.sending v.receiving
        (omega (arith, count, h)) in
    let all : n.reader.last_frame ≡ rounds es = omega (arith, newest, v.sending.count, count) in
    (
      lines,
      y,
      finished,
      good,
      omega (arith, count),
      v.receiving.total,
      omega (arith, v.receiving.last, v.sending.count, count),
      v.receiving.copied,
      (
        more,
        record y { receiving = n },
        ground (arith, round),
        all,
        subst (λ f. (f ≡ 0) ⊎ (slice n.buffer 0 data_size ≡ frame (f - 1))) all k.copied,
      ),
    )
