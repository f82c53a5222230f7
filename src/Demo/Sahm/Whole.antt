-- ===== src/Demo/Sahm/Whole.antt =====
-- examples/sahm_writer.cpp and examples/sahm_reader.cpp in any order of rounds.
use sim_library_v.Prelude.{ℕ, ◌+◌, ◌≡◌, refl, ◌∙◌, some, List, [], ◌∷◌, ◌++◌, length, arith}
use mathlib.Core.Path.{subst}
use sim_library_v.Prelude.Int.{ℤ}
use sim_library_v.Memory.Stores.{All}
use sim_library_v.Sahm.Writer.{Info}
use sim_library_v.Sahm.History.{Presents}
use sim_library_v.Sahm.Repeat.{IsOneOf-IsReady}
use sim_library_v.Demo.Frame.{data_size, frame}
use sim_library_v.Demo.Sahm.{Line}
use sim_library_v.Demo.Sahm.Run.{
  Event, send, receive, System, step, run, rounds, sent_all, IsSystem, IsGood, AreGood,
}
use sim_library_v.Demo.Sahm.Steps.{send_step}
use sim_library_v.Demo.Sahm.Looks.{receive_step}

pushed :
    (es : List Event) (sequence : ℕ) (frames : List (List ℕ))
    → length (sent_all es sequence frames) ≡ length frames + rounds es
pushed [] sequence frames = omega arith
pushed (send now fs ∷ es) sequence frames =
    pushed es (sequence + 1) (frame sequence ∷ frames) ∙ omega arith
pushed (receive now time ∷ es) sequence frames = pushed es sequence frames

run_lem :
    (i : Info) (base : ℕ) (es : List Event) (frames : ℕ → List (List ℕ)) (x : System)
    → IsSystem i base (rounds es) frames x
    → (lines : List Line) × (y : System) × (run i.object es x ≡ some (lines, y))
      × AreGood i.ring_size base es (length (frames i.object)) lines
      × IsSystem i base 0 (λ o. sent_all es x.sending.sequence (frames o)) y
      × (y.sending.sequence ≡ x.sending.sequence + rounds es)
unfolding run
run_lem i base [] frames x v = ([], x, refl, refl, v, omega arith)
run_lem i base (send now fs ∷ es) frames x v =
    let (lines, y, stepped, good, w, count) = send_step now fs i base (rounds es) frames x v in
    let (more, z, ran, better, u, total) = run_lem i base es _ y w in
    let one : length (frame x.sending.sequence ∷ frames i.object) ≡ length (frames i.object) + 1 =
      omega arith in
    (
      lines ++ more,
      z,
      ground (arith, stepped, ran),
      (lines, more, refl, good, subst (λ n. AreGood i.ring_size base es n more) one better),
      subst (λ n. IsSystem i base 0 (λ o. sent_all es n (frame x.sending.sequence ∷ frames o)) z)
          count u,
      omega (arith, count, total),
    )
run_lem i base (receive now time ∷ es) frames x v =
    let (lines, y, stepped, good, w, count, last) =
      receive_step now time i base (rounds es) frames x v in
    let (more, z, ran, better, u, total) = run_lem i base es frames y w in
    (
      lines ++ more,
      z,
      ground (arith, stepped, ran),
      (lines, more, refl, good, better),
      subst (λ n. IsSystem i base 0 (λ o. sent_all es n (frames o)) z) count u,
      total ∙ omega (arith, count),
    )

-- At the start the writer is initialized, for frames of at least the size of the programs', and
-- has the reader's ring buffer in its table, as valid. No two valid ring buffers of the table are
-- one object; each valid one is set up and mapped whole, has slots that hold a frame, and presents
-- the frames that `frames` lists for it; and whatever the system answers, `discoverReaders`
-- changes nothing in the table. The reader is initialized with its ring buffer, of fewer than 2 ^
-- 31 slots. The frames there and `base` earlier ones add up to the writer's number; the last of
-- them, if there is one, is the frame before that number; the reader's last total is at most their
-- number. The numbers of frames, in every ring buffer and with the rounds to come, stay below 2 ^
-- 64. Then the rounds of the two programs, in any order and at any times, run into no undefined
-- behaviour. Each line of the writer has the number of the frame just pushed, and counts at least
-- one reader. Each line of the reader has as its total exactly the frames pushed to its ring until
-- then, the number that the writer gave to the last of them, and the place of the slot that is
-- written next. In the end the ring presents the frames of the writer's rounds, in order, after
-- those that stood there, and one more round of the reader brings its last total to their number.
pub sahm_programs :
    (i : Info) (base : ℕ) (now time : ℤ) (es : List Event) (frames : ℕ → List (List ℕ)) (x : System)
    → IsSystem i base (rounds es) frames x
    → let total = length (frames i.object) + rounds es in
      (lines : List Line) × (y : System) × (run i.object es x ≡ some (lines, y))
      × AreGood i.ring_size base es (length (frames i.object)) lines
      × (y.sending.sequence ≡ x.sending.sequence + rounds es)
      × Presents i.ring_size
          (y.world.rings i.object)
          (sent_all es x.sending.sequence (frames i.object))
      × ((more : List Line) × (z : System) × (step i.object (receive now time) y ≡ some (more, z))
          × All (IsGood i.ring_size base total) more
          × (z.receiving.last_total ≡ total))
sahm_programs i base now time es frames x v =
    let (lines, y, ran, good, u, count) = run_lem i base es frames x v in
    let (more, z, stepped, better, w, same, last) =
      receive_step now time i base 0 (λ o. sent_all es x.sending.sequence (frames o)) y u in
    let total = pushed es x.sending.sequence (frames i.object) in
    (
      lines,
      y,
      ran,
      good,
      count,
      (IsOneOf-IsReady data_size i y.sending.writer.readers y.world.rings _ u.rings u.found
          u.valid).presents,
      (
        more,
        z,
        stepped,
        subst (λ n. All (IsGood i.ring_size base n) more) total better,
        last ∙ total,
      ),
    )
