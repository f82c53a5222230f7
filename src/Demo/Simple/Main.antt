-- ===== src/Demo/Simple/Main.antt =====
-- `main` of examples/simple_writer.cpp as a whole: its result, its lines, and what it gives back.
use sim_library_v.Prelude.{
  ℕ, ◌+◌, ◌-◌, ◌^◌, ◌<◌, ◌≡◌, ◌⊎◌, inl, inr, refl, ap, ◌∙◌, true, false, some, List, [], ◌∷◌, ◌++◌,
  length, arith, Bool-cases,
}
use mathlib.Core.Path.{subst}
use sim_library_v.Prelude.Int.{ℤ}
use sim_library_v.Memory.Stores.{All, All-append}
use sim_library_v.Os.{Call, Ledger, enter_all}
use sim_library_v.Sim.Header.{Segment}
use sim_library_v.Sim.Writer
use sim_library_v.Sim.Writer.{Writer}
use sim_library_v.Sim.Valid.{view}
use sim_library_v.Sim.Lifecycle.{writer_lifecycle}
use sim_library_v.Demo.Frame.{data_size, frame}
use sim_library_v.Demo.Simple.{
  Line, init_failed, total_frames, done, shm_name, Sending, send_loop, Exit, writer_main,
}
use sim_library_v.Demo.Simple.Run.{IsSending, IsGood}
use sim_library_v.Demo.Simple.Steps.{next, sent, send_round_lem, next-IsSending}
use sim_library_v.Demo.Simple.Whole.{begin-IsSending}

send_loop_lem :
    (times : List ℤ) (m : Sending) (s : Segment)
    → IsSending m s
    → m.sequence + length times < 2 ^ 64
    → (lines : List Line) × (m' : Sending) × (s' : Segment) × (send_loop times m s
        ≡ some (lines, m', s'))
      × All IsGood lines
      × IsSending m' s'
      × (m'.sequence ≡ m.sequence + length times)
      × (m'.writer ≡ record m.writer { frame_count = m'.writer.frame_count })
unfolding send_loop
send_loop_lem [] m s v h = ([], m, s, refl, tt, v, omega arith, refl)
send_loop_lem (now ∷ times) m s v h =
    let (lines, went, good) = send_round_lem now m s v in
    let (more, m', s', ran, better, u, total, same) =
      send_loop_lem times (next m) (sent now m s) (next-IsSending now m s v (omega (arith, h)))
        (omega (arith, h)) in
    (
      lines ++ more,
      m',
      s',
      ground (arith, went, ran),
      All-append IsGood lines more good better,
      u,
      omega (arith, total, h),
      same,
    )

-- The calls at the end of `main`.
abbrev release : Writer → List Call
release w = (Writer.destroy w).1 ++ Writer.drop (Writer.destroy w).0

release_lem : (w : Writer) (k : ℕ) → release (record w { frame_count = k }) ≡ release w
unfolding Writer.destroy Writer.drop
release_lem w k = refl

init-drop :
    (a : Writer.Answers) (s : Segment) (l : Ledger)
    → let i = Writer.init a (Writer.new shm_name data_size false) s in
      enter_all (i.calls ++ Writer.drop i.writer) l ≡ some l
unfolding Writer.init Writer.new Writer.drop enter_all
init-drop a s l = ground arith

-- `main` of the writer, with fewer than 2 ^ 64 rounds, runs into no undefined behaviour and gives
-- back every descriptor and mapping that it took, each once, whatever the system calls answer. It
-- returns 0 exactly if `init` returns true; then no write fails, it reports as many frames as there
-- were rounds, and the segment presents the last one, by its number and, if there was a round, by
-- all its bytes. Otherwise it returns 1.
pub writer_program :
    (a : Writer.Answers) (times : List ℤ) (s : Segment) (l : Ledger)
    → length times < 2 ^ 64
    → let i = Writer.init a (Writer.new shm_name data_size false) s in
      (x : Exit) × (writer_main a times s ≡ some x)
      × (enter_all x.calls l ≡ some l)
      × (((i.result ≡ true)
            × (x.code ≡ 0)
            × ((lines : List Line) × All IsGood lines
                × (x.lines ≡ lines ++ total_frames (length times) ∷ done ∷ []))
            × ((view x.segment).frame ≡ length times)
            × ((length times ≡ 0) ⊎ ((view x.segment).payload ≡ frame (length times - 1))))
          ⊎ ((i.result ≡ false) × (x.code ≡ 1) × (x.lines ≡ init_failed ∷ [])))
unfolding writer_main
writer_program a times s l h = elim (Bool-cases i.result) [
  | inr failed ↦ (
    record {
      code = 1;
      lines = init_failed ∷ [];
      segment = i.segment;
      calls = i.calls ++ Writer.drop i.writer;
    },
    rw failed refl,
    init-drop a s l,
    inr (failed, refl, refl),
  )
  | inl opened ↦
      let v = begin-IsSending a s opened in
      let (lines, m', s', ran, good, u, total, same) =
        send_loop_lem times (record { writer = i.writer; bytes = λ o. 0; sequence = 0 }) i.segment v
          (omega (arith, h)) in
      (
        record {
          code = 0;
          lines = lines ++ total_frames m'.sequence ∷ done ∷ [];
          segment = s';
          calls = i.calls ++ release m'.writer;
        },
        rw (opened, ran) refl,
        ap (λ w. enter_all (i.calls ++ release w) l) same
            ∙ ap (λ calls. enter_all (i.calls ++ calls) l)
                (release_lem i.writer m'.writer.frame_count)
            ∙ writer_lifecycle a shm_name data_size false s l,
        inl (
          opened,
          refl,
          (lines, good, ap (λ n. lines ++ total_frames n ∷ done ∷ []) (omega (arith, total))),
          omega (arith, u.count, total),
          subst (λ n. (n ≡ 0) ⊎ ((view s').payload ≡ frame (n - 1))) (omega (arith, total)) u.shown,
        ),
      )
]
  where
    i : Writer.Init
    i = Writer.init a (Writer.new shm_name data_size false) s
