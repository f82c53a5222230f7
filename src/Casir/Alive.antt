-- ===== src/Casir/Alive.antt =====
-- How `isWriterAlive` of CASIR answers after `init` and after a write.
use sim_library_v.Prelude.{
  ℕ, ◌+◌, ◌*◌, ◌^◌, ◌≤◌, ◌<◌, ◌≡◌, ◌↔◌, inl, inr, ap, sym, ◌∙◌, length, refl, true, false, some,
  List, arith,
}
use mathlib.Core.Path.{subst}
use mathlib.Core.Option.{some-injective}
use sim_library_v.Prelude.Int.{ℤ, pos}
use sim_library_v.Heartbeat.{is_recent}
use sim_library_v.Heartbeat.Laws.{is_recent_lem}
use sim_library_v.Casir.Header.{Segment}
use sim_library_v.Casir.Writer
use sim_library_v.Casir.Writer.{Writer, segment_size, base_size, affinity}
use sim_library_v.Casir.Reader.{Reader, is_writer_alive}
use sim_library_v.Casir.Valid.{IsConnected}
use sim_library_v.Casir.Write.{written, next, write_all, written-IsConnected}
use sim_library_v.Casir.Init.{Attaches, casir_init-Attaches}

-- A connected reader answers by the heartbeat in the header.
alive_lem :
    (now : ℤ) (r : Reader) (s : Segment) (timeout_ms : ℕ)
    → IsConnected r s
    → is_writer_alive now r s timeout_ms
      ≡ some (is_recent now s.header.writer_heartbeat_ns timeout_ms)
unfolding is_writer_alive
alive_lem now r s timeout_ms v = ground (arith, v.ready, v.header, v.mapped)

written_beats :
    (time : ℤ) (w : Writer) (s : Segment) (bytes : List ℕ)
    → (written time w s bytes).header.writer_heartbeat_ns ≡ time
unfolding Writer.flip Writer.set_frame
written_beats time w s bytes = refl

-- An `init` that returns true has attached the writer.
init-Attaches :
    (a : Writer.Answers) (w : Writer) (s : Segment) (fd : ℕ) (i : Writer.Init)
    → w.is_initialized ≡ false
    → w.frame_count ≡ 0
    → w.max_size < 2 ^ 62
    → 0 < a.pages.page_size
    → a.opened ≡ some fd
    → a.truncated ≡ true
    → Writer.init a w s ≡ some i
    → i.result ≡ true
    → Attaches i
init-Attaches a w s fd i fresh zero_frames small page e f ran done =
    let (j, also, ends) = casir_init-Attaches a w s fd fresh zero_frames small page e f in
    let same : j ≡ i = some-injective j i (sym also ∙ ran) in
    elim ends [
      | inl joined ↦ subst Attaches same joined.1
      | inr failed ↦
          absurd (ground (arith, done, failed.1.result, ap (λ (k : Writer.Init). k.result) same))
    ]

-- For a new writer with a maximal size below 2^62, where the system has a positive huge page size
-- and the object is opened and sized: after an `init` that returns true, a connected reader takes
-- the writer for dead if the clock, which counts from the epoch, has reached the timeout, which is
-- positive. After a write of at most the maximal size at time `time`, it takes the writer for alive
-- exactly while less than the timeout has passed since.
pub alive_only_after_write :
    (a : Writer.Answers) (w : Writer) (s : Segment) (fd : ℕ) (i : Writer.Init) (r : Reader)
    (bytes : List ℕ) (time now timeout_ms : ℕ)
    → w.is_initialized ≡ false
    → w.frame_count ≡ 0
    → w.max_size < 2 ^ 62
    → 0 < a.pages.page_size
    → a.opened ≡ some fd
    → a.truncated ≡ true
    → Writer.init a w s ≡ some i
    → i.result ≡ true
    → IsConnected r i.segment
    → length bytes ≤ i.writer.max_size
    → 0 < timeout_ms
    → timeout_ms * 1000000 ≤ now
    → (is_writer_alive (pos now) r i.segment timeout_ms ≡ some false)
      × ((w' : Writer) × (s' : Segment) × (Writer.write
              (pos time)
              i.writer
              i.segment
              bytes
              (length bytes)
            ≡ some (true, w', s'))
          × ((is_writer_alive (pos now) r s' timeout_ms ≡ some true)
              ↔ (now < time + timeout_ms * 1000000)))
alive_only_after_write a w s fd i r bytes time now timeout_ms fresh zero_frames small page e f ran
      done v fits some_time late =
    let made = init-Attaches a w s fd i fresh zero_frames small page e f ran done in
    let s' = written (pos time) i.writer i.segment bytes in
    let connected =
      written-IsConnected (pos time) i.writer i.segment made.attached r bytes v fits in
    let beat = is_recent_lem now 0 timeout_ms some_time in
    let again = is_recent_lem now time timeout_ms some_time in
    (
      rw (alive_lem (pos now) r i.segment timeout_ms v, made.silent) (ground (arith, beat)),
      (
        next i.writer,
        s',
        write_all (pos time) i.writer i.segment made.attached bytes fits,
        rw
            (
              alive_lem (pos now) r s' timeout_ms connected,
              written_beats (pos time) i.writer i.segment bytes,
            )
            (ground (arith, again)),
      ),
    )
