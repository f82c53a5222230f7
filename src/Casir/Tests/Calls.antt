-- ===== src/Casir/Tests/Calls.antt =====
-- The calls of CASIR at concrete inputs.
use sim_library_v.Prelude.{
  ℕ, ◌≡◌, ◌≢◌, ◌⊎◌, refl, true, false, Option, none, some, [], ◌∷◌, Bool, leb, arith, ◌/◌,
  if◌then◌else◌,
}
use sim_library_v.Prelude.Int.{pos}
use sim_library_v.Align.{align_to_cache_line}
use sim_library_v.Memory.{blit, slice}
use sim_library_v.Channel
use sim_library_v.Channel.{send, receive, sent, got, publish}
use sim_library_v.Transport.Session.{run}
use sim_library_v.Transport.Rounds.{Got, Missed}
use sim_library_v.Casir.Header.{Segment}
use sim_library_v.Casir.Writer
use sim_library_v.Casir.Writer.{Writer}
use sim_library_v.Casir.Reader
use sim_library_v.Casir.Reader.{Reader, Lent, front_frame}
use sim_library_v.Casir.Valid.{view, back_start, IsConnected}
use sim_library_v.Casir.Write.{three_writes_agree, filled, counted}
use sim_library_v.Casir.Session.{Session, IsSession, transport, casir_refines}
use sim_library_v.Casir.ZeroCopy.{
  zero_copy_lends, zero_copy_locks, bytes_of, IsInside, holding, lent,
}
use sim_library_v.Casir.Wait.{read_with_timeout, casir_wait_returns}
use sim_library_v.Casir.Tests.{
  writer, reader, segment, segment_1, bytes, writer-IsAttached, reader-IsConnected,
  reader_1-IsConnected,
}

three_writes_agree_example :
    (w' : Writer) × (s' : Segment) × (Writer.write (pos 6) writer segment bytes 3
      ≡ some (true, w', s'))
    × (Writer.get_write_buffer writer segment ≡ some (some (back_start segment.header)))
    × (Writer.commit_write (pos 6) writer (filled segment bytes) 3 ≡ some (true, w', counted 3 s'))
    × (Writer.write_zero_copy (pos 6) writer segment bytes 3 ≡ some (true, w', counted 3 s'))
    × (view (counted 3 s') ≡ Channel.publish bytes (view segment))
    × (s'.header.total_writes ≡ segment.header.total_writes)
three_writes_agree_example =
    three_writes_agree (pos 6) writer segment bytes writer-IsAttached (omega arith)

abbrev session : Session
session = record { writer = writer; reader = reader; segment = segment }

session-IsSession : IsSession 4 session
session-IsSession = record {
  attached = writer-IsAttached;
  connected = reader-IsConnected;
  writer_max = refl;
  reader_max = refl;
  free = refl;
}

casir_refines_example :
    run (transport 4) (send (pos 6) bytes ∷ receive ∷ receive ∷ []) session
    ≡ some (sent true ∷ got (some bytes) ∷ got none ∷ [])
unfolding Channel.run Channel.serve Channel.poll publish
casir_refines_example =
    casir_refines 4 (send (pos 6) bytes ∷ receive ∷ receive ∷ []) session session-IsSession

-- A reader for two bytes, which has seen frame 1, on a segment that presents frame 4 of three
-- bytes.
abbrev small_reader : Reader
small_reader = record reader { max_size = 2; last_frame = 1 }

abbrev segment_4 : Segment
segment_4 = record segment_1 { header = record segment_1.header { frame1 = 4 } }

zero_copy_lends_example :
    (result : Option Lent) × (r' : Reader) × (Reader.read_zero_copy reader segment_1
      ≡ some (result, r'))
    × (bytes_of segment_1 result ≡ some bytes)
    × IsInside segment_1 result
    × (r'.last_frame ≡ 1)
    × (r'.dropped_frames ≡ 0)
unfolding Channel.poll slice blit align_to_cache_line
zero_copy_lends_example = zero_copy_lends reader segment_1 reader_1-IsConnected refl

zero_copy_runs :
    Reader.read_zero_copy reader segment_1 ≡ some (some (lent segment_1), holding reader segment_1)
unfolding Reader.read_zero_copy align_to_cache_line
zero_copy_runs = refl

zero_copy_locks_example :
    ((t : Segment)
      → Reader.read_zero_copy (holding reader segment_1) t ≡ some (none, holding reader segment_1))
    × (Reader.read_zero_copy (Reader.release_zero_copy (holding reader segment_1)) segment_1
        ≡ some (none, Reader.release_zero_copy (holding reader segment_1)))
    × ((t : Segment)
        → IsConnected reader t
        → front_frame t.header ≢ front_frame segment_1.header
        → Reader.read_zero_copy (Reader.release_zero_copy (holding reader segment_1)) t
          ≡ some (some (lent t), holding (holding reader segment_1) t))
zero_copy_locks_example =
    zero_copy_locks reader (holding reader segment_1) segment_1 (lent segment_1)
      reader_1-IsConnected zero_copy_runs

-- The frame appears in round 2, and the clock has passed 1 ms after round 4.
abbrev world : ℕ → Segment
world k = if leb 2 k then segment_1 else segment

abbrev clock : ℕ → ℕ
clock k = if leb 4 k then 1000000 else 0

world-IsConnected : (k : ℕ) → IsConnected reader (world k)
world-IsConnected k =
    elim (leb 2 k) as (λ b. IsConnected reader (if b then segment_1 else segment)) [
      | true ↦ reader_1-IsConnected
      | false ↦ reader-IsConnected
    ]

casir_wait_returns_example :
    let result = read_with_timeout world clock 5 reader 4 1 in
    let expired : ℕ → Bool = λ k. leb 1 (clock k / 1000000) in
    Got 0 (λ k. view (world k)) expired (λ r. r.last_frame) 0 0 result
    ⊎ Missed 1 (λ k. view (world k)) expired (λ r. r.last_frame) 0 0 result
casir_wait_returns_example =
    casir_wait_returns world clock reader 4 1 5 4 world-IsConnected (omega arith) (omega arith)
      (omega arith)
