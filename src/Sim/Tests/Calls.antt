-- ===== src/Sim/Tests/Calls.antt =====
-- `write` and `read` of SIM at concrete inputs.
use sim_library_v.Prelude.{
  Bool, ℕ, leb, if◌then◌else◌, ◌≡◌, ◌≢◌, ◌⊎◌, refl, true, false, some, arith,
}
use sim_library_v.Prelude.Int.{pos}
use sim_library_v.Memory.{blit, slice}
use sim_library_v.Sim.Checksum.{checksum_disabled, calculate_checksum}
use sim_library_v.Sim.Header.{Segment}
use sim_library_v.Sim.Writer
use sim_library_v.Sim.Writer.{Writer}
use sim_library_v.Sim.Reader
use sim_library_v.Sim.Reader.{Reader}
use sim_library_v.Sim.Valid.{view, IsAttached, IsConnected}
use sim_library_v.Sim.Roundtrip.{write-read, enabling_flags_intact_frame}
use sim_library_v.Transport.Rounds.{Got, Missed}
use sim_library_v.Sim.Wait.{read_with_timeout, sim_wait_returns}
use sim_library_v.Sim.Tests.{
  writer, reader, segment, writer-IsAttached, reader-IsConnected, bytes, segment_1,
  reader_1-IsConnected,
}

abbrev reader_1 : Reader
reader_1 = record reader { last_frame = 1; last_timestamp_ns = pos 6 }

read_runs : Reader.read reader segment_1 (some 4) ≡ some (some bytes, reader_1)
unfolding Reader.read slice blit calculate_checksum
read_runs = refl

write-read_example :
    (w' : Writer) × (s' : Segment) × (r' : Reader) × (Writer.write
        (pos 6)
        writer
        segment
        (some bytes)
        3
      ≡ some (true, w', s'))
    × (Reader.read reader s' (some 4) ≡ some (some bytes, r'))
    × (r'.last_frame ≡ 1)
    × (r'.last_timestamp_ns ≡ pos 6)
    × (r'.last_checksum_valid ≡ true)
write-read_example =
    write-read (pos 6) writer reader segment bytes 3 4 writer-IsAttached reader-IsConnected
      (omega arith) (omega arith) (omega arith) refl (omega arith)

-- Checksums are off, and the back buffer still has the checksum 9 of an earlier frame.
abbrev writer_off : Writer
writer_off = record writer { enable_checksum = false }

abbrev segment_off : Segment
segment_off = record segment {
  header = record segment.header {
    checksum = record { at_0 = checksum_disabled; at_1 = 9 };
    checksum_enabled = false;
  };
}

writer_off-IsAttached : IsAttached writer_off segment_off
writer_off-IsAttached = record {
  segment = omega arith;
  ready = refl;
  base = 4096;
  mapped = refl;
  first = refl;
  second = refl;
  capacity = refl;
  reach = omega arith;
  count = refl;
}

reader_off-IsConnected : IsConnected reader segment_off
reader_off-IsConnected = record {
  segment = omega arith;
  ready = refl;
  base = 8192;
  mapped = refl;
  first = refl;
  second = refl;
  capacity = refl;
  reach = omega arith;
}

checksum-bytes : 9 ≢ calculate_checksum bytes
unfolding calculate_checksum
checksum-bytes = omega arith

enabling_flags_intact_frame_example :
    (w' : Writer) × (s' : Segment) × (r' : Reader) × (Writer.write
        (pos 6)
        writer_off
        segment_off
        (some bytes)
        3
      ≡ some (true, w', s'))
    × (Reader.read reader (Writer.set_checksum_enabled true w' s').1 (some 4)
        ≡ some (some bytes, r'))
    × (r'.last_checksum_valid ≡ false)
enabling_flags_intact_frame_example =
    enabling_flags_intact_frame (pos 6) writer_off reader segment_off bytes 3 4
      writer_off-IsAttached reader_off-IsConnected (omega arith) (omega arith) (omega arith)
      (omega arith) refl (omega arith) checksum-bytes

-- The frame appears in round 2, and the clock passes 1 ms in round 4.
abbrev world : ℕ → Segment
world k = if leb 2 k then segment_1 else segment

abbrev clock : ℕ → ℕ
clock k = if leb 4 k then 1000000 else 0

world-IsConnected : (k : ℕ) → IsConnected reader (world k)
world-IsConnected k =
    elim (leb 2 k) as (λ b. IsConnected reader (if b then segment_1 else segment)) [
      | true ↦ reader_1-IsConnected
      | false ↦ reader-IsConnected
    ]

sim_wait_returns_example :
    let result = read_with_timeout world clock 5 reader (some 4) 1 in
    let expired : ℕ → Bool = λ k. leb 1000000 (clock k) in
    Got 1 (λ k. view (world k)) expired (λ r. r.last_frame) 0 0 result
    ⊎ Missed 0 (λ k. view (world k)) expired (λ r. r.last_frame) 0 0 result
sim_wait_returns_example =
    sim_wait_returns world clock reader 4 1 5 4 world-IsConnected (omega arith) (omega arith)
      (omega arith)
