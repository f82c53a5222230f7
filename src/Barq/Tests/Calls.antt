-- ===== src/Barq/Tests/Calls.antt =====
-- `write`, `commit` and `getLatest` of BARQ at concrete inputs.
use sim_library_v.Prelude.{none, ℕ, ◌+◌, ◌≡◌, refl, true, some, List, [], ◌∷◌, arith, add64}
use sim_library_v.Prelude.Int.{pos}
use sim_library_v.Channel
use sim_library_v.Channel.{send, receive, sent, got, publish}
use sim_library_v.Transport.Session.{run}
use sim_library_v.Barq.Session.{Session, transport, barq_refines}
use sim_library_v.Memory.{blit, slice}
use sim_library_v.Barq.Copy.{nt_memcpy}
use sim_library_v.Barq.Copy.Laws.{nt_memcpy-eq-blit}
use sim_library_v.Align.{align_up}
use sim_library_v.Barq.Header.{Segment, sizeof_header}
use sim_library_v.Barq.Writer
use sim_library_v.Barq.Writer.{Writer, segment_size}
use sim_library_v.Barq.Reader
use sim_library_v.Barq.Reader.{Reader, Latest}
use sim_library_v.Barq.Valid.{back_start, IsAttached, IsConnected}
use sim_library_v.Barq.Write.{zero_copy-eq-write, filled}
use sim_library_v.Barq.Read.{second_write_overwrites}
use sim_library_v.Barq.Tests.{
  reader-IsConnected, writer, segment, reader, stride_4, writer-IsAttached, bytes, segment_1,
}

zero_copy-eq-write_example :
    (w' : Writer) × (s' : Segment) × (Writer.get_write_buffer writer segment
      ≡ some (some (back_start segment.header)))
    × (Writer.write (pos 6) writer segment bytes 3 ≡ some (true, w', s'))
    × (Writer.commit (pos 6) writer (filled segment bytes) 3
        ≡ some (
          true,
          w',
          record s' {
            header = record s'.header { total_writes = add64 0 1; total_bytes = add64 0 3 };
          },
        ))
    × (s'.header.total_writes ≡ 0)
    × (s'.header.total_bytes ≡ 0)
zero_copy-eq-write_example =
    zero_copy-eq-write (pos 6) writer segment bytes writer-IsAttached (omega arith)

abbrev writer_1 : Writer
writer_1 = record writer { frame_count = 1 }

write_runs : Writer.write (pos 6) writer segment bytes 3 ≡ some (true, writer_1, segment_1)
unfolding Writer.write
write_runs = refl

writer_1-IsAttached : IsAttached writer_1 segment_1
writer_1-IsAttached = record {
  segment = ground (arith, stride_4);
  ready = refl;
  base = 4096;
  mapped = refl;
  first = refl;
  second = ground (arith, stride_4);
  capacity = refl;
  reach = ground (arith, stride_4);
  small = omega arith;
  count = refl;
}

reader_1-IsConnected : IsConnected reader segment_1
reader_1-IsConnected = record {
  segment = ground (arith, stride_4);
  ready = refl;
  base = 8192;
  mapped = refl;
  first = refl;
  second = ground (arith, stride_4);
  capacity = refl;
}

second_write_overwrites_example :
    (l : Latest) × (r' : Reader) × (o : ℕ) × (Reader.get_latest reader segment_1
      ≡ some (some l, r'))
    × (l.pointer ≡ some o)
    × (slice segment_1.mem o l.size ≡ bytes)
    × ((w' : Writer) × (s' : Segment) × (w'' : Writer) × (s'' : Segment) × (Writer.write
            (pos 7)
            writer_1
            segment_1
            (8 ∷ [])
            1
          ≡ some (true, w', s'))
        × (Writer.write (pos 8) w' s' (9 ∷ []) 1 ≡ some (true, w'', s''))
        × (slice s'.mem o 4 ≡ slice segment_1.mem o 4)
        × (slice s''.mem o 1 ≡ 9 ∷ []))
unfolding slice blit align_up
second_write_overwrites_example =
    second_write_overwrites (pos 7) (pos 8) writer_1 reader segment_1 (8 ∷ []) (9 ∷ [])
      writer_1-IsAttached reader_1-IsConnected (omega arith) (omega arith) (omega arith)

abbrev latest_1 : Latest
latest_1 = record { pointer = some (sizeof_header + 64); size = 3; timestamp_ns = pos 6 }

get_latest_runs :
    Reader.get_latest reader segment_1 ≡ some (some latest_1, record reader { last_seq = 1 })
unfolding Reader.get_latest
get_latest_runs = refl

-- Twenty bytes: one chunk and a remainder of four.
abbrev twenty : List ℕ
twenty =
    1 ∷ 2 ∷ 3 ∷ 4 ∷ 5 ∷ 6 ∷ 7 ∷ 8 ∷ 9 ∷ 10 ∷ 11 ∷ 12 ∷ 13 ∷ 14 ∷ 15 ∷ 16 ∷ 17 ∷ 18 ∷ 19 ∷ 20 ∷ []

nt_memcpy_runs : slice (nt_memcpy (λ a. 0) 320 twenty) 335 4 ≡ 16 ∷ 17 ∷ 18 ∷ 19 ∷ []
unfolding nt_memcpy slice blit
nt_memcpy_runs = refl

nt_memcpy-eq-blit_example : nt_memcpy (λ a. 0) 320 twenty ≡ blit (λ a. 0) 320 twenty
nt_memcpy-eq-blit_example = nt_memcpy-eq-blit (λ a. 0) 320 twenty

abbrev session : Session
session = record { writer = writer; reader = reader; segment = segment }

barq_refines_example :
    run (transport 4) (send (pos 6) bytes ∷ receive ∷ receive ∷ []) session
    ≡ some (sent true ∷ got (some bytes) ∷ got none ∷ [])
unfolding Channel.run Channel.serve Channel.poll publish
barq_refines_example =
    barq_refines 4 (send (pos 6) bytes ∷ receive ∷ receive ∷ []) session
      (record { attached = writer-IsAttached; connected = reader-IsConnected; writer_max = refl })
