-- ===== src/Sim/Tests/Overlaps.antt =====
-- A `read` that overlaps a `write`, at a concrete input.
use sim_library_v.Prelude.{
  ℕ, ◌≡◌, ◌≢◌, ◌⊎◌, refl, inl, inr, true, some, List, [], ◌∷◌, length, arith, add64,
}
use sim_library_v.Prelude.Int.{pos}
use sim_library_v.Channel
use sim_library_v.Channel.{Channel}
use sim_library_v.Memory.{slice}
use sim_library_v.Memory.Stores.{during, finished}
use sim_library_v.Sim.Writer
use sim_library_v.Sim.Reader
use sim_library_v.Sim.Reader.{Reader}
use sim_library_v.Sim.Valid.{view, front_start, IsAttached}
use sim_library_v.Sim.Overlap.{Loads, IsOrdered, stores, mix, resized, seen}
use sim_library_v.Sim.Overlap.Outcomes.{overlapping_read, overlapping_read_resizes}
use sim_library_v.Sim.Stores.{preparation, timestamp}
use sim_library_v.Sim.Tests.{writer_1, segment_1, reader, reader_1-IsConnected}

writer_1-IsAttached : IsAttached writer_1 segment_1
writer_1-IsAttached = record {
  segment = omega arith;
  ready = refl;
  base = 4096;
  mapped = refl;
  first = refl;
  second = refl;
  capacity = refl;
  reach = omega arith;
  count = refl;
}

abbrev next : List ℕ
next = 7 ∷ []

-- All stores are visible to the copy, a time stamp to the load of the length, none to the others.
abbrev loads : Loads (stores (pos 7) writer_1 segment_1 next)
unfolding preparation
loads = record {
  front_idx = during [] tt;
  frame = during [] tt;
  published_length = during (timestamp 0 (pos 7) ∷ []) (inr (inr (inl refl)), tt);
  timestamp_ns = during [] tt;
  byte = λ o. finished;
  checksum = during [] tt;
}

loads-IsOrdered : IsOrdered loads
unfolding loads
loads-IsOrdered = record {
  frame = tt;
  published_length = tt;
  timestamp_ns = tt;
  byte = λ o. tt;
  checksum = tt;
}

overlapping_read_example :
    (Writer.write (pos 7) writer_1 segment_1 (some next) 1
      ≡ some (
        true,
        record writer_1 { frame_count = add64 1 1 },
        seen (pos 7) writer_1 segment_1 next finished,
      ))
    × (c : Channel) × (r' : Reader) × (Reader.read reader
          (mix (pos 7) writer_1 segment_1 next loads)
          (some 4)
        ≡ some (Channel.poll 0 c, r'))
    × (r'.last_frame ≡ c.frame)
    × ((c ≡ view segment_1)
        ⊎ (c ≡ Channel.publish next (view segment_1))
        ⊎ ((length next ≢ 3) × (c ≡ resized 1 segment_1)))
overlapping_read_example =
    overlapping_read (pos 7) writer_1 reader segment_1 next 4 loads writer_1-IsAttached
      reader_1-IsConnected (omega arith) (omega arith) loads-IsOrdered

overlapping_read_resizes_example :
    (l : Loads (stores (pos 7) writer_1 segment_1 next)) × (r' : Reader) × IsOrdered l
    × (Reader.read reader (mix (pos 7) writer_1 segment_1 next l) (some 4)
        ≡ some (some (slice segment_1.mem (front_start segment_1.header) 1), r'))
overlapping_read_resizes_example =
    overlapping_read_resizes (pos 7) writer_1 reader segment_1 next 4 writer_1-IsAttached
      reader_1-IsConnected (omega arith) (omega arith) (omega arith)
