-- ===== src/Barq/Tests/Overlaps.antt =====
-- A `getLatest` that overlaps a `write`, at a concrete input.
use sim_library_v.Prelude.{◌≡◌, ◌⊎◌, refl, inl, inr, true, Option, some, [], ◌∷◌, arith, add64}
use sim_library_v.Prelude.Int.{pos}
use sim_library_v.Channel
use sim_library_v.Channel.{Channel}
use sim_library_v.Memory.Stores.{during, finished}
use sim_library_v.Barq.Writer
use sim_library_v.Barq.Reader
use sim_library_v.Barq.Reader.{Reader, Latest}
use sim_library_v.Barq.Valid.{view}
use sim_library_v.Barq.Read.{bytes_of}
use sim_library_v.Barq.Stores.{preparation, ts}
use sim_library_v.Barq.Overlap.{Loads, IsOrdered, stores, mix, seen, overlapping_get_latest}
use sim_library_v.Barq.Tests.{writer, segment, reader, writer-IsAttached, reader-IsConnected, bytes}

-- All stores are visible to the copy, a time stamp to the load of the length, none to the others.
abbrev loads : Loads (stores (pos 6) writer segment bytes)
unfolding preparation
loads = record {
  front_idx = during [] tt;
  seq = during [] tt;
  len = during (ts 1 (pos 6) ∷ []) (inr (inr (inl refl)), tt);
  ts = during [] tt;
  byte = λ o. finished;
}

loads-IsOrdered : IsOrdered loads
unfolding loads
loads-IsOrdered = record { seq = tt; len = tt; ts = tt; byte = λ o. tt }

overlapping_get_latest_example :
    (Writer.write (pos 6) writer segment bytes 3
      ≡ some (
        true,
        record writer { frame_count = add64 0 1 },
        seen (pos 6) writer segment bytes finished,
      ))
    × (c : Channel) × (result : Option Latest) × (r' : Reader) × (Reader.get_latest reader
          (mix (pos 6) writer segment bytes loads)
        ≡ some (result, r'))
    × (bytes_of (mix (pos 6) writer segment bytes loads) result ≡ Channel.poll 0 c)
    × (r'.last_seq ≡ c.frame)
    × ((c ≡ view segment) ⊎ (c ≡ Channel.publish bytes (view segment)))
overlapping_get_latest_example =
    overlapping_get_latest (pos 6) writer reader segment bytes loads writer-IsAttached
      reader-IsConnected (omega arith) loads-IsOrdered
