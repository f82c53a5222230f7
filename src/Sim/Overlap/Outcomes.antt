-- ===== src/Sim/Overlap/Outcomes.antt =====
-- What a `read` of src/sim.cpp delivers that overlaps one `write`.
use sim_library_v.Prelude.{
  ℕ, ◌≤◌, ◌≡◌, ◌≢◌, ◌⊎◌, refl, inl, inr, some, List, [], ◌∷◌, length, arith, true, add64, ◌==◌,
  Bool-cases, ◌∙◌, ap,
}
use sim_library_v.Prelude.Int.{ℤ}
use sim_library_v.Channel
use sim_library_v.Channel.{Channel}
use sim_library_v.Memory.{slice}
use sim_library_v.Memory.Stores.{during, finished}
use sim_library_v.Sim.Header.{Segment}
use sim_library_v.Sim.Writer.{Writer, write}
use sim_library_v.Sim.Reader.{Reader, read}
use sim_library_v.Sim.Valid.{view, front_start, current_frame, IsAttached, IsConnected}
use sim_library_v.Sim.Read.{read_refines, read_new, after}
use sim_library_v.Sim.Write.{write_all}
use sim_library_v.Sim.Stores.{len, apply, preparation, stores-written}
use sim_library_v.Sim.Overlap.{
  seen, Loads, IsOrdered, stores, mix, resized, mix-cases, mix-IsConnected,
}

-- An attached writer writes at most `max_size` bytes while a connected reader with room for
-- `max_size` bytes reads, each load at a moment of its own, those after the acquiring one ordered
-- after it. `write` returns true and leaves what all its stores leave. The read runs into no
-- undefined behaviour, and its answer and the frame number it remembers are those of one of three frames: the one before the write; the one written; or, only
-- where the two differ in length, the one before the write with the length of the one written.
pub overlapping_read :
    (now : ℤ) (w : Writer) (r : Reader) (s : Segment) (src : List ℕ) (room : ℕ)
    (l : Loads (stores now w s src))
    → IsAttached w s
    → IsConnected r s
    → length src ≤ w.max_size
    → r.max_size ≤ room
    → IsOrdered l
    → (write now w s (some src) (length src)
        ≡ some (true, record w { frame_count = add64 w.frame_count 1 }, seen now w s src finished))
      × (c : Channel) × (r' : Reader) × (read r (mix now w s src l) (some room)
          ≡ some (Channel.poll r.last_frame c, r'))
      × (r'.last_frame ≡ c.frame)
      × ((c ≡ view s)
          ⊎ (c ≡ Channel.publish src (view s))
          ⊎ ((length src ≢ s.header.published_length) × (c ≡ resized (length src) s)))
overlapping_read now w r s src room l a c fits fit order =
    let (r', done, v, last) =
      read_refines r (mix now w s src l) room (mix-IsConnected now w s src a fits l r c order)
        fit in
    (
      write-finished,
      view (mix now w s src l),
      r',
      done,
      last,
      elim (mix-cases now w s src a fits l order) [
        | inl same ↦ inl same
        | inr (inr new) ↦ inr (inl new)
        | inr (inl cut) ↦ elim (Bool-cases (length src == s.header.published_length)) [
          | inl e ↦ inl (ground (arith, cut))
          | inr ne ↦ inr (inr (ground arith, cut))
        ]
      ],
    )
  where
    write-finished :
        write now w s (some src) (length src)
        ≡ some (true, record w { frame_count = add64 w.frame_count 1 }, seen now w s src finished)
    write-finished =
        write_all now w s src a fits
        ∙ ap (λ (t : Segment). some (true, record w { frame_count = add64 w.frame_count 1 }, t))
            (stores-written now w s src a fits)

-- Of the loads only the one of the length sees a store, that of the new length.
abbrev late_length :
    (now : ℤ) (w : Writer) (s : Segment) (src : List ℕ) → Loads (stores now w s src)
unfolding preparation
late_length now w s src = record {
  front_idx = during [] tt;
  frame = during [] tt;
  published_length = during (len (length src) ∷ []) (inr (inr (inr (inl refl))), tt);
  timestamp_ns = during [] tt;
  byte = λ o. during [] tt;
  checksum = during [] tt;
}

-- An attached writer writes at most `max_size` bytes, and a connected reader with room for
-- `max_size` bytes has another last frame than the one presented. There is an order of the loads of
-- `read` and of the stores of `write` in which the read delivers the frame before the write with
-- the length of the frame written.
pub overlapping_read_resizes :
    (now : ℤ) (w : Writer) (r : Reader) (s : Segment) (src : List ℕ) (room : ℕ)
    → IsAttached w s
    → IsConnected r s
    → length src ≤ w.max_size
    → r.max_size ≤ room
    → current_frame s.header ≢ r.last_frame
    → (l : Loads (stores now w s src)) × (r' : Reader) × IsOrdered l
      × (read r (mix now w s src l) (some room)
          ≡ some (some (slice s.mem (front_start s.header) (length src)), r'))
unfolding late_length mix apply
overlapping_read_resizes now w r s src room a c fits fit new = (
  late_length now w s src,
  after r (mix now w s src (late_length now w s src)),
  order,
  read_new r (mix now w s src (late_length now w s src)) room
      (mix-IsConnected now w s src a fits (late_length now w s src) r c order) fit new,
)
  where
    order : IsOrdered (late_length now w s src)
    order = record {
      frame = tt;
      published_length = tt;
      timestamp_ns = tt;
      byte = λ o. tt;
      checksum = tt;
    }
