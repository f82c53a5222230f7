-- ===== src/Casir/Write.antt =====
-- The three ways to write a CASIR frame refine its publication.
use sim_library_v.Prelude.{
  ℕ, ◌-◌, ◌≤◌, ◌<◌, ◌≡◌, ◌⊎◌, inl, inr, true, false, some, List, length, take, length-take, arith,
  add64, take-length, ap, ◌∙◌, ◌↔◌,
}
use sim_library_v.Prelude.Int.{ℤ}
use sim_library_v.Channel
use sim_library_v.Memory.{blit}
use sim_library_v.Memory.Laws.{slice-blit_self}
use sim_library_v.Casir.Header.{Segment}
use sim_library_v.Casir.Writer.{
  Writer, flip, set_frame, count_write, write, write_zero_copy, get_write_buffer, commit_write,
}
use sim_library_v.Casir.Valid.{
  view, stride_bounds, back_start, IsAttached, IsConnected, Front-cases,
}
use sim_library_v.Casir.Reader.{Reader}

-- The segment after the publication of `size` bytes of the back buffer.
abbrev pub flipped : ℤ → Writer → Segment → ℕ → Segment
flipped now w s size = record s {
  header = flip (1 - s.header.front_idx) (add64 w.frame_count 1) size now s.header;
}

-- The segment after the bytes went to the back buffer.
abbrev pub filled : Segment → List ℕ → Segment
filled s bytes = record s { mem = blit s.mem (back_start s.header) bytes }

abbrev pub written : ℤ → Writer → Segment → List ℕ → Segment
written now w s bytes = flipped now w (filled s bytes) (length bytes)

-- The segment with the counters of a write of `size` bytes.
abbrev pub counted : ℕ → Segment → Segment
counted size s = record s { header = count_write size s.header }

abbrev pub next : Writer → Writer
next w = record w { frame_count = add64 w.frame_count 1 }

module _ (now : ℤ) (w : Writer) (s : Segment) (v : IsAttached w s) where
  pub write-written :
      (bytes : List ℕ) (size : ℕ)
      → size ≤ w.max_size
      → size ≤ length bytes
      → write now w s bytes size ≡ some (true, next w, written now w s (take size bytes))
  unfolding write
  write-written bytes size h k =
      let source : length (take size bytes) ≡ size = omega (arith, length-take size bytes) in
      let room = stride_bounds s.header.capacity v.segment.small in
      elim (Front-cases v.segment) [
        | inl e ↦ ground (arith, source, room)
        | inr e ↦ ground (arith, source, room)
      ]

  pub write_all :
      (bytes : List ℕ)
      → length bytes ≤ w.max_size
      → write now w s bytes (length bytes) ≡ some (true, next w, written now w s bytes)
  write_all bytes h =
      write-written bytes (length bytes) h (omega arith)
      ∙ ap (λ b. some (true, next w, written now w s b)) (take-length bytes)

  pub written-IsAttached :
      (bytes : List ℕ) → length bytes ≤ w.max_size → IsAttached (next w) (written now w s bytes)
  unfolding flip set_frame
  written-IsAttached bytes h = elim (Front-cases v.segment) [
    | inl e ↦ ground arith
    | inr e ↦ ground arith
  ]

  pub view-written :
      (bytes : List ℕ) → view (written now w s bytes) ≡ Channel.publish bytes (view s)
  unfolding Channel.publish flip set_frame
  view-written bytes = elim (Front-cases v.segment) [
    | inl e ↦ ground (arith, slice-blit_self s.mem (back_start s.header) bytes)
    | inr e ↦ ground (arith, slice-blit_self s.mem (back_start s.header) bytes)
  ]

  pub written-IsConnected :
      (r : Reader) (bytes : List ℕ)
      → IsConnected r s
      → length bytes ≤ w.max_size
      → IsConnected r (written now w s bytes)
  unfolding flip set_frame
  written-IsConnected r bytes c h = elim (Front-cases v.segment) [
    | inl e ↦ ground arith
    | inr e ↦ ground arith
  ]

  pub write_zero_copy-written :
      (bytes : List ℕ)
      → length bytes ≤ w.max_size
      → write_zero_copy now w s bytes (length bytes)
        ≡ some (true, next w, counted (length bytes) (written now w s bytes))
  unfolding write_zero_copy
  write_zero_copy-written bytes h =
      let room = stride_bounds s.header.capacity v.segment.small in
      elim (Front-cases v.segment) [ inl e ↦ ground (arith, room) | inr e ↦ ground (arith, room) ]

  pub commit_write-written :
      (bytes : List ℕ)
      → length bytes ≤ w.max_size
      → commit_write now w (filled s bytes) (length bytes)
        ≡ some (true, next w, counted (length bytes) (written now w s bytes))
  unfolding commit_write
  commit_write-written bytes h = elim (Front-cases v.segment) [
    | inl e ↦ ground arith
    | inr e ↦ ground arith
  ]

  pub get_write_buffer-back : get_write_buffer w s ≡ some (some (back_start s.header))
  unfolding get_write_buffer
  get_write_buffer-back = elim (Front-cases v.segment) [
    | inl e ↦ ground arith
    | inr e ↦ ground arith
  ]

-- On an attached writer, for at most `max_size` bytes: `writeZeroCopy` with a function that
-- stores the bytes, and storing them at `getWriteBuffer` before `commitWrite`, leave the same
-- segment. It is the one that `write` leaves, but for the counters, which `write` does not
-- advance; and it presents the bytes as the next frame.
pub three_writes_agree :
    (now : ℤ) (w : Writer) (s : Segment) (bytes : List ℕ)
    → IsAttached w s
    → length bytes ≤ w.max_size
    → (w' : Writer) × (s' : Segment) × (write now w s bytes (length bytes) ≡ some (true, w', s'))
      × (get_write_buffer w s ≡ some (some (back_start s.header)))
      × (commit_write now w (filled s bytes) (length bytes)
          ≡ some (true, w', counted (length bytes) s'))
      × (write_zero_copy now w s bytes (length bytes) ≡ some (true, w', counted (length bytes) s'))
      × (view (counted (length bytes) s') ≡ Channel.publish bytes (view s))
      × (s'.header.total_writes ≡ s.header.total_writes)
unfolding count_write flip set_frame
three_writes_agree now w s bytes v h = (
  next w,
  written now w s bytes,
  write_all now w s v bytes h,
  get_write_buffer-back now w s v,
  commit_write-written now w s v bytes h,
  write_zero_copy-written now w s v bytes h,
  view-written now w s v bytes,
  elim (Front-cases v.segment) [ inl e ↦ ground arith | inr e ↦ ground arith ],
)

-- All three return false and change nothing exactly when the writer is not initialized or the
-- size is above the maximum.
pub writes_refuse :
    (now : ℤ) (w : Writer) (s : Segment) (bytes : List ℕ) (size : ℕ)
    → let refused = (w.is_initialized ≡ false) ⊎ (w.max_size < size) in
      ((write now w s bytes size ≡ some (false, w, s)) ↔ refused)
      × ((write_zero_copy now w s bytes size ≡ some (false, w, s)) ↔ refused)
      × ((commit_write now w s size ≡ some (false, w, s)) ↔ refused)
unfolding write write_zero_copy commit_write
writes_refuse now w s bytes size = (ground arith, ground arith, ground arith)
