-- ===== src/Barq/Write.antt =====
-- `write` and `commit` refine the publication of a frame.
use sim_library_v.Prelude.{
  ℕ, ◌-◌, ◌%◌, ◌≤◌, ◌<◌, ◌≡◌, ◌↔◌, ◌⊎◌, inl, inr, true, false, some, List, length, take,
  length-take, arith, add64, take-length, ap, ◌∙◌,
}
use sim_library_v.Prelude.Int.{ℤ}
use sim_library_v.Channel
use sim_library_v.Memory.{blit}
use sim_library_v.Memory.Laws.{slice-blit_self}
use sim_library_v.Barq.Copy.{nt_memcpy}
use sim_library_v.Barq.Copy.Laws.{nt_memcpy-eq-blit}
use sim_library_v.Barq.Header.{Segment}
use sim_library_v.Barq.Writer.{Writer, write, commit, get_write_buffer, set_metadata}
use sim_library_v.Barq.Valid.{view, stride, stride_bounds, back_start, IsAttached, Front-cases}

-- The segment after the publication of `size` bytes of the back buffer.
abbrev pub flipped : ℤ → Writer → Segment → ℕ → Segment
flipped now w s size = record s {
  header =
      record (set_metadata (1 - s.header.front_idx) size now (add64 w.frame_count 1) s.header) {
        heartbeat_ns = now;
        front_idx = 1 - s.header.front_idx;
      };
}

-- The segment after the bytes went to the back buffer.
abbrev pub filled : Segment → List ℕ → Segment
filled s bytes = record s { mem = blit s.mem (back_start s.header) bytes }

abbrev pub written : ℤ → Writer → Segment → List ℕ → Segment
written now w s bytes = flipped now w (filled s bytes) (length bytes)

pub write-written :
    (now : ℤ) (w : Writer) (s : Segment) (bytes : List ℕ) (size : ℕ)
    → IsAttached w s
    → size ≤ w.max_size
    → size ≤ length bytes
    → write now w s bytes size
      ≡ some (
        true,
        record w { frame_count = add64 w.frame_count 1 },
        written now w s (take size bytes),
      )
unfolding write
write-written now w s bytes size v h k = elim (Front-cases v.segment) [
  | inl e ↦ ground (arith, source, bounds, streamed)
  | inr e ↦ ground (arith, source, bounds, streamed)
]
  where
    source : length (take size bytes) ≡ size
    source = omega (arith, length-take size bytes)

    bounds : (w.max_size ≤ stride w.max_size) × (stride w.max_size % 16 ≡ 0)
    bounds = omega (arith, stride_bounds w.max_size v.small)

    streamed :
        nt_memcpy s.mem (back_start s.header) (take size bytes)
        ≡ blit s.mem (back_start s.header) (take size bytes)
    streamed = nt_memcpy-eq-blit s.mem (back_start s.header) (take size bytes)

-- A write of a whole array.
pub write_all :
    (now : ℤ) (w : Writer) (s : Segment) (bytes : List ℕ)
    → IsAttached w s
    → length bytes ≤ w.max_size
    → write now w s bytes (length bytes)
      ≡ some (true, record w { frame_count = add64 w.frame_count 1 }, written now w s bytes)
write_all now w s bytes v h =
    write-written now w s bytes (length bytes) v h (omega arith)
    ∙ ap (λ b. some (true, record w { frame_count = add64 w.frame_count 1 }, written now w s b))
        (take-length bytes)

pub written-IsAttached :
    (now : ℤ) (w : Writer) (s : Segment) (bytes : List ℕ)
    → IsAttached w s
    → length bytes ≤ w.max_size
    → IsAttached (record w { frame_count = add64 w.frame_count 1 }) (written now w s bytes)
unfolding set_metadata
written-IsAttached now w s bytes v h = elim (Front-cases v.segment) [
  | inl e ↦ ground arith
  | inr e ↦ ground arith
]

pub view-written :
    (now : ℤ) (w : Writer) (s : Segment) (bytes : List ℕ)
    → IsAttached w s
    → view (written now w s bytes) ≡ Channel.publish bytes (view s)
unfolding Channel.publish set_metadata
view-written now w s bytes v = elim (Front-cases v.segment) [
  | inl e ↦ ground (arith, slice-blit_self s.mem (back_start s.header) bytes)
  | inr e ↦ ground (arith, slice-blit_self s.mem (back_start s.header) bytes)
]

-- On an attached writer, `write` of at most `max_size` bytes that the caller's array has runs
-- into no undefined behaviour, on the path of streaming stores (4096 bytes and more) as on that
-- of `memcpy`, and returns true; the writer stays attached, and the segment presents the bytes as
-- the next frame.
pub write_presents :
    (now : ℤ) (w : Writer) (s : Segment) (bytes : List ℕ) (size : ℕ)
    → IsAttached w s
    → size ≤ w.max_size
    → size ≤ length bytes
    → (w' : Writer) × (s' : Segment) × (write now w s bytes size ≡ some (true, w', s'))
      × IsAttached w' s'
      × (view s' ≡ Channel.publish (take size bytes) (view s))
write_presents now w s bytes size v h k = (
  record w { frame_count = add64 w.frame_count 1 },
  written now w s (take size bytes),
  write-written now w s bytes size v h k,
  written-IsAttached now w s (take size bytes) v (omega (arith, length-take size bytes)),
  view-written now w s (take size bytes) v,
)

-- On an attached writer, for at most `max_size` bytes: `getWriteBuffer` gives the back buffer;
-- filling it and `commit` publish what `write` publishes, and count it in the statistics of the
-- header, which `write` leaves alone.
pub zero_copy-eq-write :
    (now : ℤ) (w : Writer) (s : Segment) (bytes : List ℕ)
    → IsAttached w s
    → length bytes ≤ w.max_size
    → (w' : Writer) × (s' : Segment) × (get_write_buffer w s ≡ some (some (back_start s.header)))
      × (write now w s bytes (length bytes) ≡ some (true, w', s'))
      × (commit now w (filled s bytes) (length bytes)
          ≡ some (
            true,
            w',
            record s' {
              header = record s'.header {
                total_writes = add64 s.header.total_writes 1;
                total_bytes = add64 s.header.total_bytes (length bytes);
              };
            },
          ))
      × (s'.header.total_writes ≡ s.header.total_writes)
      × (s'.header.total_bytes ≡ s.header.total_bytes)
unfolding commit get_write_buffer
zero_copy-eq-write now w s bytes v h = (
  record w { frame_count = add64 w.frame_count 1 },
  written now w s bytes,
  elim (Front-cases v.segment) [ inl e ↦ ground arith | inr e ↦ ground arith ],
  write_all now w s bytes v h,
  elim (Front-cases v.segment) [ inl e ↦ ground arith | inr e ↦ ground arith ],
  elim (Front-cases v.segment) [ inl e ↦ ground arith | inr e ↦ ground arith ],
  elim (Front-cases v.segment) [ inl e ↦ ground arith | inr e ↦ ground arith ],
)

-- `write` and `commit` return false and change nothing exactly when the writer is not initialized
-- or the size is above the maximum.
pub write_refuses :
    (now : ℤ) (w : Writer) (s : Segment) (bytes : List ℕ) (size : ℕ)
    → ((write now w s bytes size ≡ some (false, w, s))
        ↔ ((w.initialized ≡ false) ⊎ (w.max_size < size)))
      × ((commit now w s size ≡ some (false, w, s))
          ↔ ((w.initialized ≡ false) ⊎ (w.max_size < size)))
unfolding write commit
write_refuses now w s bytes size = (ground arith, ground arith)
