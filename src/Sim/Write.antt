-- ===== src/Sim/Write.antt =====
-- `write` refines the publication of a frame.
use sim_library_v.Prelude.{
  ℕ, ◌+◌, ◌-◌, ◌≤◌, ◌<◌, ◌≡◌, ◌↔◌, ◌⊎◌, inl, inr, true, false, Option, none, some, List, length,
  take, length-take, take-length, ap, ◌∙◌, arith, add64, ◌==◌, if◌then◌else◌,
}
use sim_library_v.Prelude.Int.{ℤ}
use sim_library_v.Channel
use sim_library_v.Memory.{blit, slice, Two}
use sim_library_v.Memory.Laws.{slice-blit_self, slice-blit_apart}
use sim_library_v.Sim.Checksum.{calculate_checksum}
use sim_library_v.Sim.Header.{Header, Segment}
use sim_library_v.Sim.Writer.{Writer, write}
use sim_library_v.Sim.Valid.{view, front_start, IsAttached, payload_start, Front-cases}

-- The array with its back element replaced, for a front index below 2.
abbrev pub set_back {ℓ} : {A : Type ℓ} → ℕ → A → Two A → Two A
set_back front v a = if front == 0 then record a { at_1 = v } else record a { at_0 = v }

-- Where the back buffer starts.
abbrev pub back_start : Header → ℕ
back_start h = if h.front_idx == 0 then payload_start + h.capacity else payload_start

abbrev pub written : ℤ → Writer → Segment → List ℕ → Segment
written now w s bytes = record s {
  header = record h {
    front_idx = 1 - h.front_idx;
    frame = set_back h.front_idx (add64 w.frame_count 1) h.frame;
    timestamp_ns = set_back h.front_idx now h.timestamp_ns;
    published_length = length bytes;
    writer_heartbeat_ns = now;
    checksum =
        if w.enable_checksum
        then set_back h.front_idx (calculate_checksum bytes) h.checksum
        else h.checksum;
  };
  mem = blit s.mem (back_start h) bytes;
}
  where
    h : Header
    h = s.header

pub write-written :
    (now : ℤ) (w : Writer) (s : Segment) (bytes : List ℕ) (size : ℕ)
    → IsAttached w s
    → size ≤ w.max_size
    → size ≤ length bytes
    → write now w s (some bytes) size
      ≡ some (
        true,
        record w { frame_count = add64 w.frame_count 1 },
        written now w s (take size bytes),
      )
unfolding write
write-written now w s bytes size v h k = elim (Front-cases v.segment) [
  | inl e ↦ ground (arith, length-take size bytes)
  | inr e ↦ ground (arith, length-take size bytes)
]

-- A write of a whole array.
pub write_all :
    (now : ℤ) (w : Writer) (s : Segment) (bytes : List ℕ)
    → IsAttached w s
    → length bytes ≤ w.max_size
    → write now w s (some bytes) (length bytes)
      ≡ some (true, record w { frame_count = add64 w.frame_count 1 }, written now w s bytes)
write_all now w s bytes v h =
    write-written now w s bytes (length bytes) v h (omega arith)
    ∙ ap (λ b. some (true, record w { frame_count = add64 w.frame_count 1 }, written now w s b))
        (take-length bytes)

pub written-IsAttached :
    (now : ℤ) (w : Writer) (s : Segment) (bytes : List ℕ)
    → IsAttached w s
    → length bytes ≤ w.max_size
    → IsAttached (record w { frame_count = add64 w.frame_count 1 }) (written now w s bytes)
written-IsAttached now w s bytes v h = elim (Front-cases v.segment) [
  | inl e ↦ ground arith
  | inr e ↦ ground arith
]

pub view-written :
    (now : ℤ) (w : Writer) (s : Segment) (bytes : List ℕ)
    → IsAttached w s
    → view (written now w s bytes) ≡ Channel.publish bytes (view s)
unfolding Channel.publish
view-written now w s bytes v = elim (Front-cases v.segment) [
  | inl e ↦ ground (arith, slice-blit_self s.mem (back_start s.header) bytes)
  | inr e ↦ ground (arith, slice-blit_self s.mem (back_start s.header) bytes)
]

-- On an attached writer, `write` of at most `max_size` bytes that the caller's array has runs
-- into no undefined behaviour and returns true; the writer stays attached, and the segment
-- presents the bytes as the next frame.
pub write_refines :
    (now : ℤ) (w : Writer) (s : Segment) (bytes : List ℕ) (size : ℕ)
    → IsAttached w s
    → size ≤ w.max_size
    → size ≤ length bytes
    → (w' : Writer) × (s' : Segment) × (write now w s (some bytes) size ≡ some (true, w', s'))
      × IsAttached w' s'
      × (view s' ≡ Channel.publish (take size bytes) (view s))
write_refines now w s bytes size v h k = (
  record w { frame_count = add64 w.frame_count 1 },
  written now w s (take size bytes),
  write-written now w s bytes size v h k,
  written-IsAttached now w s (take size bytes) v (omega (arith, length-take size bytes)),
  view-written now w s (take size bytes) v,
)

-- A `write` of at most `max_size` bytes by an attached writer leaves the front buffer as it was:
-- the bytes of the frame that a reader may still be copying.
pub write_keeps_front :
    (now : ℤ) (w w' : Writer) (s s' : Segment) (bytes : List ℕ) (size : ℕ)
    → IsAttached w s
    → size ≤ w.max_size
    → size ≤ length bytes
    → write now w s (some bytes) size ≡ some (true, w', s')
    → slice s'.mem (front_start s.header) s.header.capacity
      ≡ slice s.mem (front_start s.header) s.header.capacity
write_keeps_front now w w' s s' bytes size v h k e = elim (Front-cases v.segment) [
  | inl f ↦ ground (arith, write-written now w s bytes size v h k, apart, length-take size bytes)
  | inr f ↦ ground (arith, write-written now w s bytes size v h k, apart, length-take size bytes)
]
  where
    apart :
        (front_start s.header + s.header.capacity ≤ back_start s.header)
          ⊎ (back_start s.header + length (take size bytes) ≤ front_start s.header)
        → slice
            (blit s.mem (back_start s.header) (take size bytes))
            (front_start s.header)
            s.header.capacity
          ≡ slice s.mem (front_start s.header) s.header.capacity
    apart = slice-blit_apart s.mem _ (take size bytes) _ s.header.capacity

-- `write` returns false and changes nothing exactly when the writer is not initialized, the data
-- pointer is null, or the size is above the maximum.
pub write_rejects :
    (now : ℤ) (w : Writer) (s : Segment) (bytes : Option (List ℕ)) (size : ℕ)
    → (write now w s bytes size ≡ some (false, w, s))
      ↔ ((w.is_initialized ≡ false) ⊎ (bytes ≡ none) ⊎ (w.max_size < size))
unfolding write
write_rejects now w s none size = ground arith
write_rejects now w s (some bytes) size = ground arith
