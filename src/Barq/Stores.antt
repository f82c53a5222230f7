-- ===== src/Barq/Stores.antt =====
-- `BARQ::Writer::write` store by store, for a reader that looks at any moment: the stores before
-- the release of `front_idx` may become visible in part and in any order.
use sim_library_v.Prelude.{
  ℕ, ◌+◌, ◌-◌, ◌≤◌, ◌<◌, ◌≡◌, refl, inl, inr, true, some, ap, ◌∙◌, List, [], ◌∷◌, length, arith,
  add64, ◌==◌, if◌then◌else◌,
}
use sim_library_v.Prelude.Int.{ℤ}
use sim_library_v.Memory.{blit, slice}
use sim_library_v.Memory.Stores.{All, AreAmong, All-AreAmong, apply_all, apply_all-keeps}
use sim_library_v.Memory.Laws.{blit_outside, slice_ext}
use sim_library_v.Barq.Header.{Header, Segment}
use sim_library_v.Barq.Writer.{Writer, write, set_metadata}
use sim_library_v.Barq.Valid.{
  view, front_fits, stride, stride_bounds, front_start, front_len, front_seq, front_ts, back_start,
  IsSegment, IsAttached, Front-cases,
}
use sim_library_v.Barq.Write.{written, write_all}
pub mod Kept

-- A store into the segment: bytes of the payload, or a field of the header; the metadata of a
-- buffer by its index.
pub data Store : Type 0 where
  bytes : ℕ → List ℕ → Store
  len : ℕ → ℕ → Store
  ts : ℕ → ℤ → Store
  seq : ℕ → ℕ → Store
  heartbeat : ℤ → Store
  front : ℕ → Store

unfoldable pub apply : Store → Segment → Segment
apply (bytes o xs) s = record s { mem = blit s.mem o xs }
apply (len i v) s = record s {
  header = record s.header {
    len0 = if i == 0 then v else s.header.len0;
    len1 = if i == 0 then s.header.len1 else v;
  };
}
apply (ts i v) s = record s {
  header = record s.header {
    ts0 = if i == 0 then v else s.header.ts0;
    ts1 = if i == 0 then s.header.ts1 else v;
  };
}
apply (seq i v) s = record s {
  header = record s.header {
    seq0 = if i == 0 then v else s.header.seq0;
    seq1 = if i == 0 then s.header.seq1 else v;
  };
}
apply (heartbeat v) s = record s { header = record s.header { heartbeat_ns = v } }
apply (front i) s = record s { header = record s.header { front_idx = i } }

-- The stores of `write` before the last, in program order, for a source `src` of all bytes.
unfoldable pub preparation : ℤ → Writer → Header → List ℕ → List Store
preparation now w h src =
    let back = 1 - h.front_idx in
    bytes (back_start h) src
    ∷ len back (length src)
    ∷ ts back now
    ∷ seq back (add64 w.frame_count 1)
    ∷ heartbeat now
    ∷ []

-- A store that leaves the front buffer and the front index alone, and stores no length above the
-- capacity.
abbrev pub IsBack : Header → Store → Type 0
IsBack h (bytes o xs) = (back_start h ≤ o) × (o + length xs ≤ back_start h + stride h.capacity)
IsBack h (len i v) = (i ≡ 1 - h.front_idx) × (v ≤ h.capacity)
IsBack h (ts i v) = i ≡ 1 - h.front_idx
IsBack h (seq i v) = i ≡ 1 - h.front_idx
IsBack h (heartbeat v) = Unit
IsBack h (front i) = ⊥

pub stores-written :
    (now : ℤ) (w : Writer) (s : Segment) (src : List ℕ)
    → IsAttached w s
    → written now w s src
      ≡ apply (front (1 - s.header.front_idx)) (apply_all apply (preparation now w s.header src) s)
unfolding preparation apply set_metadata
stores-written now w s src v = elim (Front-cases v.segment) [
  | inl f ↦ ground arith
  | inr f ↦ ground arith
]

-- An attached writer writes at most `max_size` bytes. The stores of `write` up to the last leave
-- the front buffer and the front index alone; and all of them in program order leave what
-- `write` leaves.
pub stores-eq-write :
    (now : ℤ) (w : Writer) (s : Segment) (src : List ℕ)
    → IsAttached w s
    → length src ≤ w.max_size
    → All (IsBack s.header) (preparation now w s.header src)
      × (write now w s src (length src)
          ≡ some (
            true,
            record w { frame_count = add64 w.frame_count 1 },
            apply
                (front (1 - s.header.front_idx))
                (apply_all apply (preparation now w s.header src) s),
          ))
unfolding preparation apply
stores-eq-write now w s src v h = (
  elim (Front-cases v.segment) [
    | inl f ↦ ground (arith, stride_bounds w.max_size v.small)
    | inr f ↦ ground (arith, stride_bounds w.max_size v.small)
  ],
  write_all now w s src v h
      ∙ ap (λ (t : Segment). some (true, record w { frame_count = add64 w.frame_count 1 }, t))
          (stores-written now w s src v),
)
