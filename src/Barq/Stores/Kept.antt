-- ===== src/Barq/Stores/Kept.antt =====
-- What the stores of `BARQ::Writer::write` leave to a reader before the release.
use sim_library_v.Prelude.{
  ℕ, ◌+◌, ◌≤◌, ◌<◌, ◌≡◌, refl, inl, inr, ◌∙◌, List, length, arith, ◌==◌, if◌then◌else◌,
}
use sim_library_v.Prelude.Int.{ℤ}
use sim_library_v.Memory.{slice}
use sim_library_v.Memory.Stores.{All, AreAmong, All-AreAmong, apply_all, apply_all-keeps}
use sim_library_v.Memory.Laws.{blit_outside, slice_ext}
use sim_library_v.Barq.Header.{Segment}
use sim_library_v.Barq.Writer.{Writer}
use sim_library_v.Barq.Valid.{
  view, front_fits, stride, stride_bounds, front_start, front_len, front_seq, front_ts, IsSegment,
  IsAttached, Front-cases,
}
use sim_library_v.Barq.Stores.{
  Store, bytes, len, ts, seq, heartbeat, front, apply, preparation, IsBack, stores-eq-write,
}

-- What stays of the front buffer of `s` while a write is under way.
pub record Kept (s t : Segment) : Type 0 where
  pub seq : (if s.header.front_idx == 0 then t.header.seq0 else t.header.seq1) ≡ front_seq s.header
  pub len : (if s.header.front_idx == 0 then t.header.len0 else t.header.len1) ≡ front_len s.header
  pub ts : (if s.header.front_idx == 0 then t.header.ts0 else t.header.ts1) ≡ front_ts s.header
  pub small : (t.header.len0 ≤ s.header.capacity) × (t.header.len1 ≤ s.header.capacity)
  pub payload :
      (o : ℕ)
      → front_start s.header ≤ o
      → o < front_start s.header + stride s.header.capacity
      → t.mem o ≡ s.mem o

pub Kept-refl : (s : Segment) → IsSegment s → Kept s s
Kept-refl s v = record {
  seq = refl;
  len = refl;
  ts = refl;
  small = (v.length_0, v.length_1);
  payload = λ o from to. refl;
}

-- What stays besides until the release.
pub record Same (s t : Segment) : Type 0 where
  pub front : t.header.front_idx ≡ s.header.front_idx
  pub capacity : t.header.capacity ≡ s.header.capacity
  pub kept : Kept s t

module _ (s : Segment) (v : IsSegment s) where
  apply-Kept : (x : Store) (t : Segment) → Kept s t → IsBack s.header x → Kept s (apply x t)
  unfolding apply
  apply-Kept (bytes o xs) t k b = record {
    seq = k.seq;
    len = k.len;
    ts = k.ts;
    small = k.small;
    payload = λ a from to.
        blit_outside t.mem o xs a (elim (Front-cases v) [
          | inl e ↦ inl (ground (arith, b, from, to))
          | inr e ↦ inr (ground (arith, b, from, to))
        ])
        ∙ k.payload a from to;
  }
  apply-Kept (len i n) t k b = record {
    seq = k.seq;
    len = elim (Front-cases v) [
      | inl f ↦ ground (arith, b, k.len)
      | inr f ↦ ground (arith, b, k.len)
    ];
    ts = k.ts;
    small = elim (Front-cases v) [
      | inl f ↦ ground (arith, b, k.small)
      | inr f ↦ ground (arith, b, k.small)
    ];
    payload = k.payload;
  }
  apply-Kept (ts i n) t k b = record {
    seq = k.seq;
    len = k.len;
    ts = elim (Front-cases v) [ inl f ↦ ground (arith, b, k.ts) | inr f ↦ ground (arith, b, k.ts) ];
    small = k.small;
    payload = k.payload;
  }
  apply-Kept (seq i n) t k b = record {
    seq = elim (Front-cases v) [
      | inl f ↦ ground (arith, b, k.seq)
      | inr f ↦ ground (arith, b, k.seq)
    ];
    len = k.len;
    ts = k.ts;
    small = k.small;
    payload = k.payload;
  }
  apply-Kept (heartbeat n) t k b = record {
    seq = k.seq;
    len = k.len;
    ts = k.ts;
    small = k.small;
    payload = k.payload;
  }
  apply-Kept (front i) t k b = absurd b

  apply-Same : (x : Store) (t : Segment) → Same s t → IsBack s.header x → Same s (apply x t)
  unfolding apply
  apply-Same (bytes o xs) t e b = record {
    front = e.front;
    capacity = e.capacity;
    kept = apply-Kept (bytes o xs) t e.kept b;
  }
  apply-Same (len i n) t e b = record {
    front = e.front;
    capacity = e.capacity;
    kept = apply-Kept (len i n) t e.kept b;
  }
  apply-Same (ts i n) t e b = record {
    front = e.front;
    capacity = e.capacity;
    kept = apply-Kept (ts i n) t e.kept b;
  }
  apply-Same (seq i n) t e b = record {
    front = e.front;
    capacity = e.capacity;
    kept = apply-Kept (seq i n) t e.kept b;
  }
  apply-Same (heartbeat n) t e b = record {
    front = e.front;
    capacity = e.capacity;
    kept = apply-Kept (heartbeat n) t e.kept b;
  }
  apply-Same (front i) t e b = absurd b

  pub apply_all-Same : (xs : List Store) → All (IsBack s.header) xs → Same s (apply_all apply xs s)
  apply_all-Same xs b =
      apply_all-keeps apply (IsBack s.header) (Same s) (λ x t b k. apply-Same x t k b) xs s b
        (record { front = refl; capacity = refl; kept = Kept-refl s v })

-- An attached writer writes at most `max_size` bytes. Whatever part of the stores of `write` has
-- become visible, in any order, before the last one, the release of the front index: a reader
-- finds the previous frame, whole, with its number and length.
pub unfinished_write_unseen :
    (now : ℤ) (w : Writer) (s : Segment) (src : List ℕ) (xs : List Store)
    → IsAttached w s
    → length src ≤ w.max_size
    → AreAmong xs (preparation now w s.header src)
    → view (apply_all apply xs s) ≡ view s
unfinished_write_unseen now w s src xs v h m =
    ground (arith, e.front, e.capacity, e.kept.seq, e.kept.len, payload)
  where
    e : Same s (apply_all apply xs s)
    e =
        apply_all-Same s v.segment xs
          (All-AreAmong (IsBack s.header) xs _ (stores-eq-write now w s src v h).0 m)

    covers : s.header.capacity ≤ stride s.header.capacity
    covers = rw v.capacity (omega (arith, stride_bounds w.max_size v.small))

    payload :
        slice (apply_all apply xs s).mem (front_start s.header) (front_len s.header)
        ≡ slice s.mem (front_start s.header) (front_len s.header)
    payload =
        slice_ext _ s.mem _ _
          (λ o from to. e.kept.payload o from (omega (arith, to, front_fits v.segment, covers)))
