-- ===== src/Sim/Stores.antt =====
-- `SIM::Writer::write` store by store, for a reader that looks at any moment: the stores before the
-- release of `front_idx` may become visible in part and in any order.
use sim_library_v.Prelude.{
  ℕ, ◌+◌, ◌-◌, ◌≤◌, ◌<◌, ◌≡◌, ◌⊎◌, refl, inl, inr, ◌∙◌, List, [], ◌∷◌, length, arith, add64, ◌==◌,
  if◌then◌else◌, Bool-cases,
}
use sim_library_v.Prelude.Int.{ℤ}
use sim_library_v.Memory.{blit, Two}
use sim_library_v.Memory.Laws.{blit_outside}
use sim_library_v.Memory.Stores.{All, apply_all, apply_all-keeps}
use sim_library_v.Sim.Checksum.{calculate_checksum}
use sim_library_v.Sim.Header.{Header, Segment}
use sim_library_v.Sim.Writer.{Writer}
use sim_library_v.Sim.Valid.{front_start, IsSegment, IsAttached, Front-cases}
use sim_library_v.Sim.Write.{written, back_start}
use sim_library_v.Sim.Read.{front_of}

-- A store into the segment: bytes of the payload, or a field of the header, an array's by its index.
pub data Store : Type 0 where
  bytes : ℕ → List ℕ → Store
  frame : ℕ → ℕ → Store
  timestamp : ℕ → ℤ → Store
  len : ℕ → Store
  heartbeat : ℤ → Store
  checksum : ℕ → ℕ → Store
  front : ℕ → Store

-- `a[i] = v`, for an index below 2.
abbrev pub set_at {ℓ} : {A : Type ℓ} → ℕ → A → Two A → Two A
set_at i v a = if i == 0 then record a { at_0 = v } else record a { at_1 = v }

unfoldable pub apply : Store → Segment → Segment
apply (bytes o xs) s = record s { mem = blit s.mem o xs }
apply (frame i v) s = record s { header = record s.header { frame = set_at i v s.header.frame } }
apply (timestamp i v) s = record s {
  header = record s.header { timestamp_ns = set_at i v s.header.timestamp_ns };
}
apply (len v) s = record s { header = record s.header { published_length = v } }
apply (heartbeat v) s = record s { header = record s.header { writer_heartbeat_ns = v } }
apply (checksum i v) s = record s {
  header = record s.header { checksum = set_at i v s.header.checksum };
}
apply (front i) s = record s { header = record s.header { front_idx = i } }

-- The store of the checksum, where the writer has checksums enabled.
abbrev pub checksum_stores : Writer → ℕ → List ℕ → List Store
checksum_stores w back src =
    if w.enable_checksum then checksum back (calculate_checksum src) ∷ [] else []

-- The stores of `write` before the last, in program order, for a source `src` of all bytes.
unfoldable pub preparation : ℤ → Writer → Header → List ℕ → List Store
preparation now w h src =
    let back = 1 - h.front_idx in
    bytes (back_start h) src
    ∷ frame back (add64 w.frame_count 1)
    ∷ timestamp back now
    ∷ len (length src)
    ∷ heartbeat now
    ∷ checksum_stores w back src

-- A store that leaves the front buffer and the front elements of `h` alone, and stores no length but
-- `n`.
abbrev pub IsBack : Header → ℕ → Store → Type 0
IsBack h n (bytes o xs) = (back_start h ≤ o) × (o + length xs ≤ back_start h + h.capacity)
IsBack h n (frame i v) = i ≡ 1 - h.front_idx
IsBack h n (timestamp i v) = i ≡ 1 - h.front_idx
IsBack h n (len v) = v ≡ n
IsBack h n (heartbeat v) = Unit
IsBack h n (checksum i v) = i ≡ 1 - h.front_idx
IsBack h n (front i) = Unit

-- A store that leaves the front index alone.
abbrev pub IsPreparing : Store → Type 0
IsPreparing (bytes o xs) = Unit
IsPreparing (frame i v) = Unit
IsPreparing (timestamp i v) = Unit
IsPreparing (len v) = Unit
IsPreparing (heartbeat v) = Unit
IsPreparing (checksum i v) = Unit
IsPreparing (front i) = ⊥

-- What stays of `s` while a write of `n` bytes is under way.
pub record Kept (s : Segment) (n : ℕ) (t : Segment) : Type 0 where
  pub number :
      front_of s.header.front_idx t.header.frame ≡ front_of s.header.front_idx s.header.frame
  pub size :
      (t.header.published_length ≡ s.header.published_length) ⊎ (t.header.published_length ≡ n)
  pub payload :
      (o : ℕ)
      → front_start s.header ≤ o
      → o < front_start s.header + s.header.capacity
      → t.mem o ≡ s.mem o

pub Kept-refl : (s : Segment) (n : ℕ) → Kept s n s
Kept-refl s n = record { number = refl; size = inl refl; payload = λ o from to. refl }

pub apply-Kept :
    (s : Segment) (n : ℕ) (x : Store) (t : Segment)
    → IsSegment s
    → IsBack s.header n x
    → Kept s n t
    → Kept s n (apply x t)
unfolding apply
apply-Kept s n (bytes o xs) t v b k = record {
  number = k.number;
  size = k.size;
  payload = λ a from to.
      blit_outside t.mem o xs a (elim (Front-cases v) [
        | inl e ↦ inl (ground (arith, b, from, to))
        | inr e ↦ inr (ground (arith, b, from, to))
      ])
      ∙ k.payload a from to;
}
apply-Kept s n (frame i x) t v b k = record {
  number = elim (Front-cases v) [
    | inl e ↦ ground (arith, b, k.number)
    | inr e ↦ ground (arith, b, k.number)
  ];
  size = k.size;
  payload = k.payload;
}
apply-Kept s n (timestamp i x) t v b k = record {
  number = k.number;
  size = k.size;
  payload = k.payload;
}
apply-Kept s n (len x) t v b k = record { number = k.number; size = inr b; payload = k.payload }
apply-Kept s n (heartbeat x) t v b k = record {
  number = k.number;
  size = k.size;
  payload = k.payload;
}
apply-Kept s n (checksum i x) t v b k = record {
  number = k.number;
  size = k.size;
  payload = k.payload;
}
apply-Kept s n (front i) t v b k = record { number = k.number; size = k.size; payload = k.payload }

pub apply_all-front_idx :
    (xs : List Store) (s : Segment)
    → All IsPreparing xs
    → (apply_all apply xs s).header.front_idx ≡ s.header.front_idx
unfolding apply
apply_all-front_idx xs s p =
    apply_all-keeps apply IsPreparing (λ t. t.header.front_idx ≡ s.header.front_idx) step xs s p
      refl
  where
    step :
        (x : Store) (t : Segment)
        → IsPreparing x
        → t.header.front_idx ≡ s.header.front_idx
        → (apply x t).header.front_idx ≡ s.header.front_idx
    step (bytes o xs) t p e = e
    step (frame i v) t p e = e
    step (timestamp i v) t p e = e
    step (len v) t p e = e
    step (heartbeat v) t p e = e
    step (checksum i v) t p e = e
    step (front i) t p e = absurd p

module _ (now : ℤ) (w : Writer) (s : Segment) (src : List ℕ) (v : IsAttached w s)
    (fits : length src ≤ w.max_size) where
  pub preparation-IsBack : All (IsBack s.header (length src)) (preparation now w s.header src)
  unfolding preparation
  preparation-IsBack = elim (Bool-cases w.enable_checksum) [
    | inl on ↦
        rw on (
          (omega (arith), omega (arith, v.capacity, fits)),
          (refl, (refl, (refl, (tt, (refl, tt))))),
        )
    | inr off ↦
        rw off ((omega (arith), omega (arith, v.capacity, fits)), (refl, (refl, (refl, (tt, tt)))))
  ]

  pub preparation-IsPreparing : All IsPreparing (preparation now w s.header src)
  unfolding preparation
  preparation-IsPreparing = elim (Bool-cases w.enable_checksum) [
    | inl on ↦ rw on (tt, (tt, (tt, (tt, (tt, (tt, tt))))))
    | inr off ↦ rw off (tt, (tt, (tt, (tt, (tt, tt)))))
  ]

  pub stores-written :
      written now w s src
      ≡ apply (front (1 - s.header.front_idx)) (apply_all apply (preparation now w s.header src) s)
  unfolding preparation apply
  stores-written = elim (Front-cases v.segment) [
    | inl e ↦ elim (Bool-cases w.enable_checksum) [ inl on ↦ ground arith | inr off ↦ ground arith ]
    | inr e ↦ elim (Bool-cases w.enable_checksum) [ inl on ↦ ground arith | inr off ↦ ground arith ]
  ]
