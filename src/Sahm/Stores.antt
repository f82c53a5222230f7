-- ===== src/Sahm/Stores.antt =====
-- Stores of a frame behind the pointers of `getWriteSlots`, and the ring buffers they leave
-- alone.
use sim_library_v.Prelude.{ℕ, ◌≡◌, ◌≢◌, refl, ◌∙◌, List, [], ◌∷◌, arith, Bool-cases, inl, inr, ◌==◌}
use sim_library_v.Memory.{blit}
use sim_library_v.Sahm.Ring.{Ring}
use sim_library_v.Sahm.Writer.{Info, Rings, put_ring, write_slots}
use sim_library_v.Sahm.Delivery.{IsAbsent}

-- The caller stores the bytes behind a pointer that `getWriteSlots` gave.
abbrev pub store : ℕ × ℕ → List ℕ → Rings → Rings
store (o, p) bytes rings = put_ring o (record (rings o) { mem = blit (rings o).mem p bytes }) rings

-- Behind every one of the pointers.
abbrev pub store_all : List (ℕ × ℕ) → List ℕ → Rings → Rings
store_all [] bytes rings = rings
store_all (p ∷ ps) bytes rings = store_all ps bytes (store p bytes rings)

-- No pointer goes to the object `o`.
abbrev pub Avoids : ℕ → List (ℕ × ℕ) → Type 0
Avoids o [] = Unit
Avoids o (p ∷ ps) = (p.0 ≢ o) × Avoids o ps

-- The same rings, except perhaps the object `o`.
abbrev pub Agree : ℕ → Rings → Rings → Type 0
Agree o r s = (x : ℕ) → x ≢ o → r x ≡ s x

store-Agree :
    (o : ℕ) (p : ℕ × ℕ) (bytes : List ℕ) (r s : Rings)
    → p.0 ≢ o
    → Agree o r s
    → Agree o (store p bytes r) (store p bytes s)
unfolding put_ring
store-Agree o p bytes r s ne h x off = elim (Bool-cases (x == p.0)) [
  | inl same ↦ ground (arith, same, h p.0 ne)
  | inr other ↦ ground (arith, other, h x off)
]

store_all-Agree :
    (o : ℕ) (ps : List (ℕ × ℕ)) (bytes : List ℕ) (r s : Rings)
    → Avoids o ps
    → Agree o r s
    → Agree o (store_all ps bytes r) (store_all ps bytes s)
store_all-Agree o [] bytes r s a h = h
store_all-Agree o (p ∷ ps) bytes r s a h =
    store_all-Agree o ps bytes (store p bytes r) (store p bytes s) a.1
      (store-Agree o p bytes r s a.0 h)

pub store_all-away :
    (o : ℕ) (ps : List (ℕ × ℕ)) (bytes : List ℕ) (r : Rings)
    → Avoids o ps
    → store_all ps bytes r o ≡ r o
unfolding put_ring
store_all-away o [] bytes r a = refl
store_all-away o (p ∷ ps) bytes r a =
    store_all-away o ps bytes (store p bytes r) a.1 ∙ ground (arith, a.0)

-- A ring put last is there before all stores to other objects.
pub put_ring-store_all :
    (o p : ℕ) (ps : List (ℕ × ℕ)) (bytes : List ℕ) (r : Ring) (rings : Rings)
    → Avoids o ps
    → put_ring o r (store_all ps bytes (store (o, p) bytes rings))
      ≡ store_all ps bytes (put_ring o r rings)
unfolding put_ring
put_ring-store_all o p ps bytes r rings a i x = pointwise x i
  where
    agree : Agree o (store (o, p) bytes rings) (put_ring o r rings)
    agree x off = ground (arith, off)

    pointwise :
        (x : ℕ)
        → put_ring o r (store_all ps bytes (store (o, p) bytes rings)) x
          ≡ store_all ps bytes (put_ring o r rings) x
    pointwise x = elim (Bool-cases (x == o)) [
      | inl same ↦
          let e : x ≡ o = ground (arith, same) in
          rw e (ground (arith, store_all-away o ps bytes (put_ring o r rings) a))
      | inr other ↦ ground (
        arith,
        other,
        store_all-Agree o ps bytes (store (o, p) bytes rings) (put_ring o r rings) a agree x,
      )
    ]

pub write_slots-put_ring :
    (o : ℕ) (r : Ring) (is : List Info) (rings : Rings)
    → IsAbsent o is
    → write_slots is (put_ring o r rings) ≡ write_slots is rings
unfolding put_ring write_slots
write_slots-put_ring o r [] rings a = refl
write_slots-put_ring o r (i ∷ is) rings a = elim (Bool-cases i.valid) [
  | inl valid ↦ ground (arith, valid, a.0 valid, write_slots-put_ring o r is rings a.1)
  | inr empty ↦ ground (arith, empty, write_slots-put_ring o r is rings a.1)
]

pub write_slots-Avoids :
    (o : ℕ) (is : List Info) (rings : Rings) → IsAbsent o is → Avoids o (write_slots is rings)
unfolding write_slots
write_slots-Avoids o [] rings a = tt
write_slots-Avoids o (i ∷ is) rings a = elim (Bool-cases i.valid) [
  | inl valid ↦ rw valid (a.0 valid, write_slots-Avoids o is rings a.1)
  | inr empty ↦ rw empty (write_slots-Avoids o is rings a.1)
]
