-- ===== src/Demo/Frame/Laws.antt =====
-- What the frames of the programs in examples/ hold, and that the number comes out again.
use sim_library_v.Prelude.{
  ℕ, zero, suc, ◌+◌, ◌-◌, ◌/◌, ◌%◌, ◌^◌, ◌<◌, ◌≤◌, ◌≡◌, ◌⊎◌, inl, inr, refl, sym, List, [], ◌∷◌,
  length, take, arith, add64, ltb, ap, ◌∙◌, Bool-cases, ◌==◌,
}
use native.Mathlib.Nat.{pow-suc}
use sim_library_v.Memory.{Mem, blit, slice}
use sim_library_v.Memory.Laws.{slice_ext, blit_outside, slice-blit_self, length-slice}
use sim_library_v.Demo.Frame.{data_size, to_bytes, of_bytes, fill_rest, fill, extract, frame}

of_bytes-to_bytes : (k n : ℕ) → n < 256 ^ k → of_bytes (to_bytes k n) ≡ n
of_bytes-to_bytes zero n h = omega (arith, h)
of_bytes-to_bytes (suc k) n h =
    omega (arith, of_bytes-to_bytes k (n / 256) (omega (arith, h, pow-suc 256 k)))

length-to_bytes : (k n : ℕ) → length (to_bytes k n) ≡ k
length-to_bytes zero n = refl
length-to_bytes (suc k) n = ground (arith, length-to_bytes k (n / 256))

-- The loop leaves the bytes before it and after it.
fill_rest_outside :
    (left i sequence : ℕ) (bytes : Mem) (a : ℕ)
    → (a < i) ⊎ (i + left ≤ a)
    → fill_rest left i sequence bytes a ≡ bytes a
fill_rest_outside zero i sequence bytes a h = refl
fill_rest_outside (suc left) i sequence bytes a h =
    fill_rest_outside left (i + 1) sequence _ a (ground (arith, h))
    ∙ blit_outside bytes i (add64 sequence i % 256 ∷ []) a (ground (arith, h))

fill_rest_inside :
    (left i sequence : ℕ) (bytes : Mem) (a : ℕ)
    → i ≤ a
    → a < i + left
    → fill_rest left i sequence bytes a ≡ add64 sequence a % 256
unfolding blit
fill_rest_inside zero i sequence bytes a from to = absurd (omega (arith, from, to))
fill_rest_inside (suc left) i sequence bytes a from to = elim (Bool-cases (a == i)) [
  | inl same ↦ fill_rest_outside left (i + 1) sequence _ a (ground arith) ∙ ground arith
  | inr other ↦ fill_rest_inside left (i + 1) sequence _ a (ground arith) (ground arith)
]

blit_inside :
    (m m' : Mem) (o : ℕ) (xs : List ℕ) (a : ℕ)
    → o ≤ a
    → a < o + length xs
    → blit m o xs a ≡ blit m' o xs a
unfolding blit
blit_inside m m' o [] a from to = absurd (omega (arith, from, to))
blit_inside m m' o (x ∷ xs) a from to = elim (Bool-cases (a == o)) [
  | inl same ↦ ground arith
  | inr other ↦ ground (arith, blit_inside m m' (o + 1) xs a (ground arith) (ground arith))
]

fill_start :
    (sequence : ℕ) (bytes bytes' : Mem) (a : ℕ)
    → a < 8
    → fill sequence bytes a ≡ blit bytes' 0 (to_bytes 8 sequence) a
unfolding fill
fill_start sequence bytes bytes' a h =
    fill_rest_outside (data_size - 8) 8 sequence _ a (inl h)
    ∙ blit_inside _ bytes' 0 (to_bytes 8 sequence) a (omega arith)
        (omega (arith, h, length-to_bytes 8 sequence))

fill_rest_lem :
    (sequence : ℕ) (bytes : Mem) (a : ℕ)
    → 8 ≤ a
    → a < data_size
    → fill sequence bytes a ≡ add64 sequence a % 256
unfolding fill
fill_rest_lem sequence bytes a from to =
    fill_rest_inside (data_size - 8) 8 sequence _ a from (omega (arith, to))

-- What was in the buffer does not matter.
pub slice-fill :
    (sequence : ℕ) (bytes : Mem) → slice (fill sequence bytes) 0 data_size ≡ frame sequence
unfolding frame
slice-fill sequence bytes = slice_ext _ _ 0 data_size same
  where
    same : (a : ℕ) → 0 ≤ a → a < 0 + data_size → fill sequence bytes a ≡ fill sequence (λ b. 0) a
    same a from to = elim (Bool-cases (ltb a 8)) [
      | inl start ↦
          fill_start sequence bytes (λ b. 0) a (ground arith)
          ∙ sym (fill_start sequence (λ b. 0) (λ b. 0) a (ground arith))
      | inr rest ↦
          fill_rest_lem sequence bytes a (ground arith) (omega (arith, to))
          ∙ sym (fill_rest_lem sequence (λ b. 0) a (ground arith) (omega (arith, to)))
    ]

pub length-frame : (sequence : ℕ) → length (frame sequence) ≡ data_size
unfolding frame
length-frame sequence = length-slice _ 0 data_size

take-slice : (m : Mem) (o k n : ℕ) → k ≤ n → take k (slice m o n) ≡ slice m o k
unfolding slice
take-slice m o zero n h = refl
take-slice m o (suc k) zero h = absurd (omega (arith, h))
take-slice m o (suc k) (suc n) h = ap (λ xs. m o ∷ xs) (take-slice m (o + 1) k n (omega (arith, h)))

slice-fill_start :
    (sequence : ℕ) (bytes : Mem) → slice (fill sequence bytes) 0 8 ≡ to_bytes 8 sequence
slice-fill_start sequence bytes =
    slice_ext _ (blit bytes 0 (to_bytes 8 sequence)) 0 8
      (λ a from to. fill_start sequence bytes bytes a (omega (arith, to)))
    ∙ slice-blit_self bytes 0 (to_bytes 8 sequence)

-- The sequence number, below 2 ^ 64, is read from a frame wherever it lies.
pub of_bytes-frame :
    (sequence : ℕ) (m : Mem) (o n : ℕ)
    → sequence < 2 ^ 64
    → slice m o n ≡ frame sequence
    → (n ≡ data_size) × (of_bytes (slice m o 8) ≡ sequence)
unfolding frame
of_bytes-frame sequence m o n h e = (
  size,
  ap of_bytes (
        sym (take-slice m o 8 n (omega (arith, size)))
        ∙ ap (take 8) e
        ∙ take-slice (fill sequence (λ a. 0)) 0 8 data_size (omega arith)
        ∙ slice-fill_start sequence (λ a. 0))
      ∙ of_bytes-to_bytes 8 sequence (omega (arith, h)),
)
  where
    size : n ≡ data_size
    size = sym (length-slice m o n) ∙ ap length e ∙ length-slice _ 0 data_size

-- A copy of the frame is the frame.
pub slice-blit_frame :
    (sequence : ℕ) (buffer : Mem)
    → slice (blit buffer 0 (frame sequence)) 0 data_size ≡ frame sequence
slice-blit_frame sequence buffer =
    ap (slice (blit buffer 0 (frame sequence)) 0) (sym (length-frame sequence))
    ∙ slice-blit_self buffer 0 (frame sequence)

-- The sequence number that was filled in is extracted from a copy of the frame.
pub extract-frame :
    (sequence : ℕ) (buffer : Mem)
    → sequence < 2 ^ 64
    → extract (blit buffer 0 (frame sequence)) ≡ sequence
unfolding extract
extract-frame sequence buffer h =
    (of_bytes-frame sequence _ 0 data_size h (slice-blit_frame sequence buffer)).1

-- For a sequence number below 2 ^ 64, what `main` of the writers fills in is a frame of
-- `data_size` bytes, the same whatever was in the buffer before; and the number comes out again
-- from a copy of it, whatever was in the reader's buffer before.
pub extract-fill :
    (sequence : ℕ) (bytes buffer : Mem)
    → sequence < 2 ^ 64
    → (slice (fill sequence bytes) 0 data_size ≡ frame sequence)
      × (length (frame sequence) ≡ data_size)
      × (extract (blit buffer 0 (slice (fill sequence bytes) 0 data_size)) ≡ sequence)
extract-fill sequence bytes buffer h = (
  slice-fill sequence bytes,
  length-frame sequence,
  ap (λ xs. extract (blit buffer 0 xs)) (slice-fill sequence bytes)
      ∙ extract-frame sequence buffer h,
)
