-- ===== src/Memory/Laws.antt =====
-- What is written is read back, and what lies apart is left alone.
use sim_library_v.Prelude.{
  ℕ, zero, suc, ◌+◌, ◌≤◌, ◌<◌, ◌≡◌, ◌⊎◌, refl, ◌∙◌, List, [], ◌∷◌, length, ap, arith,
}
use mathlib.Core.Path.{ap₂}
use sim_library_v.Memory.{Mem, blit, slice}

-- Outside the bytes written, memory is as before.
pub blit_outside :
    (m : Mem) (o : ℕ) (xs : List ℕ) (a : ℕ) → (a < o) ⊎ (o + length xs ≤ a) → blit m o xs a ≡ m a
unfolding blit
blit_outside m o [] a h = refl
blit_outside m o (x ∷ xs) a h = ground (arith, blit_outside m (o + 1) xs a)

pub length-slice : (m : Mem) (o n : ℕ) → length (slice m o n) ≡ n
unfolding slice
length-slice m o zero = refl
length-slice m o (suc n) = ap suc (length-slice m (o + 1) n)

-- A slice depends on its bytes alone.
pub slice_ext :
    (m m' : Mem) (o n : ℕ) → ((a : ℕ) → o ≤ a → a < o + n → m a ≡ m' a) → slice m o n ≡ slice m' o n
unfolding slice
slice_ext m m' o zero h = refl
slice_ext m m' o (suc n) h =
    ap₂ ◌∷◌ (h o (omega arith) (omega arith))
      (slice_ext m m' (o + 1) n (λ a p q. h a (omega arith) (omega arith)))

-- A slice apart from the bytes written is as before.
pub slice-blit_apart :
    (m : Mem) (o : ℕ) (xs : List ℕ) (p n : ℕ)
    → (p + n ≤ o) ⊎ (o + length xs ≤ p)
    → slice (blit m o xs) p n ≡ slice m p n
slice-blit_apart m o xs p n h =
    slice_ext (blit m o xs) m p n (λ a l u. blit_outside m o xs a (ground arith))

-- The bytes written are read back.
pub slice-blit_self : (m : Mem) (o : ℕ) (xs : List ℕ) → slice (blit m o xs) o (length xs) ≡ xs
unfolding slice blit
slice-blit_self m o [] = refl
slice-blit_self m o (x ∷ xs) = ap₂ ◌∷◌ (ground arith) (
    slice_ext (blit m o (x ∷ xs)) (blit m (o + 1) xs) (o + 1) (length xs) (λ a p q. ground arith)
    ∙ slice-blit_self m (o + 1) xs)
