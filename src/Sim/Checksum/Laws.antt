-- ===== src/Sim/Checksum/Laws.antt =====
-- `calculateChecksum` of src/sim.cpp: its register, its rounds and one byte of a message.
use sim_library_v.Prelude.{
  ℕ, zero, suc, ◌+◌, ◌*◌, ◌/◌, ◌%◌, ◌^◌, ◌<◌, bit_xor, ◌≡◌, ◌⊎◌, inl, inr, refl, sym, ap, ◌∙◌, List,
  [], ◌∷◌, ◌++◌, arith,
}
use native.Mathlib.Nat.{div-one, div-div-eq-div-mul, pow-succ'}
use sim_library_v.Bits.{bit_xor-half, bit_xor-lt, bit_xor_cancel, bit_xor_comm, bit_and_one}
use sim_library_v.Sim.Checksum.{polynomial, crc_bit, crc_bits, crc_loop, calculate_checksum}

parity : (x : ℕ) → (x % 2 ≡ 0) ⊎ (x % 2 ≡ 1)
parity x = omega arith

-- What is shifted out decides whether the polynomial is added.
mask_cases :
    (crc : ℕ)
    → crc < 2 ^ 32
    → ((crc % 2 ≡ 0) × (crc_bit crc ≡ bit_xor (crc / 2) 0))
      ⊎ ((crc % 2 ≡ 1) × (crc_bit crc ≡ bit_xor (crc / 2) polynomial))
unfolding crc_bit
mask_cases crc h = elim (parity crc) [
  | inl e ↦ inl (e, rw (bit_and_one 32 crc h, e) refl)
  | inr e ↦ inr (e, rw (bit_and_one 32 crc h, e) refl)
]

crc_bit-lt : (crc : ℕ) → crc < 2 ^ 32 → crc_bit crc < 2 ^ 32
crc_bit-lt crc h = elim (mask_cases crc h) [
  | inl (e, f) ↦ rw f (bit_xor-lt 32 (crc / 2) 0 (omega arith) (omega arith))
  | inr (e, f) ↦ rw f (bit_xor-lt 32 (crc / 2) polynomial (omega arith) (omega arith))
]

-- Shifting right is digit-wise.
xor_shift : (k a b : ℕ) → bit_xor a b / 2 ^ k ≡ bit_xor (a / 2 ^ k) (b / 2 ^ k)
xor_shift zero a b = simp div-one
xor_shift (suc k) a b =
    rw (shift (bit_xor a b), shift a, shift b, bit_xor-half) (xor_shift k (a / 2) (b / 2))
  where
    shift : (x : ℕ) → x / 2 ^ suc k ≡ x / 2 / 2 ^ k
    shift x = rw (div-div-eq-div-mul x 2 (2 ^ k), pow-succ' 2 k) refl

-- The top bit of the new register is the bit that was shifted out.
top_bit : (crc : ℕ) → crc < 2 ^ 32 → crc_bit crc / 2 ^ 31 ≡ crc % 2
top_bit crc h = elim (mask_cases crc h) [
  | inl (e, f) ↦ rw (f, xor_shift 31 (crc / 2) 0, small, e) refl
  | inr (e, f) ↦ rw (f, xor_shift 31 (crc / 2) polynomial, small, e) refl
]
  where
    small : crc / 2 / 2 ^ 31 ≡ 0
    small = omega arith

-- The register before a round is the new one without the polynomial, and the bit shifted out.
crc_bit_undo :
    (crc : ℕ) → crc < 2 ^ 32 → 2 * bit_xor (crc_bit crc) (crc % 2 * polynomial) + crc % 2 ≡ crc
crc_bit_undo crc h = elim (mask_cases crc h) [
  | inl (e, f) ↦ rw (f, e, bit_xor_cancel 32 (crc / 2) 0 (omega arith) (omega arith)) (omega arith)
  | inr (e, f) ↦
      rw (f, e, bit_xor_cancel 32 (crc / 2) polynomial (omega arith) (omega arith)) (omega arith)
]

-- A round is reversible.
crc_bit-injective : (a b : ℕ) → a < 2 ^ 32 → b < 2 ^ 32 → crc_bit a ≡ crc_bit b → a ≡ b
crc_bit-injective a b p q e =
    let low : a % 2 ≡ b % 2 = sym (top_bit a p) ∙ ap (λ (r : ℕ). r / 2 ^ 31) e ∙ top_bit b q in
    sym (crc_bit_undo a p) ∙ rw (e, low) (crc_bit_undo b q)

crc_bits-lt : (n crc : ℕ) → crc < 2 ^ 32 → crc_bits n crc < 2 ^ 32
unfolding crc_bits
crc_bits-lt zero crc h = h
crc_bits-lt (suc n) crc h = crc_bits-lt n (crc_bit crc) (crc_bit-lt crc h)

crc_bits-injective : (n a b : ℕ) → a < 2 ^ 32 → b < 2 ^ 32 → crc_bits n a ≡ crc_bits n b → a ≡ b
unfolding crc_bits
crc_bits-injective zero a b p q e = e
crc_bits-injective (suc n) a b p q e =
    crc_bit-injective a b p q
      (crc_bits-injective n (crc_bit a) (crc_bit b) (crc_bit-lt a p) (crc_bit-lt b q) e)

-- Every element of the list is a byte.
abbrev pub AreBytes : List ℕ → Type 0
AreBytes [] = Unit
AreBytes (x ∷ xs) = (x < 256) × AreBytes xs

-- A byte goes into the register by `^`.
feed-lt : (crc byte : ℕ) → crc < 2 ^ 32 → byte < 256 → bit_xor crc byte < 2 ^ 32
feed-lt crc byte p q = bit_xor-lt 32 crc byte p (omega arith)

crc_loop-lt : (crc : ℕ) (xs : List ℕ) → crc < 2 ^ 32 → AreBytes xs → crc_loop crc xs < 2 ^ 32
unfolding crc_loop
crc_loop-lt crc [] p h = p
crc_loop-lt crc (x ∷ xs) p h =
    crc_loop-lt (crc_bits 8 (bit_xor crc x)) xs (crc_bits-lt 8 _ (feed-lt crc x p h.0)) h.1

-- Two registers that the same bytes take to one value were one value.
crc_loop-injective :
    (xs : List ℕ) (a b : ℕ)
    → a < 2 ^ 32
    → b < 2 ^ 32
    → AreBytes xs
    → crc_loop a xs ≡ crc_loop b xs
    → a ≡ b
unfolding crc_loop
crc_loop-injective [] a b p q h e = e
crc_loop-injective (x ∷ xs) a b p q h e =
    let fed_a = feed-lt a x p h.0 in
    let fed_b = feed-lt b x q h.0 in
    let same : bit_xor a x ≡ bit_xor b x =
      crc_bits-injective 8 _ _ fed_a fed_b
        (crc_loop-injective xs _ _ (crc_bits-lt 8 _ fed_a) (crc_bits-lt 8 _ fed_b) h.1 e) in
    sym (bit_xor_cancel 32 a x p (omega arith)) ∙ rw same (bit_xor_cancel 32 b x q (omega arith))

-- Two messages that agree except in one byte reach different registers.
crc_loop_byte :
    (xs ys : List ℕ) (crc x y : ℕ)
    → crc < 2 ^ 32
    → AreBytes xs
    → AreBytes ys
    → x < 256
    → y < 256
    → crc_loop crc (xs ++ x ∷ ys) ≡ crc_loop crc (xs ++ y ∷ ys)
    → x ≡ y
unfolding crc_loop
crc_loop_byte [] ys crc x y p hx hy bx by e =
    sym (bit_xor_cancel 32 x crc (omega arith) p)
    ∙ rw (bit_xor_comm 32 x crc (omega arith) p, same, bit_xor_comm 32 crc y p (omega arith))
        (bit_xor_cancel 32 y crc (omega arith) p)
  where
    same : bit_xor crc x ≡ bit_xor crc y
    same = crc_bits-injective 8 _ _ (feed-lt crc x p bx) (feed-lt crc y p by) (
        crc_loop-injective ys _ _ (crc_bits-lt 8 _ (feed-lt crc x p bx))
          (crc_bits-lt 8 _ (feed-lt crc y p by)) hy e)
crc_loop_byte (z ∷ xs) ys crc x y p hx hy bx by e =
    crc_loop_byte xs ys (crc_bits 8 (bit_xor crc z)) x y (crc_bits-lt 8 _ (feed-lt crc z p hx.0))
      hx.1 hy bx by e

AreBytes-append : (xs ys : List ℕ) → AreBytes xs → AreBytes ys → AreBytes (xs ++ ys)
AreBytes-append [] ys hx hy = hy
AreBytes-append (x ∷ xs) ys hx hy = (hx.0, AreBytes-append xs ys hx.1 hy)

-- Two messages of bytes that agree, except perhaps in one byte, and have the same checksum, agree
-- in that byte too.
pub calculate_checksum_byte :
    (xs ys : List ℕ) (x y : ℕ)
    → AreBytes xs
    → AreBytes ys
    → x < 256
    → y < 256
    → calculate_checksum (xs ++ x ∷ ys) ≡ calculate_checksum (xs ++ y ∷ ys)
    → x ≡ y
unfolding calculate_checksum
calculate_checksum_byte xs ys x y hx hy bx by e =
    crc_loop_byte xs ys 0xFFFFFFFF x y (omega arith) hx hy bx by
      (omega (arith, in_range x bx, in_range y by))
  where
    in_range : (z : ℕ) → z < 256 → crc_loop 0xFFFFFFFF (xs ++ z ∷ ys) < 2 ^ 32
    in_range z bz =
        crc_loop-lt 0xFFFFFFFF (xs ++ z ∷ ys) (omega arith)
          (AreBytes-append xs (z ∷ ys) hx (bz, hy))
