-- ===== src/Bits/Step.antt =====
-- The native `&` and `^` by their lowest digit. The library defines them by a loop over binary
-- digits that is given as many rounds as the first number; spare rounds make no difference.
use Prim.Native.Nat.{min, differ, digits, bitwise, bit_and-bitwise, bit_xor-bitwise}
use sim_library_v.Prelude.{
  ℕ, zero, suc, ◌+◌, ◌-◌, ◌*◌, ◌/◌, ◌%◌, ◌≤◌, bit_and, bit_xor, ◌≡◌, refl, sym, ap, ◌∙◌, arith,
}

module _ (rest : ℕ → ℕ) (digit : ℕ → ℕ → ℕ) where
  -- Nothing is left of the first number: the loop ends at once.
  digits-zero : (rounds y : ℕ) → digits rest digit rounds 0 y ≡ rest y
  digits-zero zero y = refl
  digits-zero (suc rounds) y = refl

  digits_spare :
      (spare rounds x y : ℕ)
      → x ≤ rounds
      → digits rest digit (rounds + spare) x y ≡ digits rest digit rounds x y
  digits_spare spare rounds zero y enough =
      digits-zero (rounds + spare) y ∙ sym (digits-zero rounds y)
  digits_spare spare zero (suc x) y enough = absurd (omega arith)
  digits_spare spare (suc rounds) (suc x) y enough =
      let unroll : suc rounds + spare ≡ suc (rounds + spare) = omega arith in
      ap (λ n. digits rest digit n (suc x) y) unroll
      ∙ ap (λ high. high * 2 + digit (suc x % 2) (y % 2))
          (digits_spare spare rounds (suc x / 2) (y / 2) (omega arith))

  -- One round of the loop.
  bitwise_round :
      (x y : ℕ)
      → bitwise rest digit (suc x) y
        ≡ bitwise rest digit (suc x / 2) (y / 2) * 2 + digit (suc x % 2) (y % 2)
  bitwise_round x y =
      let half : ℕ = suc x / 2 in
      let split : half + (x - half) ≡ x = omega arith in
      ap (λ high. high * 2 + digit (suc x % 2) (y % 2))
        (sym (ap (λ n. digits rest digit n half (y / 2)) split)
          ∙ digits_spare (x - half) half half (y / 2) (omega arith))

pub bit_and_digit : (x y : ℕ) → bit_and x y ≡ bit_and (x / 2) (y / 2) * 2 + min (x % 2) (y % 2)
bit_and_digit zero y = simp bit_and-bitwise (omega arith)
bit_and_digit (suc x) y = simp bit_and-bitwise (bitwise_round (λ y. 0) min x y)

pub bit_xor_digit : (x y : ℕ) → bit_xor x y ≡ bit_xor (x / 2) (y / 2) * 2 + differ (x % 2) (y % 2)
bit_xor_digit zero y = simp bit_xor-bitwise (omega arith)
bit_xor_digit (suc x) y = simp bit_xor-bitwise (bitwise_round (λ y. y) differ x y)
