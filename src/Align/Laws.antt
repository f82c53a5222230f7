-- ===== src/Align/Laws.antt =====
-- The three roundings give the least multiple of the alignment that holds the size.
use native.Mathlib.Nat.{one-le-pow, mul-mod_left, lt-div-mul-add, div-mul-le_self}
use sim_library_v.Prelude.{
  ℕ, ◌+◌, ◌-◌, ◌*◌, ◌/◌, ◌%◌, ◌^◌, ◌≤◌, ◌<◌, ◌≡◌, sub64, add64, not64, arith,
}
use sim_library_v.Bits.{bit_and_high}
use sim_library_v.Align.{align_up, align_to_cache_line, align_to_huge_page, cache_line, huge_page}

-- `r` is the least multiple of `a` that is at least `v`.
pub record IsRoundUp (v a r : ℕ) : Type 0 where
  pub multiple : r % a ≡ 0
  pub covers : v ≤ r
  pub least : r < v + a

pub IsRoundUp-div : (v a : ℕ) → 0 < a → IsRoundUp v a ((v + a - 1) / a * a)
IsRoundUp-div v a h = record {
  multiple = mul-mod_left ((v + a - 1) / a) a;
  covers = omega (arith, lt-div-mul-add {a = v + a - 1} {b = a} h);
  least = omega (arith, div-mul-le_self (v + a - 1) a);
}

pub align_up-eq-div :
    (v k : ℕ) → k < 64 → v + 2 ^ k ≤ 2 ^ 64 → align_up v (2 ^ k) ≡ (v + 2 ^ k - 1) / 2 ^ k * 2 ^ k
unfolding align_up
align_up-eq-div v k hk h =
    let total : sub64 (add64 v (2 ^ k)) 1 ≡ v + 2 ^ k - 1 = omega (arith, one-le-pow k 2) in
    let mask : not64 (sub64 (2 ^ k) 1) ≡ 2 ^ 64 - 2 ^ k = omega (arith, one-le-pow k 2) in
    rw (total, mask)
      (bit_and_high 64 k (v + 2 ^ k - 1) (omega arith) (omega (arith, one-le-pow k 2)))

-- For an alignment that is a power of two below 2^64 `alignUp`, a bit mask, gives the least
-- multiple that is not below the size, if the sum of both fits 64 bits.
pub align_up-IsRoundUp :
    (v k : ℕ) → k < 64 → v + 2 ^ k ≤ 2 ^ 64 → IsRoundUp v (2 ^ k) (align_up v (2 ^ k))
align_up-IsRoundUp v k hk h =
    rw (align_up-eq-div v k hk h) (IsRoundUp-div v (2 ^ k) (one-le-pow k 2 (omega arith)))

pub align_to_cache_line-IsRoundUp :
    (size : ℕ) → size + cache_line ≤ 2 ^ 64 → IsRoundUp size cache_line (align_to_cache_line size)
unfolding align_to_cache_line
align_to_cache_line-IsRoundUp size h = omega arith

pub align_to_huge_page-IsRoundUp :
    (size : ℕ) → size + huge_page ≤ 2 ^ 64 → IsRoundUp size huge_page (align_to_huge_page size)
unfolding align_to_huge_page
align_to_huge_page-IsRoundUp size h = omega arith

-- The mask of `alignUp` and the division of `alignToCacheLine` agree, if the sum fits 64 bits.
pub align_up-eq-align_to_cache_line :
    (size : ℕ) → size + cache_line ≤ 2 ^ 64 → align_up size cache_line ≡ align_to_cache_line size
unfolding align_to_cache_line
align_up-eq-align_to_cache_line size h = omega (arith, align_up-eq-div size 6)
