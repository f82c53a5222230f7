-- ===== src/Cache/Laws.antt =====
-- The decision on huge pages asks for what it should.
use native.Mathlib.Nat.{lt-div-mul-add, div-mul-le_self, mul-le-mul_right}
use sim_library_v.Prelude.{
  ℕ, ◌+◌, ◌-◌, ◌*◌, ◌/◌, ◌^◌, ◌≤◌, ◌<◌, ◌≡◌, ◌↔◌, inl, inr, true, some, arith, add64, sub64, leb,
  Bool-cases,
}
use sim_library_v.Cache.{HugePagesInfo, should_use_huge_pages}

-- `n` bytes fit `f` pages exactly if their number of pages, rounded up, is at most `f`.
pages_lem : (n p f : ℕ) → 0 < p → ((n + p - 1) / p ≤ f) ↔ (n ≤ f * p)
pages_lem n p f h = (
  λ fits. omega (arith, up, mul-le-mul_right {m = (n + p - 1) / p} {n = f} p fits),
  λ room. elim (Bool-cases (leb ((n + p - 1) / p) f)) [
    | inl le ↦ ground arith
    | inr gt ↦
        let more : f + 1 ≤ (n + p - 1) / p = ground arith in
        absurd (omega (arith, room, up, mul-le-mul_right {m = f + 1} {n = (n + p - 1) / p} p more))
  ],
)
  where
    up : (n ≤ (n + p - 1) / p * p) × ((n + p - 1) / p * p < n + p)
    up = (
      omega (arith, lt-div-mul-add {a = n + p - 1} {b = p} h),
      omega (arith, div-mul-le_self (n + p - 1) p),
    )

-- For a positive page size, and a size that with it fits 64 bits, the decision is for huge pages
-- exactly if the size is at least 1 MB, huge pages are usable, and the free ones hold the size.
pub should_use_huge_pages_lem :
    (hp : HugePagesInfo) (size : ℕ)
    → 0 < hp.page_size
    → size + hp.page_size < 2 ^ 64
    → (should_use_huge_pages hp size ≡ some true)
      ↔ ((1024 * 1024 ≤ size) × (hp.usable ≡ true) × (size ≤ hp.free * hp.page_size))
unfolding should_use_huge_pages
should_use_huge_pages_lem hp size h fits =
    let wide : sub64 (add64 size hp.page_size) 1 ≡ size + hp.page_size - 1 = omega arith in
    let (holds, needs) = pages_lem size hp.page_size hp.free h in
    (ground (arith, wide, holds), ground (arith, wide, needs))
