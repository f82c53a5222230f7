-- ===== src/Transport/Wait.antt =====
-- Waiting for a frame: the two loops around `read`, the one that tests the clock before each
-- attempt and the one that tests it after, as recursion on fuel, and when they end.
use sim_library_v.Prelude.{ℕ, zero, suc, Bool, true, false, Option, none, some, List}

-- How a loop ends: undefined behaviour, still going when the fuel ran out, or a return, with the
-- payload, or `none` for false.
pub data Outcome (R : Type 0) : Type 0 where
  fault : Outcome R
  running : R → Outcome R
  returned : Option (List ℕ) → R → Outcome R

-- `attempt k` is the call of `read` in round `k`; `expired k` is what the clock says in it.
module _ {R : Type 0} (attempt : ℕ → R → Option (Option (List ℕ) × R)) (expired : ℕ → Bool) where
  unfoldable pub test_first : ℕ → ℕ → R → Outcome R
  test_first zero k r = running r
  test_first (suc fuel) k r = elim (expired k) [
    | true ↦ returned none r
    | false ↦ elim (attempt k r) [
      | none ↦ fault
      | some a ↦ elim (a.0) [
        | some bytes ↦ returned (some bytes) a.1
        | none ↦ test_first fuel (suc k) a.1
      ]
    ]
  ]

  unfoldable pub read_first : ℕ → ℕ → R → Outcome R
  read_first zero k r = running r
  read_first (suc fuel) k r = elim (attempt k r) [
    | none ↦ fault
    | some a ↦ elim (a.0) [
      | some bytes ↦ returned (some bytes) a.1
      | none ↦ elim (expired k) [ true ↦ returned none a.1 | false ↦ read_first fuel (suc k) a.1 ]
    ]
  ]
