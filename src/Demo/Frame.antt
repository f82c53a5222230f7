-- ===== src/Demo/Frame.antt =====
-- The frames of the programs in examples/: a sequence number, then bytes that depend on it.
use sim_library_v.Prelude.{
  ℕ, zero, suc, ◌+◌, ◌-◌, ◌*◌, ◌/◌, ◌%◌, ◌^◌, ◌<◌, ◌≤◌, ◌≡◌, ◌⊎◌, inl, inr, refl, sym, List, [],
  ◌∷◌, length, arith, add64, ltb, ap, ◌∙◌, Bool-cases, ◌==◌, if◌then◌else◌,
}
use native.Mathlib.Nat.{pow-suc}
use sim_library_v.Memory.{Mem, blit, slice}
use sim_library_v.Memory.Laws.{slice_ext, blit_outside, slice-blit_self, length-slice}
pub mod Laws

-- `DATA_SIZE` of the four programs.
abbrev pub data_size : ℕ
data_size = 1024

-- The first `k` bytes of a number in memory, the lowest first.
abbrev pub to_bytes : ℕ → ℕ → List ℕ
to_bytes zero n = []
to_bytes (suc k) n = n % 256 ∷ to_bytes k (n / 256)

abbrev pub of_bytes : List ℕ → ℕ
of_bytes [] = 0
of_bytes (x ∷ xs) = x + 256 * of_bytes xs

-- The loop over the bytes after the number: `left` of them from `i` on.
abbrev pub fill_rest : ℕ → ℕ → ℕ → Mem → Mem
fill_rest zero i sequence bytes = bytes
fill_rest (suc left) i sequence bytes =
    fill_rest left (i + 1) sequence (blit bytes i (add64 sequence i % 256 ∷ []))

-- `memset`, `memcpy` of the sequence number, and the loop.
unfoldable pub fill : ℕ → Mem → Mem
fill sequence bytes =
    let cleared : Mem = λ a. if ltb a data_size then 0 else bytes a in
    fill_rest (data_size - 8) 8 sequence (blit cleared 0 (to_bytes 8 sequence))

-- The sequence number at the start of a frame.
unfoldable pub extract : Mem → ℕ
extract buffer = of_bytes (slice buffer 0 8)

-- The frame with a number, whatever was in the buffer before.
unfoldable pub frame : ℕ → List ℕ
frame sequence = slice (fill sequence (λ a. 0)) 0 data_size
