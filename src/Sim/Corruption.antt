-- ===== src/Sim/Corruption.antt =====
-- The reader's check of a checksum, `read` of src/sim.cpp, on bytes that another write or an error
-- has changed.
use sim_library_v.Prelude.{
  ℕ, ◌<◌, ◌≡◌, ◌≢◌, inl, inr, sym, true, List, ◌∷◌, ◌++◌, arith, ◌==◌, Bool-cases,
}
use sim_library_v.Sim.Checksum.{checksum_disabled, calculate_checksum}
use sim_library_v.Sim.Checksum.Laws.{AreBytes, calculate_checksum_byte}
use sim_library_v.Sim.Reader.{checksum_valid}

-- Where checksums are enabled, the frame was written with its checksum, and one of its bytes, at
-- any place, reaches the reader as another byte: the check accepts the bytes exactly if the
-- checksum of the frame is 0xFFFFFFFF, the value that stands for a disabled checksum.
pub checksum_valid_detects :
    (xs ys : List ℕ) (x y : ℕ)
    → AreBytes xs
    → AreBytes ys
    → x < 256
    → y < 256
    → x ≢ y
    → checksum_valid true (calculate_checksum (xs ++ x ∷ ys)) (xs ++ y ∷ ys)
      ≡ (calculate_checksum (xs ++ x ∷ ys) == checksum_disabled)
unfolding checksum_valid
checksum_valid_detects xs ys x y hx hy bx by changed =
    elim (Bool-cases (calculate_checksum (xs ++ y ∷ ys) == calculate_checksum (xs ++ x ∷ ys))) [
      | inl same ↦
          absurd
            (changed (sym (calculate_checksum_byte xs ys y x hx hy by bx (ground (arith, same)))))
      | inr differ ↦ ground (arith, differ)
    ]
