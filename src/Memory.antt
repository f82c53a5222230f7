-- ===== src/Memory.antt =====
-- The memory of a shared segment as the transports use it: bytes behind pointers, arrays of two,
-- and a fault wherever the C++ would dereference a null pointer or leave an array or the mapping.
pub mod Laws
pub mod Stores
use sim_library_v.Prelude.{
  ℕ, zero, suc, ◌+◌, Bool, true, false, Option, none, some, List, [], ◌∷◌, length, take, ltb, leb,
  ◌==◌, if◌then◌else◌,
}

-- The result of code that may run into undefined behaviour: `none` is the fault.
infixl 5 ◌>>=◌
abbrev pub ◌>>=◌ {ℓ κ} : {A : Type ℓ} {B : Type κ} → Option A → (A → Option B) → Option B
none >>= f = none
some a >>= f = f a

-- The bytes of the mapping, by their offset from its start.
abbrev pub Mem : Type 0
Mem = ℕ → ℕ

-- A pointer into the mapping: its offset, or `none` for `nullptr`.
abbrev pub Pointer : Type 0
Pointer = Option ℕ

-- `T a[2]`
pub record Two {ℓ} (A : Type ℓ) : Type ℓ where
  pub at_0 : A
  pub at_1 : A

module _ {ℓ} {A : Type ℓ} where
  -- `a[i]` as a value
  abbrev pub pick : ℕ → Two A → Option A
  pick zero a = some a.at_0
  pick (suc zero) a = some a.at_1
  pick (suc (suc i)) a = none

  -- `a[i] = v`
  abbrev pub put : ℕ → A → Two A → Option (Two A)
  put zero v a = some (record a { at_0 = v })
  put (suc zero) v a = some (record a { at_1 = v })
  put (suc (suc i)) v a = none

-- Memory after the bytes `xs` are written from offset `o` on.
unfoldable pub blit : Mem → ℕ → List ℕ → Mem
blit m o [] a = m a
blit m o (x ∷ xs) a = if a == o then x else blit m (o + 1) xs a

-- The `n` bytes from offset `o` on.
unfoldable pub slice : Mem → ℕ → ℕ → List ℕ
slice m o zero = []
slice m o (suc n) = m o ∷ slice m (o + 1) n

-- `memcpy(p, xs, length xs)` into a mapping of `limit` bytes.
abbrev pub copy_in : ℕ → Pointer → List ℕ → Mem → Option Mem
copy_in limit none xs m = none
copy_in limit (some o) xs m = if leb (o + length xs) limit then some (blit m o xs) else none

-- The `n` bytes at `p` in a mapping of `limit` bytes.
abbrev pub copy_out : ℕ → Pointer → ℕ → Mem → Option (List ℕ)
copy_out limit none n m = none
copy_out limit (some o) n m = if leb (o + n) limit then some (slice m o n) else none

-- The first `n` bytes of an array of the caller.
abbrev pub take_from : List ℕ → ℕ → Option (List ℕ)
take_from src n = if leb n (length src) then some (take n src) else none

-- A shared-memory object: its size in bytes, its header, and all its bytes. The header's own
-- bytes are those below the payload; they are kept in `header`.
pub record Shm (H : Type 0) : Type 0 where
  pub size : ℕ
  pub header : H
  pub mem : Mem
