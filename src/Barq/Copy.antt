-- ===== src/Barq/Copy.antt =====
-- `ntMemcpy` of src/barq.cpp: a copy in chunks of 16 bytes and a remainder.
pub mod Laws
use sim_library_v.Prelude.{
  ℕ, zero, suc, ◌+◌, ◌*◌, ◌/◌, ◌%◌, Option, none, some, List, length, take, drop, ltb, leb, ◌==◌,
  ◌||◌, ◌&&◌, if◌then◌else◌,
}
use sim_library_v.Memory.{Mem, Pointer, blit}

-- The loop over the chunks, from chunk `i` on with `left` chunks to go.
pub stream_chunks : ℕ → ℕ → Mem → ℕ → List ℕ → Mem
stream_chunks zero i m dst src = m
stream_chunks (suc left) i m dst src =
    stream_chunks left (i + 1) (blit m (dst + i * 16) (take 16 (drop (i * 16) src))) dst src

-- The memory after `ntMemcpy` of all of `src`.
unfoldable pub nt_memcpy : Mem → ℕ → List ℕ → Mem
unfolding stream_chunks
nt_memcpy m dst src =
    let chunks = length src / 16 in
    let remainder = length src % 16 in
    let streamed = stream_chunks chunks 0 m dst src in
    if ltb 0 remainder
    then blit streamed (dst + chunks * 16) (take remainder (drop (chunks * 16) src))
    else streamed

-- `ntMemcpy` into a mapping of `limit` bytes. The streaming store wants a destination that is a
-- multiple of 16; mappings start at multiples of the page size.
abbrev pub nt_copy_in : ℕ → Pointer → List ℕ → Mem → Option Mem
nt_copy_in limit none src m = none
nt_copy_in limit (some o) src m =
    if leb (o + length src) limit && (ltb (length src) 16 || o % 16 == 0)
    then some (nt_memcpy m o src)
    else none
