-- ===== src/Sahm/Ring.antt =====
-- The ring buffer of a SAHM reader: `RingBufferHeader` and `RingSlot` of include/sahm.hpp, in an
-- object that the reader creates and the writer maps.
use sim_library_v.Prelude.{
  ℕ, ◌+◌, ◌%◌, Option, none, some, List, length, add32, add64, mul64, leb, ◌==◌, ◌&&◌, not,
  if◌then◌else◌,
}
use Prim.Native.Nat.{min}
use sim_library_v.Prelude.Int.{ℤ}
use sim_library_v.Memory.{Mem, blit, take_from, ◌>>=◌}

pub record RingHeader : Type 0 where
  pub magic : ℕ
  pub ring_size : ℕ
  pub slot_data_size : ℕ
  pub slot_total_size : ℕ
  pub write_idx : ℕ
  pub total_writes : ℕ

-- The fields in front of a slot's data.
pub record Slot : Type 0 where
  pub sequence : ℕ
  pub timestamp_ns : ℤ
  pub data_size : ℕ

-- `DIRECT_MAGIC`
abbrev pub direct_magic : ℕ
direct_magic = 0xD1EC7002

-- `sizeof(RingBufferHeader)` and `sizeof(RingSlot)`: one cache line each.
abbrev pub sizeof_header : ℕ
sizeof_header = 64

abbrev pub sizeof_slot : ℕ
sizeof_slot = 64

-- The object: its size in bytes, the header, the slots by the offset of their first byte, and the
-- bytes of their data.
pub record Ring : Type 0 where
  pub size : ℕ
  pub header : RingHeader
  pub slots : ℕ → Slot
  pub mem : Mem

-- `slots_base_ + idx * slot_total`, from the start of the object
unfoldable pub slot_ptr : ℕ → ℕ → ℕ
slot_ptr slot_total idx = add64 sizeof_header (mul64 idx slot_total)

-- `*p = v`
abbrev pub set_slot : ℕ → Slot → (ℕ → Slot) → ℕ → Slot
set_slot p v slots o = if o == p then v else slots o

-- The bytes that the writer copies into the slot at `p` of a mapping of `limit` bytes: `none`
-- where they leave the slot, and with it overwrite the next slot, or run past the end of the
-- object.
unfoldable pub copy_to_slot : ℕ → ℕ → List ℕ → Ring → Option Mem
copy_to_slot limit p src r =
    if leb (sizeof_slot + length src) r.header.slot_total_size
      && leb (p + r.header.slot_total_size) (min limit r.size)
    then some (blit r.mem (p + sizeof_slot) src)
    else none

-- `(idx + 1) % ring_size` on `uint32_t`: `none` is the division by zero.
unfoldable pub next_idx : ℕ → ℕ → Option ℕ
next_idx idx ring_size = if ring_size == 0 then none else some (add32 idx 1 % ring_size)

-- The metadata of the current slot, and the advance to the next: the second half of the loop in
-- `write`, and the loop of `commitSlots`.
unfoldable pub advance : ℤ → ℕ → ℕ → ℕ → Ring → Option Ring
unfolding next_idx
advance timestamp ring_size limit size r =
    let p = slot_ptr r.header.slot_total_size r.header.write_idx in
    let seq = add64 r.header.total_writes 1 in
    if not (leb (p + sizeof_slot) (min limit r.size)) then none else do
      next ← next_idx r.header.write_idx ring_size
      some (record r {
        slots =
            set_slot p (record { sequence = seq; timestamp_ns = timestamp; data_size = size })
              r.slots;
        header = record r.header { write_idx = next; total_writes = seq };
      })

-- The body of the writer's loop in `write`.
unfoldable pub push : ℤ → ℕ → ℕ → List ℕ → ℕ → Ring → Option Ring
unfolding copy_to_slot advance
push timestamp ring_size limit bytes size r = do
  source ← take_from bytes size
  mem ← copy_to_slot limit (slot_ptr r.header.slot_total_size r.header.write_idx) source r
  advance timestamp ring_size limit size (record r { mem = mem })
