-- ===== src/Sahm/Reader.antt =====
-- `DirectReader` of src/sahm.cpp. A method takes the object, the control channel and the ring
-- buffer and returns what it changes; `none` is undefined behaviour. Pointers into the ring
-- buffer are offsets.
mod State
mod Setup
unfoldable pub use State.*
unfoldable pub use Setup.*
use sim_library_v.Prelude.{
  ℕ, ◌+◌, ◌%◌, Bool, false, Option, none, some, List, [], ◌∷◌, ◌++◌, ◌||◌, not, leb, ◌==◌, add32,
  sub32, add64, mul64, if◌then◌else◌,
}
use sim_library_v.Prelude.Int.{ℤ, pos}
use sim_library_v.Heartbeat.{is_recent}
use sim_library_v.Memory.{◌>>=◌, Pointer}
use sim_library_v.Os.{is_null, Call, shm_unlink, close, close_if, munmap_if}
use sim_library_v.Sahm.Ring.{Ring, sizeof_slot}
use sim_library_v.Sahm.Control.{Control, release, sizeof_control}

-- The destructor: the control channel after it, and its calls. An initialized reader has both
-- mappings.
unfoldable pub drop : Reader → Control → Control × List Call
drop r c = if not r.is_initialized then (c, []) else (
  elim r.my_slot_idx [
    | none ↦ c
    | some i ↦
        if is_null r.header
        then c
        else record c { entries = release i c.entries; num_readers = sub32 c.num_readers 1 }
  ],
  munmap_if r.buffer_ptr r.buffer_size
      ++ (elim r.buffer_fd [ none ↦ [] | some fd ↦ close fd ∷ shm_unlink r.my_shm_name ∷ [] ]
          ++ (munmap_if r.control_ptr sizeof_control ++ close_if r.control_fd)),
)

-- A slot's pointer, or `none` for `nullptr`.
unfoldable pub get_slot_ptr : Reader → ℕ → Pointer
get_slot_ptr r idx = if leb r.ring_size idx then none else elim r.slots_base [
  | none ↦ none
  | some base ↦ some (add64 base (mul64 idx r.slot_total_size))
]

-- `(write_idx + ring_size_ - 1) % ring_size_` on `uint32_t`
unfoldable pub latest_idx : ℕ → ℕ → Option ℕ
latest_idx write_idx ring_size =
    if ring_size == 0 then none else some (sub32 (add32 write_idx ring_size) 1 % ring_size)

-- What `getLatest` and `getSlot` hand out.
pub record Found : Type 0 where
  pub pointer : ℕ
  pub size : ℕ

unfoldable pub get_latest : Reader → Ring → Option (Option Found)
unfolding latest_idx get_slot_ptr
get_latest r ring = if not r.is_initialized || ring.header.total_writes == 0 then some none else do
  idx ← latest_idx ring.header.write_idx r.ring_size
  slot ← get_slot_ptr r idx
  some (some (record { pointer = add64 slot sizeof_slot; size = (ring.slots slot).data_size }))

unfoldable pub get_slot : Reader → Ring → ℕ → Option (Option Found)
unfolding get_slot_ptr
get_slot r ring slot_idx =
    if not r.is_initialized || leb r.ring_size slot_idx then some none else do
      slot ← get_slot_ptr r slot_idx
      if (ring.slots slot).sequence == 0
          then some none
          else some (
              some
                (record { pointer = add64 slot sizeof_slot; size = (ring.slots slot).data_size }))

unfoldable pub get_latest_timestamp_ns : Reader → Ring → Option ℤ
unfolding latest_idx get_slot_ptr
get_latest_timestamp_ns r ring = if not r.is_initialized then some (pos 0) else do
  idx ← latest_idx ring.header.write_idx r.ring_size
  slot ← get_slot_ptr r idx
  some (ring.slots slot).timestamp_ns

unfoldable pub get_slot_timestamp_ns : Reader → Ring → ℕ → Option ℤ
unfolding get_slot_ptr
get_slot_timestamp_ns r ring slot_idx =
    if leb r.ring_size slot_idx
    then some (pos 0)
    else do slot ← get_slot_ptr r slot_idx; some (ring.slots slot).timestamp_ns

unfoldable pub get_total_writes : Reader → Ring → ℕ
get_total_writes r ring = if is_null r.ring_header then 0 else ring.header.total_writes

unfoldable pub get_write_index : Reader → Ring → ℕ
get_write_index r ring = if is_null r.ring_header then 0 else ring.header.write_idx

unfoldable pub get_slot_sequence : Reader → Ring → ℕ → Option ℕ
unfolding get_slot_ptr
get_slot_sequence r ring slot_idx =
    if leb r.ring_size slot_idx
    then some 0
    else do slot ← get_slot_ptr r slot_idx; some (ring.slots slot).sequence

-- The test reads `header_`, which a failed `init` leaves set, whether or not the mapping is still
-- there.
unfoldable pub is_writer_alive : ℤ → Reader → Control → ℕ → Bool
unfolding is_recent
is_writer_alive now r c timeout_ms =
    if is_null r.header then false else is_recent now c.writer_heartbeat_ns timeout_ms
