-- ===== src/Sahm/Writer.antt =====
-- `DirectWriter` of src/sahm.cpp. A method takes the object, the control channel and the ring
-- buffers and returns what it changes; `none` is undefined behaviour. The ring buffers are
-- objects of the system, by number.
mod State
mod Setup
mod Discover
unfoldable pub use State.*
unfoldable pub use Setup.*
unfoldable pub use Discover.*
use sim_library_v.Memory.{◌>>=◌}
use sim_library_v.Prelude.{
  ℕ, ◌+◌, false, Option, none, some, List, [], ◌∷◌, ◌++◌, ◌||◌, not, ltb, ◌==◌, add64,
  if◌then◌else◌,
}
use sim_library_v.Prelude.Int.{ℤ}
use sim_library_v.Os.{is_null, Call, shm_unlink, close, close_if, munmap_if}
use sim_library_v.Sahm.Ring.{Ring, sizeof_slot, slot_ptr, push, advance}
use sim_library_v.Sahm.Control.{Control}

-- The object `o` is `r` now.
unfoldable pub put_ring : ℕ → Ring → Rings → Rings
put_ring o r rings x = if x == o then r else rings x

-- One round of the loop in `write`.
unfoldable pub push_to : ℤ → List ℕ → ℕ → Info → Rings → Option (ℕ × Rings)
unfolding put_ring
push_to timestamp bytes size i rings = if not i.valid then some (0, rings) else do
  r ← push timestamp i.ring_size i.size bytes size (rings i.object)
  some (1, put_ring i.object r rings)

unfoldable pub push_all : ℤ → List ℕ → ℕ → List Info → Rings → Option (ℕ × Rings)
unfolding push_to
push_all timestamp bytes size [] rings = some (0, rings)
push_all timestamp bytes size (i ∷ is) rings = do
  (k, rings') ← push_to timestamp bytes size i rings
  (written, rings'') ← push_all timestamp bytes size is rings'
  some (k + written, rings'')

-- What `write` returns and leaves.
pub record Written : Type 0 where
  pub count : ℕ
  pub writer : Writer
  pub control : Control
  pub rings : Rings
  pub calls : List Call

unfoldable pub write : ℤ → List Find → Writer → Control → Rings → List ℕ → ℕ → Option Written
unfolding discover_readers push_all
write now fs w c rings bytes size =
    if not w.is_initialized || ltb w.max_slot_size size
    then some (record { count = 0; writer = w; control = c; rings = rings; calls = [] })
    else let (w', calls) = discover_readers fs w c in
      do
        (count, rings') ← push_all now bytes size w'.readers rings
        some (record {
          count = count;
          writer = w';
          control = record c { writer_heartbeat_ns = now };
          rings = rings';
          calls = calls;
        })

-- The pointers that `getWriteSlots` collects: the object and the offset of each slot's data.
unfoldable pub write_slots : List Info → Rings → List (ℕ × ℕ)
write_slots [] rings = []
write_slots (i ∷ is) rings =
    let r = rings i.object in
    let rest = write_slots is rings in
    if not i.valid
    then rest
    else (i.object, add64 (slot_ptr r.header.slot_total_size r.header.write_idx) sizeof_slot) ∷ rest

unfoldable pub get_write_slots :
    List Find → Writer → Control → Rings → List (ℕ × ℕ) × Writer × List Call
unfolding discover_readers write_slots
get_write_slots fs w c rings =
    if not w.is_initialized
    then ([], w, [])
    else let (w', calls) = discover_readers fs w c in (write_slots w'.readers rings, w', calls)

-- One round of the loop in `commitSlots`.
unfoldable pub commit_to : ℤ → ℕ → Info → Rings → Option (ℕ × Rings)
unfolding put_ring
commit_to timestamp size i rings = if not i.valid then some (0, rings) else do
  r ← advance timestamp i.ring_size i.size size (rings i.object)
  some (1, put_ring i.object r rings)

unfoldable pub commit_all : ℤ → ℕ → List Info → Rings → Option (ℕ × Rings)
unfolding commit_to
commit_all timestamp size [] rings = some (0, rings)
commit_all timestamp size (i ∷ is) rings = do
  (k, rings') ← commit_to timestamp size i rings
  (committed, rings'') ← commit_all timestamp size is rings'
  some (k + committed, rings'')

unfoldable pub commit_slots : ℤ → Writer → Control → Rings → ℕ → Option Written
unfolding commit_all
commit_slots now w c rings size =
    if not w.is_initialized || ltb w.max_slot_size size
    then some (record { count = 0; writer = w; control = c; rings = rings; calls = [] })
    else do
      (count, rings') ← commit_all now size w.readers rings
      some (record {
        count = count;
        writer = w;
        control = record c { writer_heartbeat_ns = now };
        rings = rings';
        calls = [];
      })

-- The count reads `header_`, which `destroy` leaves set, whether or not the mapping is still
-- there.
unfoldable pub get_reader_count : Writer → Control → ℕ
get_reader_count w c = if is_null w.header then 0 else c.num_readers

-- The loop of `destroy` over the readers.
unfoldable pub detach_all : List Info → List Call
detach_all [] = []
detach_all (i ∷ is) =
    let rest = detach_all is in
    if i.valid then munmap_if i.ptr i.size ++ (close_if i.fd ++ rest) else rest

-- An initialized writer has its mapping.
unfoldable pub destroy : Writer → Writer × List Call
unfolding detach_all
destroy w = if not w.is_initialized then (w, []) else (
  record w { is_initialized = false; readers = [] },
  detach_all w.readers
      ++ (munmap_if w.control_ptr w.control_size
          ++ elim w.control_fd [ none ↦ [] | some fd ↦ close fd ∷ shm_unlink w.channel_name ∷ [] ]),
)
