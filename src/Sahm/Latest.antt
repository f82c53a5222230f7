-- ===== src/Sahm/Latest.antt =====
-- What a SAHM reader finds in its ring buffer.
use native.Mathlib.Nat.{mod-lt, mod-add-mod, add-mod_right}
use sim_library_v.Prelude.{
  ℕ, suc, ◌+◌, ◌-◌, ◌%◌, ◌^◌, ◌<◌, ◌≡◌, ◌≢◌, refl, ap, ◌∙◌, true, Option, none, some, List, [], ◌∷◌,
  length, get_or, arith, add32, sub32, add64,
}
use sim_library_v.Prelude.Int.{ℤ}
use sim_library_v.Memory.{slice}
use sim_library_v.Sahm.Ring.{Ring, sizeof_header, sizeof_slot, slot_ptr}
use sim_library_v.Sahm.Reader.{
  Reader, Found, get_slot_ptr, latest_idx, get_latest, get_slot, get_slot_sequence,
  get_latest_timestamp_ns,
}
use sim_library_v.Sahm.History.{IsRing, Presents, Shows, start, slot_ptr_lem}

-- A reader that is initialized with this ring of `n` slots.
pub record IsAttached (n : ℕ) (r : Reader) (ring : Ring) : Type 0 where
  pub ring_ok : IsRing n ring
  pub ready : r.is_initialized ≡ true
  pub base : r.slots_base ≡ some sizeof_header
  pub slots : r.ring_size ≡ n
  pub half : n < 2 ^ 31
  pub stride : r.slot_total_size ≡ ring.header.slot_total_size

-- The bytes behind what the reader returned.
abbrev pub bytes_of : Ring → Option Found → Option (List ℕ)
bytes_of ring none = none
bytes_of ring (some f) = some (slice ring.mem f.pointer f.size)

-- The latest frame.
abbrev pub newest : List (List ℕ) → Option (List ℕ)
newest [] = none
newest (f ∷ fs) = some f

module _ (n : ℕ) (r : Reader) (ring : Ring) (v : IsAttached n r ring) where
  pub get_slot_ptr_lem :
      (k : ℕ) → k < n → get_slot_ptr r k ≡ some (start ring.header.slot_total_size k)
  unfolding get_slot_ptr slot_ptr
  get_slot_ptr_lem k lt =
      ground (arith, slot_ptr_lem n k ring v.ring_ok lt, v.base, v.slots, v.stride)

  -- The slot before the next one to write.
  latest_idx_lem :
      (m : ℕ) → ring.header.total_writes ≡ suc m → latest_idx ring.header.write_idx n ≡ some (m % n)
  unfolding latest_idx
  latest_idx_lem m e =
      let below = mod-lt ring.header.total_writes v.ring_ok.slots in
      let small : sub32 (add32 ring.header.write_idx n) 1 ≡ ring.header.total_writes % n + (n - 1) =
        omega (arith, v.ring_ok.index, v.half, below, v.ring_ok.slots) in
      let around : suc m + (n - 1) ≡ m + n = omega (arith, v.ring_ok.slots) in
      let step : (ring.header.total_writes % n + (n - 1)) % n ≡ m % n =
        rw e (mod-add-mod (suc m) n (n - 1) ∙ ap (λ k. k % n) around ∙ add-mod_right m n) in
      ground (arith, small, step, v.ring_ok.slots)

  -- The data of slot `k` lie in the object.
  room_lem :
      (k : ℕ)
      → k < n
      → add64 (start ring.header.slot_total_size k) sizeof_slot
        ≡ start ring.header.slot_total_size k + sizeof_slot
  room_lem k lt =
      omega (
        arith,
        slot_ptr_lem n k ring v.ring_ok lt,
        v.ring_ok.stride,
        v.ring_ok.holds,
        v.ring_ok.fits,
      )

  get_latest_slot :
      (m : ℕ)
      → ring.header.total_writes ≡ suc m
      → get_latest r ring
        ≡ some (
            some (record {
              pointer = start ring.header.slot_total_size (m % n) + sizeof_slot;
              size = (ring.slots (start ring.header.slot_total_size (m % n))).data_size;
            }))
  unfolding get_latest
  get_latest_slot m e =
      let below = mod-lt m v.ring_ok.slots in
      ground (
        arith,
        e,
        v.ready,
        v.slots,
        latest_idx_lem m e,
        get_slot_ptr_lem (m % n) below,
        room_lem (m % n) below,
      )

  get_slot_shown :
      (k : ℕ)
      → k < n
      → (ring.slots (start ring.header.slot_total_size k)).sequence ≢ 0
      → get_slot r ring k
        ≡ some (
            some (record {
              pointer = start ring.header.slot_total_size k + sizeof_slot;
              size = (ring.slots (start ring.header.slot_total_size k)).data_size;
            }))
  unfolding get_slot
  get_slot_shown k lt ne = ground (arith, v.ready, v.slots, get_slot_ptr_lem k lt, room_lem k lt)

  pub get_latest_timestamp_ns_lem :
      (m : ℕ)
      → ring.header.total_writes ≡ suc m
      → (time : ℤ) × (get_latest_timestamp_ns r ring ≡ some time)
  unfolding get_latest_timestamp_ns
  get_latest_timestamp_ns_lem m e =
      let below = mod-lt m v.ring_ok.slots in
      (
        (ring.slots (start ring.header.slot_total_size (m % n))).timestamp_ns,
        ground (arith, v.ready, v.slots, latest_idx_lem m e, get_slot_ptr_lem (m % n) below),
      )

-- On a ring that presents frames, `getLatest` of an attached reader runs into no undefined
-- behaviour and gives the latest frame, its size and its bytes, or `nullptr` where no frame was
-- pushed.
pub get_latest-newest :
    (n : ℕ) (r : Reader) (ring : Ring) (frames : List (List ℕ))
    → IsAttached n r ring
    → Presents n ring frames
    → (result : Option Found) × (get_latest r ring ≡ some result)
      × (bytes_of ring result ≡ newest frames)
unfolding get_latest
get_latest-newest n r ring [] v x = (none, ground (arith, x.count, v.ready), refl)
get_latest-newest n r ring (f ∷ fs) v x =
    let here : length (f ∷ fs) - 1 - 0 ≡ length fs = omega arith in
    let shown : Shows ring (length fs % n) (length (f ∷ fs) - 0) f =
      rw here at (x.frame 0 (omega arith) v.ring_ok.slots) in
    (
      some (record {
        pointer = start ring.header.slot_total_size (length fs % n) + sizeof_slot;
        size = (ring.slots (start ring.header.slot_total_size (length fs % n))).data_size;
      }),
      get_latest_slot n r ring v (length fs) x.count,
      ground (arith, shown.data_size, shown.payload),
    )

-- Each of the last `n` frames pushed to a ring of `n` slots can be had from an attached reader
-- by `getSlot`, at the place that its number gives, with its size and its bytes;
-- `getSlotSequence` there gives its number.
pub get_slot_keeps_history :
    (n : ℕ) (r : Reader) (ring : Ring) (frames : List (List ℕ)) (age : ℕ)
    → IsAttached n r ring
    → Presents n ring frames
    → age < length frames
    → age < n
    → let place = (length frames - 1 - age) % n in
      (f : Found) × (get_slot r ring place ≡ some (some f))
      × (slice ring.mem f.pointer f.size ≡ get_or frames age [])
      × (get_slot_sequence r ring place ≡ some (length frames - age))
unfolding get_slot_sequence
get_slot_keeps_history n r ring frames age v x lt lt_n =
    let place : ℕ = (length frames - 1 - age) % n in
    let shown : Shows ring place (length frames - age) (get_or frames age []) =
      x.frame age lt lt_n in
    let below : place < n = mod-lt (length frames - 1 - age) v.ring_ok.slots in
    (
      record {
        pointer = start ring.header.slot_total_size place + sizeof_slot;
        size = (ring.slots (start ring.header.slot_total_size place)).data_size;
      },
      get_slot_shown n r ring v place below (omega (arith, shown.sequence)),
      ground (arith, shown.data_size, shown.payload),
      ground (arith, v.slots, get_slot_ptr_lem n r ring v place below, shown.sequence),
    )
