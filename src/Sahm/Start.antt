-- ===== src/Sahm/Start.antt =====
-- The ring buffer that a reader's `init` leaves behind.
use sim_library_v.Prelude.{
  ℕ, zero, suc, ◌+◌, ◌*◌, ◌^◌, ◌≤◌, ◌<◌, ◌≡◌, inl, inr, refl, sym, ap, ◌∙◌, true, none, some, [],
  String, arith, ◌==◌, Bool-cases,
}
use sim_library_v.Prelude.Int.{pos}
use sim_library_v.Sahm.Ring.{
  Ring, RingHeader, Slot, direct_magic, sizeof_header, sizeof_slot, slot_ptr, set_slot,
}
use sim_library_v.Sahm.Control.{Control}
use sim_library_v.Sahm.Reader
use sim_library_v.Sahm.Reader.{Reader, init_ring, clear_slots, get_slot}
use sim_library_v.Sahm.History.{Presents, start, slot_ptr_lem}
use sim_library_v.Sahm.Latest.{IsAttached, get_slot_ptr_lem}

abbrev pub no_frame : Slot
no_frame = record { sequence = 0; timestamp_ns = pos 0; data_size = 0 }

-- The loop leaves a clear slot clear.
clear_slots_keeps :
    (t n i o : ℕ) (slots : ℕ → Slot) → slots o ≡ no_frame → clear_slots t n i slots o ≡ no_frame
unfolding clear_slots
clear_slots_keeps t zero i o slots e = e
clear_slots_keeps t (suc n) i o slots e =
    clear_slots_keeps t n (i + 1) o (set_slot (slot_ptr t i) no_frame slots)
      (elim (Bool-cases (o == slot_ptr t i)) [ inl here ↦ rw here refl | inr apart ↦ rw apart e ])

-- The loop clears each of its slots.
clear_slots_clears :
    (t n i k : ℕ) (slots : ℕ → Slot)
    → i ≤ k
    → k < i + n
    → clear_slots t n i slots (slot_ptr t k) ≡ no_frame
unfolding clear_slots
clear_slots_clears t zero i k slots from below = absurd (omega (arith, from, below))
clear_slots_clears t (suc n) i k slots from below = elim (Bool-cases (k == i)) [
  | inl here ↦ clear_slots_keeps t n (i + 1) (slot_ptr t k) _ (ground (arith, here))
  | inr later ↦ clear_slots_clears t n (i + 1) k _ (ground (arith, later, from)) (omega arith)
]

-- What `init` leaves where it returns true.
init_ring_lem :
    (cut : String → String) (a : Reader.Answers) (channel mine : String) (max n k : ℕ) (c : Control)
    (ring : Ring)
    → k < n
    → n < 2 ^ 31
    → sizeof_header + n * (sizeof_slot + max) < 2 ^ 64
    → sizeof_slot + max < 2 ^ 64
    → (Reader.init cut a (Reader.new channel mine max n) c ring).result ≡ true
    → let i = Reader.init cut a (Reader.new channel mine max n) c ring in
      IsAttached n i.reader i.ring
      × Presents n i.ring []
      × (i.ring.size ≡ sizeof_header + n * (sizeof_slot + max))
      × (i.ring.header ≡ record {
        magic = direct_magic;
        ring_size = n;
        slot_data_size = max;
        slot_total_size = sizeof_slot + max;
        write_idx = 0;
        total_writes = 0;
      })
      × (i.ring.slots (slot_ptr (sizeof_slot + max) k) ≡ no_frame)
unfolding Reader.init Reader.new Reader.init_opened Reader.init_mapped Reader.init_checked
    Reader.init_created Reader.init_truncated Reader.init_buffer Reader.init_registered init_ring
init_ring_lem cut a channel mine max n k c ring lt half fits fits_slot done = (
  record {
    ring_ok = record {
      slots = omega arith;
      word = omega arith;
      index = ground arith;
      stride = ground arith;
      holds = ground arith;
      fits = ground arith;
    };
    ready = ground arith;
    base = ground arith;
    slots = ground arith;
    half = half;
    stride = ground arith;
  },
  record { count = ground arith; frame = λ age lt lt_n. absurd (omega arith) },
  ground arith,
  ground arith,
  ground
      (arith, clear_slots_clears (sizeof_slot + max) n 0 k ring.slots (omega arith) (omega arith)),
)

-- Where the `init` of a new reader returns true, the number of slots is positive and below 2^31,
-- and the sizes of a slot and of the object fit 64 bits: the reader is attached to a ring buffer
-- of the size asked for, with a header that says so, which presents no frame; and each of its
-- slots is clear, so that `getSlot` finds no frame there.
pub init_empty_ring :
    (cut : String → String) (a : Reader.Answers) (channel mine : String) (max n k : ℕ) (c : Control)
    (ring : Ring)
    → k < n
    → n < 2 ^ 31
    → sizeof_header + n * (sizeof_slot + max) < 2 ^ 64
    → sizeof_slot + max < 2 ^ 64
    → (Reader.init cut a (Reader.new channel mine max n) c ring).result ≡ true
    → let i = Reader.init cut a (Reader.new channel mine max n) c ring in
      IsAttached n i.reader i.ring
      × Presents n i.ring []
      × (i.ring.size ≡ sizeof_header + n * (sizeof_slot + max))
      × (i.ring.header ≡ record {
        magic = direct_magic;
        ring_size = n;
        slot_data_size = max;
        slot_total_size = sizeof_slot + max;
        write_idx = 0;
        total_writes = 0;
      })
      × (i.ring.slots (start (sizeof_slot + max) k) ≡ no_frame)
      × (get_slot i.reader i.ring k ≡ some none)
init_empty_ring cut a channel mine max n k c ring lt half fits fits_slot done =
    let i = Reader.init cut a (Reader.new channel mine max n) c ring in
    let (attached, presents, size, header, clear) =
      init_ring_lem cut a channel mine max n k c ring lt half fits fits_slot done in
    let stride = ap (λ (h : RingHeader). h.slot_total_size) header in
    let at_slot = (slot_ptr_lem n k i.ring attached.ring_ok lt).0 in
    let found : i.ring.slots (start (sizeof_slot + max) k) ≡ no_frame =
      ap i.ring.slots (sym (rw stride at at_slot)) ∙ clear in
    (
      attached,
      presents,
      size,
      header,
      found,
      unfold get_slot in
          ground (
            arith,
            get_slot_ptr_lem n i.reader i.ring attached k lt,
            stride,
            attached.ready,
            attached.slots,
            found,
          ),
    )
