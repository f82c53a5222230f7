-- ===== src/Sahm/History.antt =====
-- A ring buffer keeps the last frames that were pushed, each in its own slot.
use native.Mathlib.Nat.{div-add-mod, mod-lt, mod-add-mod, mul-le-mul_left, mul-le-mul_right}
use sim_library_v.Prelude.{
  ℕ, zero, suc, ◌+◌, ◌-◌, ◌*◌, ◌/◌, ◌%◌, ◌^◌, ◌≤◌, ◌<◌, ◌≡◌, ◌≢◌, ◌⊎◌, inl, inr, refl, ◌∙◌, some,
  List, [], ◌∷◌, length, take, get_or, arith, length-take, add32, leb, Bool-cases,
}
use sim_library_v.Prelude.Int.{ℤ}
use sim_library_v.Memory.{blit, slice}
use sim_library_v.Memory.Laws.{slice-blit_apart, slice-blit_self}
use sim_library_v.Sahm.Ring.{
  Ring, sizeof_header, sizeof_slot, slot_ptr, set_slot, copy_to_slot, next_idx, advance, push,
}

-- Two numbers less than `n` apart have different remainders.
mod_apart : (n a b : ℕ) → a < b → b < a + n → a % n ≢ b % n
mod_apart n a b lt close e = elim (order (b / n) (a / n)) [
  | inl le ↦ omega (arith, div-add-mod a n, div-add-mod b n, mul-le-mul_left n le)
  | inr gt ↦ omega (arith, div-add-mod a n, div-add-mod b n, mul-le-mul_left n gt)
]
  where
    order : (x y : ℕ) → (x ≤ y) ⊎ (y + 1 ≤ x)
    order x y = elim (Bool-cases (leb x y)) [
      | inl h ↦ inl (ground arith)
      | inr h ↦ inr (ground arith)
    ]

-- A ring of `n` slots that `init` of a reader and the writer's loop leave behind.
pub record IsRing (n : ℕ) (r : Ring) : Type 0 where
  pub slots : 0 < n
  pub word : n < 2 ^ 32
  pub index : r.header.write_idx ≡ r.header.total_writes % n
  pub stride : sizeof_slot + r.header.slot_data_size ≤ r.header.slot_total_size
  pub holds : sizeof_header + n * r.header.slot_total_size ≤ r.size
  pub fits : r.size < 2 ^ 64

-- The offset of slot `k`, without wrap-around.
abbrev pub start : ℕ → ℕ → ℕ
start total_size k = sizeof_header + k * total_size

pub slot_ptr_lem :
    (n k : ℕ) (r : Ring)
    → IsRing n r
    → k < n
    → (slot_ptr r.header.slot_total_size k ≡ start r.header.slot_total_size k)
      × (start r.header.slot_total_size k + r.header.slot_total_size
          ≤ sizeof_header + n * r.header.slot_total_size)
unfolding slot_ptr
slot_ptr_lem n k r v lt =
    let last : (k + 1) * r.header.slot_total_size ≤ n * r.header.slot_total_size =
      mul-le-mul_right r.header.slot_total_size (omega arith) in
    omega (arith, v.holds, v.fits)

-- Different slots lie apart.
start_apart : (t k i : ℕ) → k ≢ i → (start t k + t ≤ start t i) ⊎ (start t i + t ≤ start t k)
start_apart t k i ne = elim (Bool-cases (leb (k + 1) i)) [
  | inl h ↦
      let le : k + 1 ≤ i = ground arith in
      inl (omega (arith, mul-le-mul_right {m = k + 1} {n = i} t le))
  | inr h ↦
      let le : i + 1 ≤ k = ground arith in
      inr (omega (arith, mul-le-mul_right {m = i + 1} {n = k} t le))
]

-- Slot `k` has the frame with number `seq` and the bytes `bytes`.
pub record Shows (r : Ring) (k seq : ℕ) (bytes : List ℕ) : Type 0 where
  pub room : length bytes ≤ r.header.slot_data_size
  pub sequence : (r.slots (start r.header.slot_total_size k)).sequence ≡ seq
  pub data_size : (r.slots (start r.header.slot_total_size k)).data_size ≡ length bytes
  pub payload : slice r.mem (start r.header.slot_total_size k + sizeof_slot) (length bytes) ≡ bytes

-- The ring presents the frames pushed so far, the latest first: the last `n` of them are in their
-- slots.
pub record Presents (n : ℕ) (r : Ring) (frames : List (List ℕ)) : Type 0 where
  pub count : r.header.total_writes ≡ length frames
  pub frame :
      (age : ℕ)
      → age < length frames
      → age < n
      → Shows r ((length frames - 1 - age) % n) (length frames - age) (get_or frames age [])

-- The ring after a push.
abbrev pub pushed : ℤ → ℕ → List ℕ → Ring → Ring
pushed timestamp n bytes r =
    let p = start r.header.slot_total_size r.header.write_idx in
    record r {
      mem = blit r.mem (p + sizeof_slot) bytes;
      slots =
          set_slot p
            (record {
              sequence = r.header.total_writes + 1;
              timestamp_ns = timestamp;
              data_size = length bytes;
            })
            r.slots;
      header = record r.header {
        write_idx = (r.header.total_writes + 1) % n;
        total_writes = r.header.total_writes + 1;
      };
    }

push-pushed :
    (timestamp : ℤ) (n limit : ℕ) (bytes : List ℕ) (size : ℕ) (r : Ring)
    → IsRing n r
    → sizeof_header + n * r.header.slot_total_size ≤ limit
    → r.header.total_writes + 1 < 2 ^ 64
    → size ≤ length bytes
    → size ≤ r.header.slot_data_size
    → push timestamp n limit bytes size r ≡ some (pushed timestamp n (take size bytes) r)
unfolding push copy_to_slot advance next_idx
push-pushed timestamp n limit bytes size r v reach few given h =
    ground (arith, source, at_slot, next, v.stride, v.slots, v.holds, reach)
  where
    source : length (take size bytes) ≡ size
    source = omega (arith, length-take size bytes)

    at_slot :
        (slot_ptr r.header.slot_total_size r.header.write_idx
          ≡ start r.header.slot_total_size r.header.write_idx)
        × (start r.header.slot_total_size r.header.write_idx + r.header.slot_total_size
            ≤ sizeof_header + n * r.header.slot_total_size)
    at_slot =
        slot_ptr_lem n r.header.write_idx r v
          (omega (arith, v.index, mod-lt r.header.total_writes v.slots))

    next : add32 r.header.write_idx 1 % n ≡ (r.header.total_writes + 1) % n
    next =
        let small : add32 r.header.write_idx 1 ≡ r.header.write_idx + 1 =
          omega (arith, v.index, v.word, mod-lt r.header.total_writes v.slots) in
        rw (small, v.index) (mod-add-mod r.header.total_writes n 1)

pushed-IsRing :
    (timestamp : ℤ) (n : ℕ) (bytes : List ℕ) (r : Ring)
    → IsRing n r
    → IsRing n (pushed timestamp n bytes r)
pushed-IsRing timestamp n bytes r v = record {
  slots = v.slots;
  word = v.word;
  index = refl;
  stride = v.stride;
  holds = v.holds;
  fits = v.fits;
}

-- A slot other than the current one shows what it showed.
pushed-Shows :
    (timestamp : ℤ) (n k seq : ℕ) (bytes old : List ℕ) (r : Ring)
    → IsRing n r
    → length bytes ≤ r.header.slot_data_size
    → k ≢ r.header.write_idx
    → Shows r k seq old
    → Shows (pushed timestamp n bytes r) k seq old
pushed-Shows timestamp n k seq bytes old r v h ne x =
    let t : ℕ = r.header.slot_total_size in
    let apart = start_apart t k r.header.write_idx ne in
    let other : start t k ≢ start t r.header.write_idx = ground (arith, apart, v.stride) in
    record {
      room = x.room;
      sequence = ground (arith, other, x.sequence);
      data_size = ground (arith, other, x.data_size);
      payload =
          slice-blit_apart r.mem (start t r.header.write_idx + sizeof_slot) bytes
            (start t k + sizeof_slot) (length old) (ground (arith, apart, v.stride, x.room))
          ∙ x.payload;
    }

-- The current slot shows the frame.
pushed-Shows_new :
    (timestamp : ℤ) (n : ℕ) (bytes : List ℕ) (r : Ring)
    → length bytes ≤ r.header.slot_data_size
    → Shows (pushed timestamp n bytes r) r.header.write_idx (r.header.total_writes + 1) bytes
pushed-Shows_new timestamp n bytes r h = record {
  room = h;
  sequence = ground arith;
  data_size = ground arith;
  payload =
      slice-blit_self r.mem (start r.header.slot_total_size r.header.write_idx + sizeof_slot) bytes;
}

pushed-Presents :
    (timestamp : ℤ) (n : ℕ) (bytes : List ℕ) (r : Ring) (frames : List (List ℕ))
    → IsRing n r
    → length bytes ≤ r.header.slot_data_size
    → Presents n r frames
    → Presents n (pushed timestamp n bytes r) (bytes ∷ frames)
pushed-Presents timestamp n bytes r frames v h x = record {
  count = omega (arith, x.count);
  frame = frame;
}
  where
    frame :
        (age : ℕ)
        → age < length (bytes ∷ frames)
        → age < n
        → Shows
            (pushed timestamp n bytes r)
            ((length (bytes ∷ frames) - 1 - age) % n)
            (length (bytes ∷ frames) - age)
            (get_or (bytes ∷ frames) age [])
    frame zero lt lt_n =
        let e : (length (bytes ∷ frames) - 1 - 0) ≡ r.header.total_writes =
          omega (arith, x.count) in
        let f : length (bytes ∷ frames) - 0 ≡ r.header.total_writes + 1 = omega (arith, x.count) in
        rw (e, f, ← v.index) (pushed-Shows_new timestamp n bytes r h)
    frame (suc age) lt lt_n =
        let e : (length (bytes ∷ frames) - 1 - suc age) ≡ length frames - 1 - age = omega arith in
        let f : length (bytes ∷ frames) - suc age ≡ length frames - age = omega arith in
        let ne : (length frames - 1 - age) % n ≢ r.header.total_writes % n =
          mod_apart n (length frames - 1 - age) r.header.total_writes (omega (arith, x.count))
            (omega (arith, x.count)) in
        rw (e, f)
          (pushed-Shows timestamp n ((length frames - 1 - age) % n) (length frames - age) bytes
            (get_or frames age []) r v h (rw v.index ne) (x.frame age (omega arith) (omega arith)))

-- A push of at most `slot_data_size` bytes, as the writer makes it for every ring, through a
-- mapping of all slots and before the count of writes reaches 2^64, succeeds and keeps the
-- ring's invariant. The ring then presents the frame before all those that it presented: each of
-- the last `n` frames is in its slot, with its number, its size and its bytes.
pub push_refines :
    (timestamp : ℤ) (n limit : ℕ) (bytes : List ℕ) (size : ℕ) (r : Ring) (frames : List (List ℕ))
    → IsRing n r
    → sizeof_header + n * r.header.slot_total_size ≤ limit
    → Presents n r frames
    → r.header.total_writes + 1 < 2 ^ 64
    → size ≤ length bytes
    → size ≤ r.header.slot_data_size
    → (r' : Ring) × (push timestamp n limit bytes size r ≡ some r')
      × IsRing n r'
      × Presents n r' (take size bytes ∷ frames)
push_refines timestamp n limit bytes size r frames v reach x few given h = (
  pushed timestamp n (take size bytes) r,
  push-pushed timestamp n limit bytes size r v reach few given h,
  pushed-IsRing timestamp n (take size bytes) r v,
  pushed-Presents timestamp n (take size bytes) r frames v (omega (arith, length-take size bytes))
      x,
)
