-- ===== src/Sahm/InPlace.antt =====
-- `getWriteSlots`, a store of the frame behind every pointer, and `commitSlots`, against `write`.
use sim_library_v.Prelude.{
  ℕ, ◌+◌, ◌≤◌, ◌≡◌, refl, ◌∙◌, true, false, Option, none, some, List, [], ◌∷◌, length, arith,
  Bool-cases, inl, inr, ◌⊎◌, ◌<◌, ◌^◌, take-length, add64,
}
use sim_library_v.Prelude.Int.{ℤ}
use sim_library_v.Memory.{blit}
use sim_library_v.Sahm.Control.{Control}
use sim_library_v.Sahm.Ring.{Ring, slot_ptr, sizeof_slot, push, advance, copy_to_slot}
use sim_library_v.Sahm.Writer.{
  Writer, Find, Written, discover_readers, write, get_write_slots, commit_slots, Info, Rings,
  put_ring, push_to, push_all, write_slots, commit_to, commit_all,
}
use sim_library_v.Sahm.Delivery.{AreApart}
use sim_library_v.Sahm.Stores.{
  store, store_all, Avoids, store_all-away, put_ring-store_all, write_slots-put_ring,
  write_slots-Avoids,
}

-- The pointer to the data of the current slot.
abbrev data_of : Ring → ℕ
data_of r = add64 (slot_ptr r.header.slot_total_size r.header.write_idx) sizeof_slot

-- A push is the store at the pointer and the advance.
push-advance :
    (timestamp : ℤ) (ring_size limit : ℕ) (bytes : List ℕ) (r r' : Ring)
    → limit < 2 ^ 64
    → push timestamp ring_size limit bytes (length bytes) r ≡ some r'
    → advance timestamp ring_size limit
        (length bytes)
        (record r { mem = blit r.mem (data_of r) bytes })
      ≡ some r'
unfolding push copy_to_slot
push-advance timestamp ring_size limit bytes r r' small e = ground (arith, e, take-length bytes)

-- The sizes of the mappings fit 64 bits.
abbrev pub AreSmall : List Info → Type 0
AreSmall [] = Unit
AreSmall (i ∷ is) = (i.size < 2 ^ 64) × AreSmall is

Option-cases {ℓ} : {A : Type ℓ} (o : Option A) → (o ≡ none) ⊎ ((a : A) × (o ≡ some a))
Option-cases none = inl refl
Option-cases (some a) = inr (a, refl)

-- The commit of one ring, after the stores to all.
commit_to-store_all :
    (timestamp : ℤ) (bytes : List ℕ) (i : Info) (ps : List (ℕ × ℕ)) (rings : Rings) (r : Ring)
    → i.valid ≡ true
    → i.size < 2 ^ 64
    → Avoids i.object ps
    → push timestamp i.ring_size i.size bytes (length bytes) (rings i.object) ≡ some r
    → commit_to timestamp
        (length bytes)
        i
        (store_all ps bytes (store (i.object, data_of (rings i.object)) bytes rings))
      ≡ some (1, store_all ps bytes (put_ring i.object r rings))
unfolding commit_to
commit_to-store_all timestamp bytes i ps rings r valid small a e =
    let o = i.object in
    let p = data_of (rings o) in
    let stored : store_all ps bytes (store (o, p) bytes rings) o
        ≡ record (rings o) { mem = blit (rings o).mem p bytes } =
      store_all-away o ps bytes (store (o, p) bytes rings) a ∙ (unfold put_ring in ground arith) in
    let advanced = push-advance timestamp i.ring_size i.size bytes (rings o) r small e in
    let moved = put_ring-store_all o p ps bytes r rings a in
    rw (valid, stored, advanced, moved) refl

write_slots-valid :
    (i : Info) (is : List Info) (rings : Rings)
    → i.valid ≡ true
    → write_slots (i ∷ is) rings ≡ (i.object, data_of (rings i.object)) ∷ write_slots is rings
unfolding write_slots
write_slots-valid i is rings valid = rw valid refl

write_slots-empty :
    (i : Info) (is : List Info) (rings : Rings)
    → i.valid ≡ false
    → write_slots (i ∷ is) rings ≡ write_slots is rings
unfolding write_slots
write_slots-empty i is rings empty = rw empty refl

commit_all-push_all :
    (timestamp : ℤ) (bytes : List ℕ) (is : List Info) (rings after : Rings) (count : ℕ)
    → AreApart is
    → AreSmall is
    → push_all timestamp bytes (length bytes) is rings ≡ some (count, after)
    → commit_all timestamp (length bytes) is (store_all (write_slots is rings) bytes rings)
      ≡ some (count, after)
unfolding push_all commit_all
commit_all-push_all timestamp bytes [] rings after count a small e = unfold write_slots in e
commit_all-push_all timestamp bytes (i ∷ is) rings after count a small e =
    elim (Bool-cases i.valid) [
      | inr empty ↦ elim (Option-cases (push_all timestamp bytes (length bytes) is rings)) [
        | inl fault ↦ unfold push_to in ground (arith, e, empty, fault)
        | inr ((k, rest), pushed) ↦
            let committed =
              commit_all-push_all timestamp bytes is rings rest k a.1 small.1 pushed in
            let total : some (0 + k, rest) ≡ some (count, after) =
              unfold push_to in ground (arith, e, empty, pushed) in
            let skipped : (rings : Rings)
                → commit_to timestamp (length bytes) i rings ≡ some (0, rings) =
              λ r. unfold commit_to in rw empty refl in
            rw
              (
                write_slots-empty i is rings empty,
                skipped (store_all (write_slots is rings) bytes rings),
                committed,
              )
              total
      ]
      | inl valid ↦
          elim (Option-cases
            (push timestamp i.ring_size i.size bytes (length bytes) (rings i.object))) [
              | inl fault ↦ unfold push_to in ground (arith, e, valid, fault)
              | inr (r, pushed) ↦
                  let avoids = write_slots-Avoids i.object is rings (a.0 valid) in
                  let first =
                    commit_to-store_all timestamp bytes i (write_slots is rings) rings r valid
                      small.0 avoids pushed in
                  let slots = write_slots-put_ring i.object r is rings (a.0 valid) in
                  elim (Option-cases
                    (push_all timestamp bytes (length bytes) is (put_ring i.object r rings))) [
                      | inl fault ↦ unfold push_to in ground (arith, e, valid, pushed, fault)
                      | inr ((k, rest), others) ↦
                          let committed = rw slots at (
                            commit_all-push_all timestamp bytes is (put_ring i.object r rings) rest
                              k a.1 small.1 others) in
                          let total : some (1 + k, rest) ≡ some (count, after) =
                            unfold push_to in ground (arith, e, valid, pushed, others) in
                          rw (write_slots-valid i is rings valid, first, committed) total
                    ]
            ]
    ]

discover_keeps :
    (fs : List Find) (w : Writer) (c : Control)
    → let w' = (discover_readers fs w c).0 in
      (w'.is_initialized ≡ w.is_initialized) × (w'.max_slot_size ≡ w.max_slot_size)
unfolding discover_readers
discover_keeps fs w c = (ground arith, ground arith)

-- Where `write` of a whole array, of at most `max_slot_size` bytes, on an initialized writer
-- runs into no undefined behaviour, and the readers' ring buffers are different objects whose
-- mappings' sizes fit 64 bits: `getWriteSlots`, a store of the bytes behind every pointer that
-- it gives, and `commitSlots` run into none either, and leave the ring buffers, the control
-- channel and the writer as `write` does, with the same count and the same calls.
pub in_place-eq-write :
    (now : ℤ) (fs : List Find) (w : Writer) (c : Control) (rings : Rings) (bytes : List ℕ)
    (y : Written)
    → w.is_initialized ≡ true
    → length bytes ≤ w.max_slot_size
    → AreApart (discover_readers fs w c).0.readers
    → AreSmall (discover_readers fs w c).0.readers
    → write now fs w c rings bytes (length bytes) ≡ some y
    → let (slots, w', calls) = get_write_slots fs w c rings in
      (calls ≡ y.calls)
      × (commit_slots now w' c (store_all slots bytes rings) (length bytes)
          ≡ some (record y { calls = [] }))
in_place-eq-write now fs w c rings bytes y ready fits a small e =
    let is = (discover_readers fs w c).0.readers in
    let (same_ready, same_max) = discover_keeps fs w c in
    let opened : get_write_slots fs w c rings
        ≡ (write_slots is rings, (discover_readers fs w c).0, (discover_readers fs w c).1) =
      unfold get_write_slots in rw ready refl in
    elim (Option-cases (push_all now bytes (length bytes) is rings)) [
      | inl fault ↦ unfold write in ground (arith, e, fault, ready, fits)
      | inr ((k, after), pushed) ↦
          let committed = commit_all-push_all now bytes is rings after k a small pushed in
          let wrote : some (record {
            count = k;
            writer = (discover_readers fs w c).0;
            control = record c { writer_heartbeat_ns = now };
            rings = after;
            calls = (discover_readers fs w c).1;
          })
              ≡ some y =
            unfold write in ground (arith, e, pushed, ready, fits) in
          rw opened (
            ground (arith, wrote),
            unfold commit_slots in
                ground (arith, same_ready, same_max, committed, wrote, ready, fits),
          )
    ]
