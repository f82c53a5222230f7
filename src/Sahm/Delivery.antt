-- ===== src/Sahm/Delivery.antt =====
-- `DirectWriter::write` delivers a frame to every reader.
use sim_library_v.Prelude.{
  ℕ, ◌+◌, ◌*◌, ◌^◌, ◌≤◌, ◌<◌, ◌≡◌, ◌≢◌, refl, ◌∙◌, true, some, List, [], ◌∷◌, length, take, arith,
  if◌then◌else◌, inl, inr, Bool-cases,
}
use sim_library_v.Prelude.Int.{ℤ}
use sim_library_v.Sahm.Ring.{Ring, sizeof_header}
use sim_library_v.Sahm.Writer.{
  Writer, Info, Rings, Find, Written, put_ring, push_to, push_all, discover_readers, write,
}
use sim_library_v.Sahm.Control.{Control}
use sim_library_v.Sahm.Shape.{SameShape, SameShape-refl, SameShape-trans, push-SameShape}
use sim_library_v.Sahm.History.{IsRing, Presents, push_refines}

-- The ring that `i` maps presents `frames` and takes a frame of `size` bytes.
pub record IsReady (size : ℕ) (i : Info) (r : Ring) (frames : List (List ℕ)) : Type 0 where
  pub ring_ok : IsRing i.ring_size r
  pub reach : sizeof_header + i.ring_size * r.header.slot_total_size ≤ i.size
  pub presents : Presents i.ring_size r frames
  pub few : r.header.total_writes + 1 < 2 ^ 64
  pub fits : size ≤ r.header.slot_data_size

-- A ring that `i` maps presents `frames`.
pub record Delivered (i : Info) (r : Ring) (frames : List (List ℕ)) : Type 0 where
  pub ring_ok : IsRing i.ring_size r
  pub presents : Presents i.ring_size r frames

-- No valid one of `is` maps the object `o`.
abbrev pub IsAbsent : ℕ → List Info → Type 0
IsAbsent o [] = Unit
IsAbsent o (i ∷ is) = (i.valid ≡ true → i.object ≢ o) × IsAbsent o is

-- The valid ones map different objects.
abbrev pub AreApart : List Info → Type 0
AreApart [] = Unit
AreApart (i ∷ is) = (i.valid ≡ true → IsAbsent i.object is) × AreApart is

-- Every valid one is ready.
abbrev pub AreReady : ℕ → List Info → Rings → (ℕ → List (List ℕ)) → Type 0
AreReady size [] rings frames = Unit
AreReady size (i ∷ is) rings frames =
    (i.valid ≡ true → IsReady size i (rings i.object) (frames i.object))
    × AreReady size is rings frames

-- The ring of every valid one presents `bytes` before its frames.
abbrev pub AreDelivered : List ℕ → List Info → Rings → (ℕ → List (List ℕ)) → Type 0
AreDelivered bytes [] rings frames = Unit
AreDelivered bytes (i ∷ is) rings frames =
    (i.valid ≡ true → Delivered i (rings i.object) (bytes ∷ frames i.object))
    × AreDelivered bytes is rings frames

-- The number of valid ones.
abbrev pub count_valid : List Info → ℕ
count_valid [] = 0
count_valid (i ∷ is) = (if i.valid then 1 else 0) + count_valid is

put_ring_self : (o : ℕ) (r : Ring) (rings : Rings) → put_ring o r rings o ≡ r
unfolding put_ring
put_ring_self o r rings = ground arith

put_ring_other : (o o' : ℕ) (r : Ring) (rings : Rings) → o ≢ o' → put_ring o r rings o' ≡ rings o'
unfolding put_ring
put_ring_other o o' r rings ne = ground arith

AreReady-put_ring :
    (size o : ℕ) (r : Ring) (is : List Info) (rings : Rings) (frames : ℕ → List (List ℕ))
    → IsAbsent o is
    → AreReady size is rings frames
    → AreReady size is (put_ring o r rings) frames
unfolding put_ring
AreReady-put_ring size o r [] rings frames a x = tt
AreReady-put_ring size o r (i ∷ is) rings frames a x = (
  λ e. let ne : i.object ≢ o = a.0 e in ground (arith, x.0 e),
  AreReady-put_ring size o r is rings frames a.1 x.1,
)

-- What a run of the loop gives: the count, the rings, and those left alone.
record Runs (timestamp : ℤ) (bytes : List ℕ) (size : ℕ) (is : List Info) (rings : Rings)
    (frames : ℕ → List (List ℕ)) : Type 0 where
  after : Rings
  returns : push_all timestamp bytes size is rings ≡ some (count_valid is, after)
  delivered : AreDelivered (take size bytes) is after frames
  others : (o : ℕ) → IsAbsent o is → after o ≡ rings o
  same : (o : ℕ) → SameShape (rings o) (after o)

put_ring-SameShape :
    (o : ℕ) (r : Ring) (rings : Rings)
    → SameShape (rings o) r
    → (o' : ℕ) → SameShape (rings o') (put_ring o r rings o')
unfolding put_ring
put_ring-SameShape o r rings s o' = record {
  size = ground (arith, s.size);
  room = ground (arith, s.room);
  stride = ground (arith, s.stride);
}

push_all-Runs :
    (timestamp : ℤ) (bytes : List ℕ) (size : ℕ) (is : List Info) (rings : Rings)
    (frames : ℕ → List (List ℕ))
    → size ≤ length bytes
    → AreApart is
    → AreReady size is rings frames
    → Runs timestamp bytes size is rings frames
unfolding push_all
push_all-Runs timestamp bytes size [] rings frames h a x = record {
  after = rings;
  returns = refl;
  delivered = tt;
  others = λ o p. refl;
  same = λ o. SameShape-refl (rings o);
}
push_all-Runs timestamp bytes size (i ∷ is) rings frames h a x = elim (Bool-cases i.valid) [
  | inr e ↦
      let rest = push_all-Runs timestamp bytes size is rings frames h a.1 x.1 in
      record {
        after = rest.after;
        returns = unfold push_to in ground (arith, rest.returns);
        delivered = (λ v. absurd (ground arith), rest.delivered);
        others = λ o p. rest.others o p.1;
        same = rest.same;
      }
  | inl e ↦
      let ready = x.0 e in
      let (r, pushes, ring_ok, presents) =
        push_refines timestamp i.ring_size i.size bytes size (rings i.object) (frames i.object)
          ready.ring_ok ready.reach ready.presents ready.few h ready.fits in
      let rest =
        push_all-Runs timestamp bytes size is (put_ring i.object r rings) frames h a.1
          (AreReady-put_ring size i.object r is rings frames (a.0 e) x.1) in
      let final : rest.after i.object ≡ r =
        rest.others i.object (a.0 e) ∙ put_ring_self i.object r rings in
      record {
        after = rest.after;
        returns = unfold push_to in ground (arith, pushes, rest.returns);
        delivered =
            (λ v. rw final (record { ring_ok = ring_ok; presents = presents }), rest.delivered);
        others = λ o p. rest.others o p.1 ∙ put_ring_other i.object o r rings (p.0 e);
        same = λ o.
            SameShape-trans _ _ _
              (put_ring-SameShape i.object r rings
                (push-SameShape timestamp i.ring_size i.size bytes size _ r pushes) o)
              (rest.same o);
      }
]

-- The loop of `write` over readers whose valid places map different ring buffers, each ready for
-- the frame: it runs into no undefined behaviour and counts the valid places; the frame becomes
-- the latest of each of their ring buffers, before those that the ring presented, and all other
-- ring buffers are left alone. No ring buffer changes its sizes.
pub push_all_delivers :
    (timestamp : ℤ) (bytes : List ℕ) (size : ℕ) (is : List Info) (rings : Rings)
    (frames : ℕ → List (List ℕ))
    → size ≤ length bytes
    → AreApart is
    → AreReady size is rings frames
    → (rings' : Rings) × (push_all timestamp bytes size is rings ≡ some (count_valid is, rings'))
      × AreDelivered (take size bytes) is rings' frames
      × ((o : ℕ) → IsAbsent o is → rings' o ≡ rings o)
      × ((o : ℕ) → SameShape (rings o) (rings' o))
push_all_delivers timestamp bytes size is rings frames h a x =
    let run = push_all-Runs timestamp bytes size is rings frames h a x in
    (run.after, run.returns, run.delivered, run.others, run.same)

-- `write` on an initialized writer with at most `max_slot_size` bytes, where the readers valid
-- after `discoverReaders` map different ring buffers that are ready for the frame, delivers it
-- to each of them, returns their number, and renews the heartbeat; of the writer it keeps what
-- `discoverReaders` left. All other ring buffers are left alone, and none changes its sizes.
pub write_delivers :
    (now : ℤ) (fs : List Find) (w : Writer) (c : Control) (rings : Rings) (bytes : List ℕ)
    (size : ℕ) (frames : ℕ → List (List ℕ))
    → w.is_initialized ≡ true
    → size ≤ w.max_slot_size
    → size ≤ length bytes
    → AreApart (discover_readers fs w c).0.readers
    → AreReady size (discover_readers fs w c).0.readers rings frames
    → let found = (discover_readers fs w c).0 in
      (x : Written) × (write now fs w c rings bytes size ≡ some x)
      × (x.count ≡ count_valid found.readers)
      × AreDelivered (take size bytes) found.readers x.rings frames
      × ((o : ℕ) → IsAbsent o found.readers → x.rings o ≡ rings o)
      × (x.control ≡ record c { writer_heartbeat_ns = now })
      × ((o : ℕ) → SameShape (rings o) (x.rings o))
      × (x.writer ≡ found)
unfolding write
write_delivers now fs w c rings bytes size frames ready small given a x =
    let (w', calls) = discover_readers fs w c in
    let run = push_all-Runs now bytes size w'.readers rings frames given a x in
    (
      record {
        count = count_valid w'.readers;
        writer = w';
        control = record c { writer_heartbeat_ns = now };
        rings = run.after;
        calls = calls;
      },
      ground (arith, ready, run.returns),
      refl,
      run.delivered,
      run.others,
      refl,
      run.same,
      refl,
    )
