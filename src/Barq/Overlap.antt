-- ===== src/Barq/Overlap.antt =====
-- A `getLatest` of src/barq.cpp, and the caller's copy, that overlap one `write`: each load sees the
-- segment at a moment of its own.
use mathlib.Core.Path.{subst}
use sim_library_v.Prelude.{
  ℕ, ◌-◌, ◌≤◌, ◌<◌, ◌≡◌, ◌⊎◌, sym, inl, inr, true, Option, some, ap, ◌∙◌, List, length, arith,
  add64,
}
use sim_library_v.Prelude.Int.{ℤ}
use sim_library_v.Channel
use sim_library_v.Channel.{Channel}
use sim_library_v.Memory.{slice}
use sim_library_v.Memory.Laws.{slice_ext}
use sim_library_v.Memory.Stores.{
  All, Moment, during, finished, at_moment, IsAfter, AreAmong, All-AreAmong, Moment-cases,
  at_moment-IsAfter,
}
use sim_library_v.Barq.Header.{Segment}
use sim_library_v.Barq.Writer.{Writer, write, set_metadata}
use sim_library_v.Barq.Reader.{Reader, Latest, get_latest}
use sim_library_v.Barq.Valid.{
  view, stride, stride_bounds, front_start, front_len, front_fits, IsAttached, IsConnected,
}
use sim_library_v.Barq.Write.{written, view-written}
use sim_library_v.Barq.Read.{bytes_of, get_latest_refines}
use sim_library_v.Barq.Stores.{
  Store, front, apply, preparation, IsBack, stores-eq-write, stores-written,
}
use sim_library_v.Barq.Stores.Kept.{Kept, Same, apply_all-Same}

-- When each load of `getLatest` and of the copy from its pointer takes place.
pub record Loads (ys : List Store) : Type 0 where
  pub front_idx : Moment ys
  pub seq : Moment ys
  pub len : Moment ys
  pub ts : Moment ys
  pub byte : ℕ → Moment ys

-- The load of `front_idx` acquires, and the others come after it.
pub record IsOrdered {ys : List Store} (l : Loads ys) : Type 0 where
  pub seq : IsAfter l.front_idx l.seq
  pub len : IsAfter l.front_idx l.len
  pub ts : IsAfter l.front_idx l.ts
  pub byte : (o : ℕ) → IsAfter l.front_idx (l.byte o)

-- The stores of `write` before the release.
abbrev pub stores : ℤ → Writer → Segment → List ℕ → List Store
stores now w s src = preparation now w s.header src

module _ (now : ℤ) (w : Writer) (s : Segment) (src : List ℕ) where
  -- The segment at a moment of the write of `src`.
  abbrev pub seen : Moment (stores now w s src) → Segment
  seen m = at_moment apply (stores now w s src) (front (1 - s.header.front_idx)) s m

  -- The segment as the loads see it.
  unfoldable pub mix : Loads (stores now w s src) → Segment
  mix l = record s {
    header = record s.header {
      front_idx = (seen l.front_idx).header.front_idx;
      seq0 = (seen l.seq).header.seq0;
      seq1 = (seen l.seq).header.seq1;
      len0 = (seen l.len).header.len0;
      len1 = (seen l.len).header.len1;
      ts0 = (seen l.ts).header.ts0;
      ts1 = (seen l.ts).header.ts1;
    };
    mem = λ o. (seen (l.byte o)).mem o;
  }

module _ (now : ℤ) (w : Writer) (s : Segment) (src : List ℕ) (a : IsAttached w s)
    (fits : length src ≤ w.max_size) where
  IsBack-preparation : All (IsBack s.header) (stores now w s src)
  IsBack-preparation = (stores-eq-write now w s src a fits).0

  seen-Same :
      (xs : List Store) (among : AreAmong xs (stores now w s src))
      → Same s (seen now w s src (during xs among))
  seen-Same xs among =
      apply_all-Same s a.segment xs (All-AreAmong (IsBack s.header) xs _ IsBack-preparation among)

  seen-Kept : (m : Moment (stores now w s src)) → Kept s (seen now w s src m)
  unfolding apply
  seen-Kept (during xs among) = (seen-Same xs among).kept
  seen-Kept finished =
      let k = (apply_all-Same s a.segment (stores now w s src) IsBack-preparation).kept in
      record { seq = k.seq; len = k.len; ts = k.ts; small = k.small; payload = k.payload }

  module _ (l : Loads (stores now w s src)) where
    front_before :
        (xs : List Store) (among : AreAmong xs (stores now w s src))
        → l.front_idx ≡ during xs among
        → (mix now w s src l).header.front_idx ≡ s.header.front_idx
    unfolding mix
    front_before xs among e = rw e ((seen-Same xs among).front)

    seen-written :
        (m : Moment (stores now w s src))
        → IsAfter l.front_idx m
        → l.front_idx ≡ finished
        → seen now w s src m ≡ written now w s src
    seen-written m after e =
        at_moment-IsAfter apply (stores now w s src) (front (1 - s.header.front_idx)) s m
          (subst (λ (f : Moment (stores now w s src)). IsAfter f m) e after)
        ∙ sym (stores-written now w s src a)

    -- Before the reader sees the release, it finds the frame before the write.
    mix-old :
        (mix now w s src l).header.front_idx ≡ s.header.front_idx
        → view (mix now w s src l) ≡ view s
    unfolding mix
    mix-old e = ground (arith, e, (seen-Kept l.seq).seq, (seen-Kept l.len).len, payload)
      where
        covers : s.header.capacity ≤ stride s.header.capacity
        covers = rw a.capacity (omega (arith, stride_bounds w.max_size a.small))

        payload :
            slice (mix now w s src l).mem (front_start s.header) (front_len s.header)
            ≡ slice s.mem (front_start s.header) (front_len s.header)
        payload = slice_ext _ s.mem _ _ (λ o from to.
            (seen-Kept (l.byte o)).payload o from (omega (arith, to, front_fits a.segment, covers)))

    mix-new :
        IsOrdered l
        → l.front_idx ≡ finished
        → view (mix now w s src l) ≡ Channel.publish src (view s)
    unfolding mix
    mix-new order e =
        ground (
          arith,
          seen-written l.front_idx (rw e tt) e,
          seen-written l.seq order.seq e,
          seen-written l.len order.len e,
          payload,
          capacity,
        )
        ∙ view-written now w s src a
      where
        capacity : (written now w s src).header.capacity ≡ s.header.capacity
        capacity = unfold set_metadata in ground arith

        payload :
            slice
              (mix now w s src l).mem
              (front_start (written now w s src).header)
              (front_len (written now w s src).header)
            ≡ (view (written now w s src)).payload
        payload =
            slice_ext _ _ _ _ (λ o from to.
              ap (λ (t : Segment). t.mem o) (seen-written (l.byte o) (order.byte o) e))

    pub mix-cases :
        IsOrdered l
        → (view (mix now w s src l) ≡ view s)
          ⊎ (view (mix now w s src l) ≡ Channel.publish src (view s))
    mix-cases order = elim (Moment-cases l.front_idx) [
      | inl e ↦ inr (mix-new order e)
      | inr (xs, among, e) ↦ inl (mix-old (front_before xs among e))
    ]

    mix-front : IsOrdered l → (mix now w s src l).header.front_idx < 2
    unfolding mix
    mix-front order = elim (Moment-cases l.front_idx) [
      | inl e ↦ ground (arith, seen-written l.front_idx (rw e tt) e)
      | inr (xs, among, e) ↦ omega (arith, front_before xs among e, a.segment.front)
    ]

    pub mix-IsConnected :
        (r : Reader) → IsConnected r s → IsOrdered l → IsConnected r (mix now w s src l)
    unfolding mix
    mix-IsConnected r c order = record {
      segment = record {
        magic = c.segment.magic;
        front = mix-front order;
        length_0 = (seen-Kept l.len).small.0;
        length_1 = (seen-Kept l.len).small.1;
        holds = c.segment.holds;
      };
      ready = c.ready;
      base = c.base;
      mapped = c.mapped;
      first = c.first;
      second = c.second;
      capacity = c.capacity;
    }

-- An attached writer writes at most `max_size` bytes while a connected reader takes the latest
-- frame and copies its bytes, each load at a moment of its own, those after the acquiring one
-- ordered after it. `write` returns true and leaves what all its stores leave. `getLatest` runs
-- into no undefined behaviour; the bytes copied from its pointer and the number it remembers are
-- those of the frame before the write or of the one written.
pub overlapping_get_latest :
    (now : ℤ) (w : Writer) (r : Reader) (s : Segment) (src : List ℕ)
    (l : Loads (stores now w s src))
    → IsAttached w s
    → IsConnected r s
    → length src ≤ w.max_size
    → IsOrdered l
    → (write now w s src (length src)
        ≡ some (true, record w { frame_count = add64 w.frame_count 1 }, seen now w s src finished))
      × (c : Channel) × (result : Option Latest) × (r' : Reader) × (get_latest r (mix now w s src l)
          ≡ some (result, r'))
      × (bytes_of (mix now w s src l) result ≡ Channel.poll r.last_seq c)
      × (r'.last_seq ≡ c.frame)
      × ((c ≡ view s) ⊎ (c ≡ Channel.publish src (view s)))
overlapping_get_latest now w r s src l a c fits order =
    let (result, r', done, found, inside, last, v) =
      get_latest_refines r (mix now w s src l) (mix-IsConnected now w s src a fits l r c order)
        (omega (arith, a.small, a.capacity, c.capacity)) in
    (
      (stores-eq-write now w s src a fits).1,
      view (mix now w s src l),
      result,
      r',
      done,
      found,
      last,
      mix-cases now w s src a fits l order,
    )
