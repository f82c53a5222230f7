-- ===== src/Sim/Overlap.antt =====
-- A `read` of src/sim.cpp that overlaps one `write`: each of its loads sees the segment at a
-- moment of its own.
use sim_library_v.Prelude.{
  ℕ, ◌+◌, ◌-◌, ◌≤◌, ◌<◌, ◌≡◌, ◌≢◌, ◌⊎◌, refl, sym, inl, inr, some, ap, ◌∙◌, List, length, arith,
}
use mathlib.Core.Path.{subst}
use sim_library_v.Prelude.Int.{ℤ}
use sim_library_v.Channel
use sim_library_v.Channel.{Channel}
use sim_library_v.Memory.{slice}
use sim_library_v.Memory.Laws.{slice_ext}
use sim_library_v.Memory.Stores.{
  Moment, during, finished, at_moment, IsAfter, AreAmong, All-AreAmong, Moment-cases,
  at_moment-keeps, at_moment-IsAfter,
}
use sim_library_v.Sim.Header.{Segment}
use sim_library_v.Sim.Writer.{Writer}
use sim_library_v.Sim.Reader.{Reader, read}
use sim_library_v.Sim.Valid.{view, front_start, current_frame, IsAttached, IsConnected}
use sim_library_v.Sim.Write.{written, view-written}
use sim_library_v.Sim.Read.{read_refines}
use sim_library_v.Sim.Roundtrip.{written-IsConnected}
use sim_library_v.Sim.Stores.{
  Store, front, apply, preparation, Kept, Kept-refl, apply-Kept, apply_all-front_idx, IsBack,
  preparation-IsBack, preparation-IsPreparing, stores-written, IsPreparing,
}
pub mod Outcomes

-- When each load of `read` takes place, the copy's loads byte by byte. The reader loads nothing
-- twice.
pub record Loads (ys : List Store) : Type 0 where
  pub front_idx : Moment ys
  pub frame : Moment ys
  pub published_length : Moment ys
  pub timestamp_ns : Moment ys
  pub byte : ℕ → Moment ys
  pub checksum : Moment ys

-- The load of `front_idx` acquires, and the others come after it.
pub record IsOrdered {ys : List Store} (l : Loads ys) : Type 0 where
  pub frame : IsAfter l.front_idx l.frame
  pub published_length : IsAfter l.front_idx l.published_length
  pub timestamp_ns : IsAfter l.front_idx l.timestamp_ns
  pub byte : (o : ℕ) → IsAfter l.front_idx (l.byte o)
  pub checksum : IsAfter l.front_idx l.checksum

-- The stores of `write` before the release.
abbrev pub stores : ℤ → Writer → Segment → List ℕ → List Store
stores now w s src = preparation now w s.header src

module _ (now : ℤ) (w : Writer) (s : Segment) (src : List ℕ) where
  -- The segment at a moment of the write of `src`.
  abbrev pub seen : Moment (stores now w s src) → Segment
  seen m = at_moment apply (stores now w s src) (front (1 - s.header.front_idx)) s m

  -- The segment as the loads see it.
  unfoldable pub mix : Loads (stores now w s src) → Segment
  mix l = record s {
    header = record s.header {
      front_idx = (seen l.front_idx).header.front_idx;
      frame = (seen l.frame).header.frame;
      published_length = (seen l.published_length).header.published_length;
      timestamp_ns = (seen l.timestamp_ns).header.timestamp_ns;
      checksum = (seen l.checksum).header.checksum;
    };
    mem = λ o. (seen (l.byte o)).mem o;
  }

-- The frame of the front buffer, cut or stretched to `n` bytes.
abbrev pub resized : ℕ → Segment → Channel
resized n s = record {
  frame = current_frame s.header;
  payload = slice s.mem (front_start s.header) n;
}

module _ (now : ℤ) (w : Writer) (s : Segment) (src : List ℕ) (a : IsAttached w s)
    (fits : length src ≤ w.max_size) where
  seen-Kept : (m : Moment (stores now w s src)) → Kept s (length src) (seen now w s src m)
  seen-Kept m =
      at_moment-keeps apply (stores now w s src) (front (1 - s.header.front_idx)) s
        (IsBack s.header (length src)) (Kept s (length src))
        (λ x t b k. apply-Kept s (length src) x t a.segment b k) m
        (preparation-IsBack now w s src a fits) tt (Kept-refl s (length src))

  seen-front_idx :
      (xs : List Store) (among : AreAmong xs (stores now w s src))
      → (seen now w s src (during xs among)).header.front_idx ≡ s.header.front_idx
  seen-front_idx xs among =
      apply_all-front_idx xs s
        (All-AreAmong IsPreparing xs _ (preparation-IsPreparing now w s src a fits) among)

  module _ (l : Loads (stores now w s src)) where
    -- Before the reader sees the release, its index is the one before the write.
    mix-payload :
        (n : ℕ)
        → n ≤ s.header.capacity
        → slice (mix now w s src l).mem (front_start s.header) n
          ≡ slice s.mem (front_start s.header) n
    unfolding mix
    mix-payload n small =
        slice_ext _ s.mem (front_start s.header) n
          (λ o from to. (seen-Kept (l.byte o)).payload o from (omega (arith, small, to)))

    mix-old :
        (mix now w s src l).header.front_idx ≡ s.header.front_idx
        → (view (mix now w s src l) ≡ view s) ⊎ (view (mix now w s src l) ≡ resized (length src) s)
    unfolding mix
    mix-old e = elim ((seen-Kept l.published_length).size) [
      | inl same ↦ inl (
          ground (
            arith,
            e,
            same,
            (seen-Kept l.frame).number,
            mix-payload s.header.published_length a.segment.length,
          ))
      | inr new ↦
          inr (ground (arith, e, new, (seen-Kept l.frame).number, mix-payload (length src) room))
    ]
      where
        room : length src ≤ s.header.capacity
        room = omega (arith, fits, a.capacity)

    seen-written :
        (m : Moment (stores now w s src))
        → IsAfter l.front_idx m
        → l.front_idx ≡ finished
        → seen now w s src m ≡ written now w s src
    seen-written m after e =
        at_moment-IsAfter apply (stores now w s src) (front (1 - s.header.front_idx)) s m
          (subst (λ (f : Moment (stores now w s src)). IsAfter f m) e after)
        ∙ sym (stores-written now w s src a fits)

    mix-new :
        IsOrdered l
        → l.front_idx ≡ finished
        → view (mix now w s src l) ≡ Channel.publish src (view s)
    unfolding mix
    mix-new order e =
        ground (
          arith,
          seen-written l.front_idx (rw e tt) e,
          seen-written l.frame order.frame e,
          seen-written l.published_length order.published_length e,
          payload,
        )
        ∙ view-written now w s src a
      where
        payload :
            slice (mix now w s src l).mem (front_start (written now w s src).header) (length src)
            ≡ slice
                (written now w s src).mem
                (front_start (written now w s src).header)
                (length src)
        payload =
            slice_ext _ _ _ _ (λ o from to.
              ap (λ (t : Segment). t.mem o) (seen-written (l.byte o) (order.byte o) e))

    front_before :
        (xs : List Store) (among : AreAmong xs (stores now w s src))
        → l.front_idx ≡ during xs among
        → (mix now w s src l).header.front_idx ≡ s.header.front_idx
    unfolding mix
    front_before xs among e = rw e (seen-front_idx xs among)

    pub mix-cases :
        IsOrdered l
        → (view (mix now w s src l) ≡ view s)
          ⊎ (view (mix now w s src l) ≡ resized (length src) s)
          ⊎ (view (mix now w s src l) ≡ Channel.publish src (view s))
    unfolding mix
    mix-cases order = elim (Moment-cases l.front_idx) [
      | inl e ↦ inr (inr (mix-new order e))
      | inr (xs, among, e) ↦ elim (mix-old (front_before xs among e)) [
        | inl same ↦ inl same
        | inr cut ↦ inr (inl cut)
      ]
    ]

    mix-front : IsOrdered l → (mix now w s src l).header.front_idx < 2
    unfolding mix
    mix-front order = elim (Moment-cases l.front_idx) [
      | inl e ↦ ground (arith, seen-written l.front_idx (rw e tt) e)
      | inr (xs, among, e) ↦ omega (arith, front_before xs among e, a.segment.front)
    ]

    mix-length : (mix now w s src l).header.published_length ≤ s.header.capacity
    unfolding mix
    mix-length = elim ((seen-Kept l.published_length).size) [
      | inl same ↦ omega (arith, same, a.segment.length)
      | inr new ↦ omega (arith, new, fits, a.capacity)
    ]

    pub mix-IsConnected :
        (r : Reader) → IsConnected r s → IsOrdered l → IsConnected r (mix now w s src l)
    unfolding mix
    mix-IsConnected r c order = record {
      segment = record {
        magic = c.segment.magic;
        front = mix-front order;
        length = mix-length;
        holds = c.segment.holds;
      };
      ready = c.ready;
      base = c.base;
      mapped = c.mapped;
      first = c.first;
      second = c.second;
      capacity = c.capacity;
      reach = c.reach;
    }
