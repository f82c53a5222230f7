-- ===== src/Demo/Sahm/Looks.antt =====
-- What a round of examples/sahm_reader.cpp keeps.
use sim_library_v.Prelude.{
  ℕ, suc, ◌-◌, ◌%◌, ◌<◌, ◌≤◌, ◌≡◌, inl, inr, refl, ap, ◌∙◌, Option, none, some, List, [], ◌∷◌, ◌++◌,
  length, arith, ltb, Bool-cases, if◌then◌else◌,
}
use sim_library_v.Prelude.Int.{ℤ, ◌-ℤ◌, div_ℕ, lt_ℕ}
use sim_library_v.Memory.{slice}
use sim_library_v.Memory.Stores.{All, All-append}
use sim_library_v.Sahm.Ring.{Ring}
use sim_library_v.Sahm.Writer.{Info}
use sim_library_v.Sahm.Reader.{
  Found, get_latest, get_total_writes, get_write_index, is_writer_alive,
}
use sim_library_v.Sahm.History.{Presents}
use sim_library_v.Sahm.Latest.{bytes_of, newest, get_latest-newest, get_latest_timestamp_ns_lem}
use sim_library_v.Sahm.Repeat.{IsOneOf-IsReady}
use sim_library_v.Demo.Frame.{data_size, frame}
use sim_library_v.Demo.Frame.Laws.{of_bytes-frame}
use sim_library_v.Demo.Sahm.{
  Line, received, writer_timeout, log_frame, take_frame, take_new, receive_round,
}
use sim_library_v.Demo.Sahm.Run.{System, receive, step, IsSystem, IsGood}

module _ (now time : ℤ) (i : Info) (base left : ℕ) (frames : ℕ → List (List ℕ)) (x : System)
    (v : IsSystem i base left frames x) where
  open x use {sending, world, receiving}

  abbrev ring : Ring
  ring = world.rings i.object

  presents : Presents i.ring_size ring (frames i.object)
  presents =
      (IsOneOf-IsReady data_size i sending.writer.readers world.rings frames v.rings v.found
        v.valid).presents

  total_lem : get_total_writes receiving.reader ring ≡ length (frames i.object)
  unfolding get_total_writes
  total_lem = ground (arith, v.mapped.1, presents.count)

  index_lem : get_write_index receiving.reader ring ≡ length (frames i.object) % i.ring_size
  unfolding get_write_index
  index_lem = ground (arith, v.mapped.1, presents.count, v.attached.ring_ok.index)

  -- The line about the latest frame.
  log_lem :
      (older : List (List ℕ))
      → frames i.object ≡ frame (sending.sequence - 1) ∷ older
      → (lines : List Line) × (log : ℤ) × (log_frame now
            (length (frames i.object))
            receiving
            ring
            (sending.sequence - 1)
          ≡ some (lines, log))
        × All (IsGood i.ring_size base (length (frames i.object))) lines
  unfolding log_frame
  log_lem older e =
      let one : length (frames i.object) ≡ suc (length older) = ap length e in
      let (stamp, stamped) =
        get_latest_timestamp_ns_lem i.ring_size receiving.reader ring v.attached (length older)
          (presents.count ∙ one) in
      elim (Bool-cases (lt_ℕ (div_ℕ (now -ℤ receiving.last_log) 1000000000) 1)) [
        | inl quiet ↦ ([], receiving.last_log, rw quiet refl, tt)
        | inr log ↦ (
          received (sending.sequence - 1) (length (frames i.object))
                (get_write_index receiving.reader ring)
              ∷ [],
          now,
          rw (log, stamped) refl,
          ((refl, omega (arith, v.count, one), index_lem), tt),
        )
      ]

  -- The branch of a round in which there are new frames.
  take_lem :
      receiving.last_total < length (frames i.object)
      → (lines : List Line) × (log : ℤ) × (take_new now (length (frames i.object)) receiving ring
          ≡ some
              (lines, record receiving { last_total = length (frames i.object); last_log = log }))
        × All (IsGood i.ring_size base (length (frames i.object))) lines
  unfolding take_new take_frame
  take_lem later = elim v.latest [
    | inl none_yet ↦ absurd (omega (arith, later, ap length none_yet))
    | inr (older, e) ↦
        let (lines, log, logged, good) = log_lem older e in
        let (result, found, bytes) =
          get_latest-newest i.ring_size receiving.reader ring (frames i.object) v.attached
            presents in
        (lines, log, taken older e lines log logged result found bytes, good)
  ]
    where
      taken :
          (older : List (List ℕ))
          → frames i.object ≡ frame (sending.sequence - 1) ∷ older
          → (lines : List Line) (log : ℤ)
          → log_frame now (length (frames i.object)) receiving ring (sending.sequence - 1)
            ≡ some (lines, log)
          → (result : Option Found) → get_latest receiving.reader ring ≡ some result
          → bytes_of ring result ≡ newest (frames i.object)
          → take_new now (length (frames i.object)) receiving ring
            ≡ some
                (lines, record receiving { last_total = length (frames i.object); last_log = log })
      taken older e lines log logged none found bytes = absurd (ground (arith, bytes, e))
      taken older e lines log logged (some f) found bytes =
          let shown : slice ring.mem f.pointer f.size ≡ frame (sending.sequence - 1) =
            ground (arith, bytes, e) in
          let (size, number) =
            of_bytes-frame (sending.sequence - 1) ring.mem f.pointer f.size
              (omega (arith, v.few_frames)) shown in
          ground (arith, found, size, number, logged)

  -- The reader's variables after a round.
  abbrev looked : ℕ → ℤ → System
  looked total log = record x {
    receiving = record receiving { last_total = total; last_log = log };
  }

  looked-IsSystem :
      (total : ℕ) (log : ℤ)
      → total ≤ length (frames i.object)
      → IsSystem i base left frames (looked total log)
  looked-IsSystem total log h = record {
    ready = v.ready;
    max = v.max;
    stable = v.stable;
    apart = v.apart;
    rings = v.rings;
    few = v.few;
    few_frames = v.few_frames;
    found = v.found;
    valid = v.valid;
    attached = v.attached;
    mapped = v.mapped;
    count = v.count;
    latest = v.latest;
    last = h;
  }

  late : List Line
  late =
      if is_writer_alive time receiving.reader world.control 2000 then [] else writer_timeout ∷ []

  late-IsGood : All (IsGood i.ring_size base (length (frames i.object))) late
  unfolding late
  late-IsGood = elim (Bool-cases (is_writer_alive time receiving.reader world.control 2000)) [
    | inl alive ↦ rw alive tt
    | inr dead ↦ rw dead (tt, tt)
  ]

  pub receive_step :
      (lines : List Line) × (y : System) × (step i.object (receive now time) x ≡ some (lines, y))
      × All (IsGood i.ring_size base (length (frames i.object))) lines
      × IsSystem i base left frames y
      × (y.sending.sequence ≡ sending.sequence)
      × (y.receiving.last_total ≡ length (frames i.object))
  unfolding step receive_round late
  receive_step = elim (Bool-cases (ltb receiving.last_total (length (frames i.object)))) [
    | inl later ↦
        let (lines, log, done, good) = take_lem (ground (arith, later)) in
        (
          lines ++ late,
          looked (length (frames i.object)) log,
          rw (total_lem, later, done) refl,
          All-append (IsGood i.ring_size base (length (frames i.object))) lines late good
              late-IsGood,
          looked-IsSystem (length (frames i.object)) log (omega arith),
          refl,
          refl,
        )
    | inr old ↦
        (late, x, rw (total_lem, old) refl, late-IsGood, v, refl, ground (arith, old, v.last))
  ]
