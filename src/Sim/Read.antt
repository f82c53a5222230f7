-- ===== src/Sim/Read.antt =====
-- `read` refines polling the channel: it delivers the frame that the segment presents, once, and
-- counts the frames in between.
use sim_library_v.Prelude.{
  ℕ, ◌+◌, ◌^◌, ◌≤◌, ◌<◌, ◌≡◌, ◌≢◌, ◌⊎◌, inl, inr, Option, none, some, List, arith, ◌==◌,
  if◌then◌else◌, Bool-cases, refl,
}
use sim_library_v.Channel
use sim_library_v.Memory.{Two}
use sim_library_v.Memory.Laws.{length-slice}
use sim_library_v.Sim.Header.{Header, Segment}
use sim_library_v.Sim.Reader.{Reader, read, count_dropped, checksum_valid}
use sim_library_v.Sim.Valid.{view, front_start, current_frame, IsConnected, Front-cases}

-- The front element, for a front index below 2.
abbrev pub front_of {ℓ} : {A : Type ℓ} → ℕ → Two A → A
front_of front a = if front == 0 then a.at_0 else a.at_1

abbrev pub back_of {ℓ} : {A : Type ℓ} → ℕ → Two A → A
back_of front a = if front == 0 then a.at_1 else a.at_0

-- The reader after a new frame.
abbrev pub after : Reader → Segment → Reader
after r s = record r {
  last_frame = current_frame h;
  last_timestamp_ns = front_of h.front_idx h.timestamp_ns;
  dropped_frames = count_dropped r.last_frame (current_frame h) r.dropped_frames;
  last_checksum_valid =
      checksum_valid h.checksum_enabled (front_of h.front_idx h.checksum) (view s).payload;
}
  where
    h : Header
    h = s.header

pub read_new :
    (r : Reader) (s : Segment) (room : ℕ)
    → IsConnected r s
    → r.max_size ≤ room
    → current_frame s.header ≢ r.last_frame
    → read r s (some room) ≡ some (some (view s).payload, after r s)
unfolding read
read_new r s room v h ne = elim (Front-cases v.segment) [
  | inl e ↦ ground (arith, length-slice s.mem (front_start s.header) s.header.published_length)
  | inr e ↦ ground (arith, length-slice s.mem (front_start s.header) s.header.published_length)
]

pub read_old :
    (r : Reader) (s : Segment) (room : ℕ)
    → IsConnected r s
    → current_frame s.header ≡ r.last_frame
    → read r s (some room) ≡ some (none, r)
unfolding read
read_old r s room v same = elim (Front-cases v.segment) [
  | inl e ↦ ground arith
  | inr e ↦ ground arith
]

after-IsConnected : (r : Reader) (s : Segment) → IsConnected r s → IsConnected (after r s) s
after-IsConnected r s v = ground arith

-- On a connected reader with a destination of at least `max_size` bytes, `read` runs into no
-- undefined behaviour. It delivers what polling the channel with the last frame number gives,
-- remembers the number of the frame presented, and stays connected.
pub read_refines :
    (r : Reader) (s : Segment) (room : ℕ)
    → IsConnected r s
    → r.max_size ≤ room
    → (r' : Reader) × (read r s (some room) ≡ some (Channel.poll r.last_frame (view s), r'))
      × IsConnected r' s
      × (r'.last_frame ≡ (view s).frame)
unfolding Channel.poll
read_refines r s room v fits = elim (Bool-cases (current_frame s.header == r.last_frame)) [
  | inl same ↦ (r, ground (arith, read_old r s room v), v, ground arith)
  | inr new ↦ (after r s, ground (arith, read_new r s room v fits), after-IsConnected r s v, refl)
]

-- On a connected reader with room for `max_size` bytes, whose last frame is not later than the
-- one presented and whose count of dropped frames is at most its last frame's number: a read of
-- a later frame adds the number of frames in between to the count; a read that finds no new
-- frame leaves the reader as it was.
pub read_counts_dropped :
    (r r' : Reader) (s : Segment) (room : ℕ) (result : Option (List ℕ))
    → IsConnected r s
    → r.max_size ≤ room
    → r.last_frame ≤ (view s).frame
    → (view s).frame < 2 ^ 64
    → r.dropped_frames ≤ r.last_frame
    → read r s (some room) ≡ some (result, r')
    → ((r.last_frame ≡ (view s).frame) × (result ≡ none) × (r' ≡ r))
      ⊎ ((result ≡ some (view s).payload)
          × (r'.dropped_frames + r.last_frame + 1 ≡ r.dropped_frames + (view s).frame))
unfolding count_dropped
read_counts_dropped r r' s room result v fits ordered small counted e =
    elim (Bool-cases (current_frame s.header == r.last_frame)) [
      | inl same ↦ ground (arith, read_old r s room v)
      | inr new ↦ ground (arith, read_new r s room v fits)
    ]
