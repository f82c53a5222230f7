-- ===== src/Casir/Read.antt =====
-- `read` of CASIR refines polling the channel.
use sim_library_v.Prelude.{ℕ, ◌≤◌, ◌≡◌, ◌≢◌, inl, inr, refl, none, some, arith, ◌==◌, Bool-cases}
use sim_library_v.Channel
use sim_library_v.Os
use sim_library_v.Casir.Header.{Segment}
use sim_library_v.Casir.Reader.{Reader, read, fetch, count_dropped, front_frame, front_timestamp}
use sim_library_v.Casir.Valid.{view, stride_bounds, IsConnected, Front-cases}

-- The reader after a new frame.
abbrev pub after : Reader → Segment → Reader
after r s = record r {
  last_frame = front_frame s.header;
  last_timestamp_ns = front_timestamp s.header;
  dropped_frames = count_dropped r.last_frame (front_frame s.header) r.dropped_frames;
}

module _ (r : Reader) (s : Segment) (room : ℕ) (v : IsConnected r s) where
  pub read_new :
      r.max_size ≤ room
      → front_frame s.header ≢ r.last_frame
      → read r s room ≡ some (some (view s).payload, after r s)
  unfolding read fetch
  read_new h ne =
      let bounds = stride_bounds s.header.capacity v.segment.small in
      elim (Front-cases v.segment) [
        | inl e ↦ ground (arith, bounds, v.segment.length, v.capacity, v.reach, v.segment.holds)
        | inr e ↦ ground (arith, bounds, v.segment.length, v.capacity, v.reach, v.segment.holds)
      ]

  pub read_old : front_frame s.header ≡ r.last_frame → read r s room ≡ some (none, r)
  unfolding read
  read_old same = elim (Front-cases v.segment) [ inl e ↦ ground arith | inr e ↦ ground arith ]

pub after-IsConnected : (r : Reader) (s : Segment) → IsConnected r s → IsConnected (after r s) s
after-IsConnected r s v = record {
  segment = v.segment;
  ready = v.ready;
  base = v.base;
  header = v.header;
  mapped = v.mapped;
  first = v.first;
  second = v.second;
  capacity = v.capacity;
  reach = v.reach;
}

pub read_refines_channel :
    (r : Reader) (s : Segment) (room : ℕ)
    → IsConnected r s
    → r.max_size ≤ room
    → (r' : Reader) × (read r s room ≡ some (Channel.poll r.last_frame (view s), r'))
      × IsConnected r' s
      × (r'.max_size ≡ r.max_size)
      × (r'.zero_copy_active ≡ r.zero_copy_active)
      × (r'.last_frame ≡ (view s).frame)
unfolding Channel.poll
read_refines_channel r s room v h = elim (Bool-cases (front_frame s.header == r.last_frame)) [
  | inl same ↦ (r, ground (arith, read_old r s room v), v, refl, refl, ground arith)
  | inr new ↦
      (after r s, ground (arith, read_new r s room v h), after-IsConnected r s v, refl, refl, refl)
]
