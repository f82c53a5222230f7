-- ===== src/Casir/ZeroCopy.antt =====
-- `readZeroCopy` of CASIR: what it lends, and until when it lends nothing more.
use sim_library_v.Prelude.{
  ℕ, ◌+◌, ◌≤◌, ◌≡◌, ◌≢◌, inl, inr, refl, true, false, Option, none, some, List, arith, ◌==◌,
  Bool-cases,
}
use sim_library_v.Channel
use sim_library_v.Memory.{slice}
use sim_library_v.Casir.Header.{Segment}
use sim_library_v.Casir.Reader.{
  Reader, Lent, read_zero_copy, release_zero_copy, front_frame, front_timestamp,
}
use sim_library_v.Casir.Valid.{view, front_start, stride_bounds, IsConnected, Front-cases}

-- The bytes that a caller finds behind what `readZeroCopy` returned.
abbrev pub bytes_of : Segment → Option Lent → Option (List ℕ)
bytes_of s none = none
bytes_of s (some l) = elim l.pointer [ none ↦ none | some o ↦ some (slice s.mem o l.size) ]

-- The bytes behind the pointer lie in the object.
abbrev pub IsInside : Segment → Option Lent → Type 0
IsInside s none = Unit
IsInside s (some l) = (o : ℕ) × (l.pointer ≡ some o) × (o + l.size ≤ s.size)

-- The reader that holds the new frame.
abbrev pub holding : Reader → Segment → Reader
holding r s = record r {
  last_frame = front_frame s.header;
  last_timestamp_ns = front_timestamp s.header;
  zero_copy_active = true;
}

abbrev pub lent : Segment → Lent
lent s = record { pointer = some (front_start s.header); size = s.header.published_length }

module _ (r : Reader) (s : Segment) (v : IsConnected r s) (free : r.zero_copy_active ≡ false) where
  lend_new :
      front_frame s.header ≢ r.last_frame → read_zero_copy r s ≡ some (some (lent s), holding r s)
  unfolding read_zero_copy
  lend_new ne = elim (Front-cases v.segment) [ inl e ↦ ground arith | inr e ↦ ground arith ]

  lend_old : front_frame s.header ≡ r.last_frame → read_zero_copy r s ≡ some (none, r)
  unfolding read_zero_copy
  lend_old same = elim (Front-cases v.segment) [ inl e ↦ ground arith | inr e ↦ ground arith ]

-- On a connected reader that holds no frame, `readZeroCopy` runs into no undefined behaviour.
-- The bytes behind the pointer lie in the object and are what polling the channel gives; where
-- it gives nothing the result is `nullptr`. It remembers the number of the frame, and leaves the
-- count of dropped frames as it was, whatever was dropped.
pub zero_copy_lends :
    (r : Reader) (s : Segment)
    → IsConnected r s
    → r.zero_copy_active ≡ false
    → (result : Option Lent) × (r' : Reader) × (read_zero_copy r s ≡ some (result, r'))
      × (bytes_of s result ≡ Channel.poll r.last_frame (view s))
      × IsInside s result
      × (r'.last_frame ≡ (view s).frame)
      × (r'.dropped_frames ≡ r.dropped_frames)
unfolding Channel.poll
zero_copy_lends r s v free = elim (Bool-cases (front_frame s.header == r.last_frame)) [
  | inl same ↦ (none, r, ground (arith, lend_old r s v free), ground arith, tt, ground arith, refl)
  | inr new ↦
      let room = stride_bounds s.header.capacity v.segment.small in
      (
        some (lent s),
        holding r s,
        ground (arith, lend_new r s v free),
        ground arith,
        (
          front_start s.header,
          refl,
          elim (Front-cases v.segment) [
            | inl e ↦ ground (arith, room, v.segment.length, v.segment.holds)
            | inr e ↦ ground (arith, room, v.segment.length, v.segment.holds)
          ],
        ),
        refl,
        refl,
      )
]

lend_busy :
    (r : Reader) (s : Segment) → r.zero_copy_active ≡ true → read_zero_copy r s ≡ some (none, r)
unfolding read_zero_copy
lend_busy r s busy = ground arith

-- A frame is handed out only by a reader that holds none, and only a new one.
lent_once :
    (r r' : Reader) (s : Segment) (l : Lent)
    → IsConnected r s
    → read_zero_copy r s ≡ some (some l, r')
    → (r.zero_copy_active ≡ false) × (front_frame s.header ≢ r.last_frame) × (r' ≡ holding r s)
lent_once r r' s l v e = elim (Bool-cases r.zero_copy_active) [
  | inl busy ↦ ground (arith, lend_busy r s busy)
  | inr free ↦ elim (Bool-cases (front_frame s.header == r.last_frame)) [
    | inl same ↦ ground (arith, lend_old r s v free)
    | inr new ↦ (free, ground arith, ground (arith, lend_new r s v free))
  ]
]

holding-IsConnected :
    (r : Reader) (s t : Segment) → IsConnected r t → IsConnected (release_zero_copy (holding r s)) t
unfolding release_zero_copy
holding-IsConnected r s t v = record {
  segment = v.segment;
  ready = v.ready;
  base = v.base;
  header = v.header;
  mapped = v.mapped;
  first = v.first;
  second = v.second;
  capacity = v.capacity;
  reach = v.reach;
}

-- A connected reader that got a frame in place gets no other one, on any segment, until it calls
-- `releaseZeroCopy`. After that it does not get the same frame again, and from a connected
-- segment with another frame number it does get one.
pub zero_copy_locks :
    (r r' : Reader) (s : Segment) (l : Lent)
    → IsConnected r s
    → read_zero_copy r s ≡ some (some l, r')
    → ((t : Segment) → read_zero_copy r' t ≡ some (none, r'))
      × (read_zero_copy (release_zero_copy r') s ≡ some (none, release_zero_copy r'))
      × ((t : Segment)
          → IsConnected r t
          → front_frame t.header ≢ front_frame s.header
          → read_zero_copy (release_zero_copy r') t ≡ some (some (lent t), holding r' t))
unfolding release_zero_copy
zero_copy_locks r r' s l v e =
    let (free, new, same) = lent_once r r' s l v e in
    let kept = holding-IsConnected r s in
    (
      λ t. ground (arith, same, lend_busy (holding r s) t),
      ground (arith, same, lend_old (release_zero_copy (holding r s)) s (kept s v) refl refl),
      λ t u ne.
          ground (arith, same, lend_new (release_zero_copy (holding r s)) t (kept t u) refl ne),
    )
