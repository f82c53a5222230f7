-- ===== src/Barq/Read.antt =====
-- `getLatest` refines polling the channel, and how long its pointer is good.
use sim_library_v.Prelude.{
  ℕ, ◌+◌, ◌^◌, ◌≤◌, ◌<◌, ◌≡◌, ◌≢◌, ◌⊎◌, inl, inr, refl, true, Option, none, some, List, length,
  take, arith, ◌==◌, if◌then◌else◌, Bool-cases, add64, length-take, ap, sym, ◌∙◌,
}
use sim_library_v.Prelude.Int.{ℤ}
use sim_library_v.Align.{cache_line}
use sim_library_v.Channel
use sim_library_v.Memory.{slice, blit}
use sim_library_v.Memory.Laws.{slice-blit_self, slice-blit_apart}
use sim_library_v.Barq.Header.{Segment}
use sim_library_v.Barq.Writer.{Writer, write, set_metadata}
use sim_library_v.Barq.Reader.{Reader, Latest, get_latest, count_dropped}
use sim_library_v.Barq.Valid.{
  view, stride, stride_bounds, front_start, front_len, front_seq, back_start, IsAttached,
  IsConnected, Front-cases,
}
use sim_library_v.Barq.Write.{written, write-written, write_all, written-IsAttached}

-- The reader after a new frame.
abbrev after : Reader → Segment → Reader
after r s = record r {
  dropped = count_dropped r.last_seq (front_seq s.header) r.dropped;
  last_seq = front_seq s.header;
}

abbrev latest : Segment → Latest
latest s = record {
  pointer = some (front_start s.header);
  size = front_len s.header;
  timestamp_ns = if s.header.front_idx == 0 then s.header.ts0 else s.header.ts1;
}

get_latest_new :
    (r : Reader) (s : Segment)
    → IsConnected r s
    → front_seq s.header ≢ r.last_seq
    → get_latest r s ≡ some (some (latest s), after r s)
unfolding get_latest
get_latest_new r s v ne = elim (Front-cases v.segment) [
  | inl e ↦ ground arith
  | inr e ↦ ground arith
]

get_latest_old :
    (r : Reader) (s : Segment)
    → IsConnected r s
    → front_seq s.header ≡ r.last_seq
    → get_latest r s ≡ some (none, r)
unfolding get_latest
get_latest_old r s v same = elim (Front-cases v.segment) [
  | inl e ↦ ground arith
  | inr e ↦ ground arith
]

-- The bytes that a caller finds behind what `getLatest` returned.
abbrev pub bytes_of : Segment → Option Latest → Option (List ℕ)
bytes_of s none = none
bytes_of s (some l) = elim l.pointer [ none ↦ none | some o ↦ some (slice s.mem o l.size) ]

-- The bytes behind the pointer lie in the object.
abbrev pub IsInside : Segment → Option Latest → Type 0
IsInside s none = Unit
IsInside s (some l) = (o : ℕ) × (l.pointer ≡ some o) × (o + l.size ≤ s.size)

-- On a connected reader `getLatest` runs into no undefined behaviour, if the rounded size fits
-- 64 bits. The bytes behind the pointer that it returns lie in the object and are what polling
-- the channel with the last sequence number gives; it returns `nullptr` where polling gives
-- nothing. It remembers the number of the frame presented.
pub get_latest_refines :
    (r : Reader) (s : Segment)
    → IsConnected r s
    → r.max_size + cache_line ≤ 2 ^ 64
    → (result : Option Latest) × (r' : Reader) × (get_latest r s ≡ some (result, r'))
      × (bytes_of s result ≡ Channel.poll r.last_seq (view s))
      × IsInside s result
      × (r'.last_seq ≡ (view s).frame)
      × IsConnected r' s
unfolding Channel.poll
get_latest_refines r s v h = elim (Bool-cases (front_seq s.header == r.last_seq)) [
  | inl same ↦ (none, r, ground (arith, get_latest_old r s v), ground arith, tt, ground arith, v)
  | inr new ↦ (
    some (latest s),
    after r s,
    ground (arith, get_latest_new r s v),
    ground arith,
    (
      front_start s.header,
      refl,
      elim (Front-cases v.segment) [
        | inl e ↦ ground (arith, stride_bounds r.max_size h)
        | inr e ↦ ground (arith, stride_bounds r.max_size h)
      ],
    ),
    refl,
    ground arith,
  )
]

-- On a connected reader, for a frame later than the last one, with a count of dropped frames of
-- at most the last number: after the first frame `getLatest` adds the number of frames in
-- between to the count; of the first frame it counts none.
pub get_latest_counts_dropped :
    (r r' : Reader) (s : Segment) (result : Option Latest)
    → IsConnected r s
    → r.last_seq < (view s).frame
    → (view s).frame < 2 ^ 64
    → r.dropped ≤ r.last_seq
    → get_latest r s ≡ some (result, r')
    → ((r.last_seq ≡ 0) × (r'.dropped ≡ r.dropped))
      ⊎ ((0 < r.last_seq) × (r'.dropped + r.last_seq + 1 ≡ r.dropped + (view s).frame))
unfolding count_dropped
get_latest_counts_dropped r r' s result v newer small counted e =
    ground (arith, get_latest_new r s v)

-- One `write` of at most `max_size` bytes by an attached writer leaves the front buffer as it
-- was: a pointer from `getLatest` stays good.
pub front_survives :
    (now : ℤ) (w w' : Writer) (s s' : Segment) (bytes : List ℕ) (size : ℕ)
    → IsAttached w s
    → size ≤ w.max_size
    → size ≤ length bytes
    → write now w s bytes size ≡ some (true, w', s')
    → slice s'.mem (front_start s.header) s.header.capacity
      ≡ slice s.mem (front_start s.header) s.header.capacity
front_survives now w w' s s' bytes size v h k e = elim (Front-cases v.segment) [
  | inl f ↦ ground (arith, write-written now w s bytes size v h k, apart, room)
  | inr f ↦ ground (arith, write-written now w s bytes size v h k, apart, room)
]
  where
    room : (length (take size bytes) ≤ w.max_size) × (w.max_size ≤ stride w.max_size)
    room = omega (arith, length-take size bytes, stride_bounds w.max_size v.small)

    apart :
        (front_start s.header + s.header.capacity ≤ back_start s.header)
          ⊎ (back_start s.header + length (take size bytes) ≤ front_start s.header)
        → slice
            (blit s.mem (back_start s.header) (take size bytes))
            (front_start s.header)
            s.header.capacity
          ≡ slice s.mem (front_start s.header) s.header.capacity
    apart = slice-blit_apart s.mem _ (take size bytes) _ s.header.capacity

back_start-written :
    (now : ℤ) (w : Writer) (s : Segment) (bytes : List ℕ)
    → IsAttached w s
    → back_start (written now w s bytes).header ≡ front_start s.header
unfolding set_metadata
back_start-written now w s bytes v = elim (Front-cases v.segment) [
  | inl e ↦ ground arith
  | inr e ↦ ground arith
]

-- A connected reader, to whom the frame of the segment is new, gets from `getLatest` a pointer
-- behind which lie the frame's bytes. Two writes of at most `max_size` bytes by an attached writer
-- then succeed, with no regard for the reader: the first leaves the buffer at that pointer as it
-- was, the second puts its own bytes there.
pub second_write_overwrites :
    (now later : ℤ) (w : Writer) (r : Reader) (s : Segment) (bytes more : List ℕ)
    → IsAttached w s
    → IsConnected r s
    → front_seq s.header ≢ r.last_seq
    → length bytes ≤ w.max_size
    → length more ≤ w.max_size
    → (l : Latest) × (r' : Reader) × (o : ℕ) × (get_latest r s ≡ some (some l, r'))
      × (l.pointer ≡ some o)
      × (slice s.mem o l.size ≡ (view s).payload)
      × ((w' : Writer) × (s' : Segment) × (w'' : Writer) × (s'' : Segment) × (write now w s bytes
              (length bytes)
            ≡ some (true, w', s'))
          × (write later w' s' more (length more) ≡ some (true, w'', s''))
          × (slice s'.mem o s.header.capacity ≡ slice s.mem o s.header.capacity)
          × (slice s''.mem o (length more) ≡ more))
second_write_overwrites now later w r s bytes more v c new h k = (
  latest s,
  after r s,
  front_start s.header,
  get_latest_new r s c new,
  refl,
  refl,
  (
    w',
    s',
    record w' { frame_count = add64 w'.frame_count 1 },
    written later w' s' more,
    write_all now w s bytes v h,
    write_all later w' s' more (written-IsAttached now w s bytes v h) k,
    front_survives now w w' s s' bytes (length bytes) v h (omega arith)
        (write_all now w s bytes v h),
    ap (λ o. slice (blit s'.mem (back_start s'.header) more) o (length more))
          (sym (back_start-written now w s bytes v))
        ∙ slice-blit_self s'.mem (back_start s'.header) more,
  ),
)
  where
    w' : Writer
    w' = record w { frame_count = add64 w.frame_count 1 }

    s' : Segment
    s' = written now w s bytes
