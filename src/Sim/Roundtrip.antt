-- ===== src/Sim/Roundtrip.antt =====
-- What one side writes the other reads, and what the checksum says of it.
use sim_library_v.Prelude.{
  ℕ, ◌≤◌, ◌≡◌, ◌≢◌, ap, ◌∙◌, inl, inr, refl, true, false, some, List, length, take, length-take,
  arith, add64,
}
use sim_library_v.Prelude.Int.{ℤ}
use sim_library_v.Channel
use sim_library_v.Channel.{Channel}
use sim_library_v.Sim.Checksum.{calculate_checksum, checksum_disabled}
use sim_library_v.Sim.Header.{Segment}
use sim_library_v.Sim.Writer.{Writer, write, set_checksum_enabled}
use sim_library_v.Sim.Reader.{Reader, read, checksum_valid}
use sim_library_v.Sim.Valid.{view, current_frame, IsAttached, IsConnected, Front-cases}
use sim_library_v.Sim.Write.{written, write-written, view-written}
use sim_library_v.Sim.Read.{read_new, after, back_of}

pub written-IsConnected :
    (now : ℤ) (w : Writer) (r : Reader) (s : Segment) (bytes : List ℕ)
    → IsAttached w s
    → IsConnected r s
    → length bytes ≤ w.max_size
    → IsConnected r (written now w s bytes)
written-IsConnected now w r s bytes a c h = elim (Front-cases c.segment) [
  | inl e ↦ ground arith
  | inr e ↦ ground arith
]

-- The frame just written.
module _ (now : ℤ) (w : Writer) (s : Segment) (bytes : List ℕ) (a : IsAttached w s) where
  pub frame-written : current_frame (written now w s bytes).header ≡ add64 w.frame_count 1
  frame-written = elim (Front-cases a.segment) [ inl e ↦ ground arith | inr e ↦ ground arith ]

  pub payload-written : (view (written now w s bytes)).payload ≡ bytes
  payload-written = ap (λ (c : Channel). c.payload) (view-written now w s bytes a) ∙ published
    where
      published : (Channel.publish bytes (view s)).payload ≡ bytes
      published = unfold Channel.publish in refl

  -- What a reader takes from it.
  module _ (r : Reader) where
    timestamp-written : (after r (written now w s bytes)).last_timestamp_ns ≡ now
    timestamp-written = elim (Front-cases a.segment) [ inl e ↦ ground arith | inr e ↦ ground arith ]

    checksum-written :
        s.header.checksum_enabled ≡ w.enable_checksum
        → (after r (written now w s bytes)).last_checksum_valid ≡ true
    unfolding checksum_valid
    checksum-written agree = elim (Front-cases a.segment) [
      | inl e ↦ ground (arith, payload-written)
      | inr e ↦ ground (arith, payload-written)
    ]

-- A frame of at most `max_size` bytes that an attached writer writes is read back byte for byte
-- by a connected reader with room for `max_size` bytes whose last frame has another number: with
-- the writer's time stamp, and, since the segment's checksum flag is the writer's, with a valid
-- checksum.
pub write-read :
    (now : ℤ) (w : Writer) (r : Reader) (s : Segment) (bytes : List ℕ) (size room : ℕ)
    → IsAttached w s
    → IsConnected r s
    → size ≤ w.max_size
    → size ≤ length bytes
    → r.max_size ≤ room
    → s.header.checksum_enabled ≡ w.enable_checksum
    → add64 w.frame_count 1 ≢ r.last_frame
    → (w' : Writer) × (s' : Segment) × (r' : Reader) × (write now w s (some bytes) size
        ≡ some (true, w', s'))
      × (read r s' (some room) ≡ some (some (take size bytes), r'))
      × (r'.last_frame ≡ add64 w.frame_count 1)
      × (r'.last_timestamp_ns ≡ now)
      × (r'.last_checksum_valid ≡ true)
write-read now w r s bytes size room a c h k fits agree ne = (
  record w { frame_count = add64 w.frame_count 1 },
  s',
  after r s',
  write-written now w s bytes size a h k,
  read_new r s' room
        (written-IsConnected now w r s bytes' a c (omega (arith, length-take size bytes))) fits
        (rw (frame-written now w s bytes' a) ne)
      ∙ ap (λ (p : List ℕ). some (some p, after r s')) (payload-written now w s bytes' a),
  frame-written now w s bytes' a,
  timestamp-written now w s bytes' a r,
  checksum-written now w s bytes' a r agree,
)
  where
    bytes' : List ℕ
    bytes' = take size bytes

    s' : Segment
    s' = written now w s bytes'

-- The checksum left over from an earlier frame in the buffer that the next frame goes to.
abbrev pub stale_checksum : Segment → ℕ
stale_checksum s = back_of s.header.front_idx s.header.checksum

abbrev switch_on : Segment → Segment
switch_on s = record s { header = record s.header { checksum_enabled = true } }

switch_on-IsConnected : (r : Reader) (s : Segment) → IsConnected r s → IsConnected r (switch_on s)
switch_on-IsConnected r s c = ground arith

flagged :
    (now : ℤ) (w : Writer) (r : Reader) (s : Segment) (bytes : List ℕ)
    → IsAttached w s
    → w.enable_checksum ≡ false
    → stale_checksum s ≢ checksum_disabled
    → stale_checksum s ≢ calculate_checksum bytes
    → (after r (switch_on (written now w s bytes))).last_checksum_valid ≡ false
unfolding checksum_valid
flagged now w r s bytes a off live stale = elim (Front-cases a.segment) [
  | inl e ↦ ground (arith, payload-written now w s bytes a)
  | inr e ↦ ground (arith, payload-written now w s bytes a)
]

-- A frame of at most `max_size` bytes that an attached writer writes while checksums are off,
-- and that a connected reader, to whom it is new, reads after `setChecksumEnabled(true)`,
-- arrives intact but is reported as corrupted, whenever its buffer still has a checksum of an
-- earlier frame that is not the frame's own.
pub enabling_flags_intact_frame :
    (now : ℤ) (w : Writer) (r : Reader) (s : Segment) (bytes : List ℕ) (size room : ℕ)
    → IsAttached w s
    → IsConnected r s
    → size ≤ w.max_size
    → size ≤ length bytes
    → r.max_size ≤ room
    → add64 w.frame_count 1 ≢ r.last_frame
    → w.enable_checksum ≡ false
    → stale_checksum s ≢ checksum_disabled
    → stale_checksum s ≢ calculate_checksum (take size bytes)
    → (w' : Writer) × (s' : Segment) × (r' : Reader) × (write now w s (some bytes) size
        ≡ some (true, w', s'))
      × (read r (set_checksum_enabled true w' s').1 (some room) ≡ some (some (take size bytes), r'))
      × (r'.last_checksum_valid ≡ false)
enabling_flags_intact_frame now w r s bytes size room a c h k fits ne off live stale = (
  record w { frame_count = add64 w.frame_count 1 },
  s',
  after r (switch_on s'),
  write-written now w s bytes size a h k,
  rw enabled (
      read_new r (switch_on s') room
        (switch_on-IsConnected r s'
          (written-IsConnected now w r s bytes' a c (omega (arith, length-take size bytes))))
        fits (rw (frame-written now w s bytes' a) ne)
      ∙ ap (λ (p : List ℕ). some (some p, after r (switch_on s')))
          (payload-written now w s bytes' a)),
  flagged now w r s bytes' a off live stale,
)
  where
    bytes' : List ℕ
    bytes' = take size bytes

    s' : Segment
    s' = written now w s bytes'

    enabled :
        (set_checksum_enabled true (record w { frame_count = add64 w.frame_count 1 }) s').1
        ≡ switch_on s'
    enabled = unfold set_checksum_enabled in ground arith
