-- ===== src/Sim/Init.antt =====
-- What `init` leaves behind on each of its branches, for writer and reader.
use sim_library_v.Prelude.{
  ℕ, ◌+◌, ◌*◌, ◌^◌, ◌≤◌, ◌<◌, ◌≡◌, ◌⊎◌, inl, inr, refl, true, false, none, some, [], arith,
  Option-cases, Bool-cases,
}
use sim_library_v.Align.{align_to_cache_line}
use sim_library_v.Os.{null}
use sim_library_v.Memory.{slice}
use sim_library_v.Sim.Header.{Segment, calculate_shm_size, sizeof_header}
use sim_library_v.Sim.Writer
use sim_library_v.Sim.Writer.{Writer}
use sim_library_v.Sim.Reader
use sim_library_v.Sim.Reader.{Reader}
use sim_library_v.Sim.Valid.{view, payload_start, IsSegment, IsAttached, IsConnected}

payload_start_lem : align_to_cache_line sizeof_header ≡ payload_start
unfolding align_to_cache_line
payload_start_lem = refl

-- The segment has room for the header and both buffers.
shm_size_holds :
    (max : ℕ) → 2 * max + 232 < 2 ^ 64 → payload_start + (max + max) ≤ calculate_shm_size max
unfolding calculate_shm_size
shm_size_holds max h = omega arith

-- `Writer::init` of a new writer, if the size of the segment fits 64 bits, returns true exactly
-- when its three system calls succeed; it is then attached to an empty channel. On every other
-- branch it returns false, holds no resource, and leaves the header and the memory of the
-- segment alone.
pub writer_init_lem :
    (a : Writer.Answers) (w : Writer) (s : Segment)
    → w.is_initialized ≡ false
    → w.shm_ptr ≡ null
    → w.frame_count ≡ 0
    → 2 * w.max_size + 232 < 2 ^ 64
    → let i = Writer.init a w s in
      ((i.result ≡ true)
        × IsAttached i.writer i.segment
        × (view i.segment ≡ record { frame = 0; payload = [] })
        × ((fd : ℕ) × (a.opened ≡ some fd))
        × (a.truncated ≡ true)
        × ((base : ℕ) × (a.mapped ≡ some base)))
      ⊎ ((i.result ≡ false)
          × (i.writer.is_initialized ≡ false)
          × (i.writer.shm_fd ≡ none)
          × (i.writer.shm_ptr ≡ null)
          × (i.segment.header ≡ s.header)
          × (i.segment.mem ≡ s.mem)
          × ((a.opened ≡ none) ⊎ (a.truncated ≡ false) ⊎ (a.mapped ≡ none)))
unfolding Writer.init slice
writer_init_lem a w s fresh unmapped zero_frames h = elim (Option-cases a.opened) [
  | inl e ↦ inr (ground arith)
  | inr (fd, e) ↦ elim (Bool-cases a.truncated) [
    | inr f ↦ inr (ground arith)
    | inl f ↦ elim (Option-cases a.mapped) [
      | inl g ↦ inr (ground arith)
      | inr (base, g) ↦ inl (
        ground arith,
        record {
          segment = ground (arith, shm_size_holds w.max_size h);
          ready = ground arith;
          base = base;
          mapped = ground arith;
          first = ground (arith, payload_start_lem);
          second = ground (arith, payload_start_lem);
          capacity = ground arith;
          reach = ground (arith, shm_size_holds w.max_size h);
          count = ground arith;
        },
        ground arith,
        (fd, e),
        f,
        (base, g),
      )
    ]
  ]
]

-- `Reader::init` reads nothing beyond an object that holds the header.
pub reader_init_runs :
    (a : Reader.Answers) (r : Reader) (s : Segment)
    → (a.opened ≡ none) ⊎ (a.mapped ≡ none) ⊎ (sizeof_header ≤ s.size)
    → (i : Reader.Init) × (Reader.init a r s ≡ some i)
unfolding Reader.init
reader_init_runs a r s safe = elim (Option-cases (Reader.init a r s)) [
  | inr found ↦ found
  | inl fault ↦ absurd (ground (arith, fault, safe))
]

-- `Reader::init` of a new reader on a segment that a writer of the same capacity initialized, if
-- its size fits 64 bits, returns true exactly when its two system calls succeed; it is then
-- connected. On every other branch it returns false and holds no resource.
pub reader_init_lem :
    (a : Reader.Answers) (r : Reader) (s : Segment) (i : Reader.Init)
    → Reader.init a r s ≡ some i
    → r.is_initialized ≡ false
    → r.shm_ptr ≡ null
    → 2 * r.max_size + 232 < 2 ^ 64
    → IsSegment s
    → s.header.capacity ≡ r.max_size
    → ((i.result ≡ true)
        × IsConnected i.reader s
        × (i.reader.last_frame ≡ r.last_frame)
        × ((fd : ℕ) × (a.opened ≡ some fd))
        × ((base : ℕ) × (a.mapped ≡ some base)))
      ⊎ ((i.result ≡ false)
          × (i.reader.is_initialized ≡ false)
          × (i.reader.shm_fd ≡ none)
          × (i.reader.shm_ptr ≡ null)
          × ((a.opened ≡ none) ⊎ (a.mapped ≡ none)))
unfolding Reader.init
reader_init_lem a r s i ran fresh unmapped h v cap = elim (Option-cases a.opened) [
  | inl e ↦ inr (ground (arith, ran))
  | inr (fd, e) ↦ elim (Option-cases a.mapped) [
    | inl g ↦ inr (ground (arith, ran))
    | inr (base, g) ↦ inl (
      ground (arith, ran),
      record {
        segment = v;
        ready = ground (arith, ran);
        base = base;
        mapped = ground (arith, ran);
        first = ground (arith, ran, payload_start_lem);
        second = ground (arith, ran, payload_start_lem);
        capacity = ground (arith, ran);
        reach = ground (arith, ran, shm_size_holds r.max_size h);
      },
      ground (arith, ran),
      (fd, e),
      (base, g),
    )
  ]
]
