-- ===== src/Barq/Init.antt =====
-- What `init` and `destroy` of BARQ leave behind, and the descriptors and mappings they hold.
use sim_library_v.Prelude.{
  ℕ, ◌+◌, ◌^◌, ◌≤◌, ◌<◌, ◌≡◌, ◌⊎◌, ◌&&◌, inl, inr, refl, true, false, none, some, [], arith, leb,
  Bool, List, Option, ◌∷◌,
}
use sim_library_v.Align.{align_up, huge_page}
use sim_library_v.Align.Laws.{align_up-IsRoundUp}
use sim_library_v.Os.{shm_unlink, shm_open, ftruncate, failed, Call}
use sim_library_v.Memory.{slice, Mem}
use sim_library_v.Barq.Header.{Header, Segment, sizeof_header}
use sim_library_v.Barq.Writer
use sim_library_v.Barq.Writer.{Writer, segment_size}
use sim_library_v.Barq.Valid.{view, stride, stride_bounds, IsAttached}

-- The segment has room for the header and both buffers, with huge pages or without.
segment_size_holds :
    (huge : Bool) (max : ℕ)
    → max < 2 ^ 62
    → sizeof_header + (stride max + stride max) ≤ segment_size huge max
unfolding segment_size
segment_size_holds huge max h = ground (arith, stride_bounds max (omega arith), round)
  where
    round :
        sizeof_header + (stride max + stride max)
        ≤ align_up (sizeof_header + (stride max + stride max)) huge_page
    round =
        (align_up-IsRoundUp (sizeof_header + (stride max + stride max)) 21 (omega arith)
          (omega (arith, stride_bounds max))).covers

-- `init` past a mapping leaves the writer attached to an empty channel.
init_mapped_lem :
    (a : Writer.Answers) (w : Writer) (s : Segment) (calls : List Call) (base : ℕ)
    → w.frame_count ≡ 0
    → w.max_size < 2 ^ 62
    → sizeof_header + (stride w.max_size + stride w.max_size) ≤ w.shm_size
    → w.shm_size ≤ s.size
    → let i = Writer.init_mapped a w s calls base in
      (i.result ≡ true)
      × IsAttached i.writer i.segment
      × (view i.segment ≡ record { frame = 0; payload = [] })
unfolding Writer.init_mapped slice
init_mapped_lem a w s calls base zero_frames small reach size = (
  refl,
  record {
    segment = ground arith;
    ready = refl;
    base = base;
    mapped = refl;
    first = ground arith;
    second = ground arith;
    capacity = ground arith;
    reach = ground arith;
    count = ground arith;
    small = ground arith;
  },
  ground arith,
)

-- How `init` of a writer ends.
pub record Attaches (i : Writer.Init) : Type 0 where
  pub result : i.result ≡ true
  pub attached : IsAttached i.writer i.segment
  pub empty : view i.segment ≡ record { frame = 0; payload = [] }

pub record Fails (i : Writer.Init) (h : Header) (m : Mem) : Type 0 where
  pub result : i.result ≡ false
  pub unready : i.writer.initialized ≡ false
  pub header : i.segment.header ≡ h
  pub mem : i.segment.mem ≡ m

attaches :
    (a : Writer.Answers) (w : Writer) (s : Segment) (calls : List Call) (base : ℕ)
    → w.frame_count ≡ 0
    → w.max_size < 2 ^ 62
    → sizeof_header + (stride w.max_size + stride w.max_size) ≤ w.shm_size
    → w.shm_size ≤ s.size
    → Attaches (Writer.init_mapped a w s calls base)
attaches a w s calls base zero_frames small reach size =
    let (r, v, e) = init_mapped_lem a w s calls base zero_frames small reach size in
    record { result = r; attached = v; empty = e }

init_fallback_lem :
    (a : Writer.Answers) (w : Writer) (s : Segment) (fd : ℕ) (calls : List Call) (m : Option ℕ)
    → w.initialized ≡ false
    → w.frame_count ≡ 0
    → w.max_size < 2 ^ 62
    → sizeof_header + (stride w.max_size + stride w.max_size) ≤ w.shm_size
    → w.shm_size ≤ s.size
    → let i = Writer.init_fallback a w s fd calls m in
      (((base : ℕ) × (m ≡ some base)) × Attaches i) ⊎ ((m ≡ none) × Fails i s.header s.mem)
unfolding Writer.init_fallback
init_fallback_lem a w s fd calls none fresh zero_frames small reach size =
    inr (refl, record { result = refl; unready = fresh; header = refl; mem = refl })
init_fallback_lem a w s fd calls (some base) fresh zero_frames small reach size = inl (
  (base, refl),
  attaches a (record w { huge_pages_active = false }) s _ base zero_frames small reach size,
)

-- The mapping that `init` uses: the one with huge pages, where it is tried and succeeds, or the
-- regular one.
abbrev pub used_mapping : Writer.Answers → Bool → Option ℕ
used_mapping a false = a.mapped
used_mapping a true = elim a.huge_mapped [ none ↦ a.mapped | some base ↦ some base ]

init_huge_lem :
    (a : Writer.Answers) (w : Writer) (s : Segment) (fd : ℕ) (calls : List Call) (m : Option ℕ)
    → w.initialized ≡ false
    → w.frame_count ≡ 0
    → w.max_size < 2 ^ 62
    → sizeof_header + (stride w.max_size + stride w.max_size) ≤ w.shm_size
    → w.shm_size ≤ s.size
    → let i = Writer.init_huge a w s fd calls m in
      let answer : Option ℕ = elim m [ none ↦ a.mapped | some base ↦ some base ] in
      (((base : ℕ) × (answer ≡ some base)) × Attaches i)
      ⊎ ((answer ≡ none) × Fails i s.header s.mem)
unfolding Writer.init_huge
init_huge_lem a w s fd calls none fresh zero_frames small reach size =
    init_fallback_lem a (record w { ptr = failed }) s fd _ a.mapped fresh zero_frames small reach
      size
init_huge_lem a w s fd calls (some base) fresh zero_frames small reach size = inl (
  (base, refl),
  attaches a (record w { huge_pages_active = true }) s _ base zero_frames small reach size,
)

init_truncated_lem :
    (a : Writer.Answers) (w : Writer) (s : Segment) (fd : ℕ) (calls : List Call) (tried : Bool)
    → (w.use_huge_pages && leb huge_page w.shm_size) ≡ tried
    → w.initialized ≡ false
    → w.frame_count ≡ 0
    → w.max_size < 2 ^ 62
    → sizeof_header + (stride w.max_size + stride w.max_size) ≤ w.shm_size
    → let i = Writer.init_truncated a w s fd calls true in
      (((base : ℕ) × (used_mapping a tried ≡ some base)) × Attaches i)
      ⊎ ((used_mapping a tried ≡ none) × Fails i s.header s.mem)
unfolding Writer.init_truncated
init_truncated_lem a w s fd calls true t fresh zero_frames small reach =
    rw t (init_huge_lem a w _ fd calls a.huge_mapped fresh zero_frames small reach (omega arith))
init_truncated_lem a w s fd calls false t fresh zero_frames small reach =
    rw t (init_fallback_lem a w _ fd calls a.mapped fresh zero_frames small reach (omega arith))

-- `BARQ::Writer::init` of a new writer with a maximal size below 2^62, whose object is opened
-- and sized, returns true exactly when one of the two mappings succeeds: the one with huge
-- pages, if these are asked for and the segment is large enough, or else the one with regular
-- pages. It is then attached to an empty channel in a segment that holds both rounded buffers.
-- Otherwise it returns false and leaves header and memory alone.
pub huge_page_fallback :
    (a : Writer.Answers) (w : Writer) (s : Segment) (fd : ℕ)
    → w.initialized ≡ false
    → w.frame_count ≡ 0
    → w.max_size < 2 ^ 62
    → a.opened ≡ some fd
    → a.truncated ≡ true
    → let tried = w.use_huge_pages && leb huge_page (segment_size w.use_huge_pages w.max_size) in
      let answer = used_mapping a tried in
      let i = Writer.init a w s in
      (((base : ℕ) × (answer ≡ some base)) × Attaches i)
      ⊎ ((answer ≡ none) × Fails i s.header s.mem)
unfolding Writer.init Writer.init_opened
huge_page_fallback a w s fd fresh zero_frames small e f =
    rw (fresh, e, f)
      (init_truncated_lem (record a { opened = some fd; truncated = true })
        (record w {
          initialized = false;
          fd = some fd;
          shm_size = segment_size w.use_huge_pages w.max_size;
        })
        s fd
        (shm_unlink w.name
          ∷ shm_open w.name (some fd)
          ∷ ftruncate fd (segment_size w.use_huge_pages w.max_size) true
          ∷ [])
        _ refl refl zero_frames small (segment_size_holds w.use_huge_pages w.max_size small))
