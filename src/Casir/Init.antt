-- ===== src/Casir/Init.antt =====
-- What `init` of a CASIR writer leaves behind.
use sim_library_v.Prelude.{
  ℕ, ◌+◌, ◌*◌, ◌^◌, ◌≤◌, ◌<◌, ◌≡◌, ◌⊎◌, ◌&&◌, inl, inr, refl, true, false, Option, none, some, List,
  [], ◌∷◌, ◌++◌, arith, Bool, Bool-cases, if◌then◌else◌, ◌/◌, ltb, leb, not, ◌||◌, add64, sub64,
}
use sim_library_v.Prelude.Int.{pos}
use sim_library_v.Align.{align_to_huge_page}
use sim_library_v.Align.Laws.{align_to_huge_page-IsRoundUp}
use sim_library_v.Os.{shm_unlink, shm_open, ftruncate, Call}
use sim_library_v.Cache.{HugePagesInfo, should_use_huge_pages}
use sim_library_v.Memory.{slice, Mem}
use sim_library_v.Casir.Header.{Header, Segment, sizeof_header}
use sim_library_v.Casir.Writer
use sim_library_v.Casir.Writer.{Writer, segment_size, base_size, affinity}
use sim_library_v.Casir.Valid.{view, stride, stride_bounds, IsAttached}

-- The room that both buffers and the header need.
abbrev pub needed : ℕ → ℕ
needed max = sizeof_header + (stride max + stride max)

-- With a positive page size the decision on huge pages is made.
decides :
    (pages : HugePagesInfo) (huge : Bool) (size : ℕ)
    → 0 < pages.page_size
    → (b : Bool) × ((if huge then should_use_huge_pages pages size else some false) ≡ some b)
unfolding should_use_huge_pages
decides pages false size p = (false, refl)
decides pages true size p = elim (Bool-cases (ltb size (1024 * 1024) || not pages.usable)) [
  | inl small ↦ (false, ground (arith, small))
  | inr large ↦ (
    leb (sub64 (add64 size pages.page_size) 1 / pages.page_size) pages.free,
    ground (arith, large),
  )
]

-- The segment then has room for the header and both buffers, whatever the decision.
segment_size_holds :
    (pages : HugePagesInfo) (huge : Bool) (max : ℕ)
    → max < 2 ^ 62
    → 0 < pages.page_size
    → (size : ℕ) × (segment_size pages huge max ≡ some size) × (needed max ≤ size)
unfolding segment_size base_size
segment_size_holds pages huge max h p =
    let (b, e) = decides pages huge (base_size max) p in
    let bounds = stride_bounds max (omega (arith, h)) in
    let exact : base_size max ≡ needed max = omega (arith, bounds) in
    let up = align_to_huge_page-IsRoundUp (base_size max) (omega (arith, bounds)) in
    (
      if b then align_to_huge_page (base_size max) else base_size max,
      rw e refl,
      elim (Bool-cases b) [
        | inl large ↦ ground (arith, exact, up.covers)
        | inr plain ↦ ground (arith, exact)
      ],
    )

-- How `init` of a writer ends.
pub record Attaches (i : Writer.Init) : Type 0 where
  pub result : i.result ≡ true
  pub attached : IsAttached i.writer i.segment
  pub empty : view i.segment ≡ record { frame = 0; payload = [] }
  pub silent : i.segment.header.writer_heartbeat_ns ≡ pos 0

pub record Fails (i : Writer.Init) (h : Header) (m : Mem) : Type 0 where
  pub result : i.result ≡ false
  pub unready : i.writer.is_initialized ≡ false
  pub header : i.segment.header ≡ h
  pub mem : i.segment.mem ≡ m

-- A writer on the way through `init`: its segment has room.
record IsSized (w : Writer) : Type 0 where
  fresh : w.is_initialized ≡ false
  zero_frames : w.frame_count ≡ 0
  small : w.max_size < 2 ^ 62
  reach : needed w.max_size ≤ w.shm_size

init_mapped_lem :
    (w : Writer) (s : Segment) (calls : List Call) (base : ℕ)
    → IsSized w
    → w.shm_size ≤ s.size
    → Attaches (Writer.init_mapped w s calls base)
unfolding Writer.init_mapped Writer.init_header slice
init_mapped_lem w s calls base v size =
    let bounds = stride_bounds w.max_size (omega (arith, v.small)) in
    record {
      result = refl;
      attached = record {
        segment = record {
          magic = refl;
          front = omega arith;
          length = omega arith;
          small = omega (arith, v.small);
          holds = omega (arith, v.reach);
        };
        ready = refl;
        base = base;
        header = refl;
        mapped = refl;
        first = refl;
        second = refl;
        capacity = refl;
        reach = v.reach;
        count = v.zero_frames;
      };
      empty = refl;
      silent = refl;
    }

init_regular_lem :
    (w : Writer) (s : Segment) (fd : ℕ) (calls : List Call) (m : Option ℕ)
    → IsSized w
    → w.shm_size ≤ s.size
    → let i = Writer.init_regular w s fd calls m in
      (((base : ℕ) × (m ≡ some base)) × Attaches i) ⊎ ((m ≡ none) × Fails i s.header s.mem)
unfolding Writer.init_regular
init_regular_lem w s fd calls none v size =
    inr (refl, record { result = refl; unready = v.fresh; header = refl; mem = refl })
init_regular_lem w s fd calls (some base) v size =
    inl
      ((base, refl), init_mapped_lem (record w { using_huge_pages = false }) s _ base (kept v) size)
  where
    kept : IsSized w → IsSized (record w { using_huge_pages = false })
    kept v = record {
      fresh = v.fresh;
      zero_frames = v.zero_frames;
      small = v.small;
      reach = v.reach;
    }

-- The mapping that `init` uses: the one with huge pages, where it is tried and succeeds, or the
-- regular one.
abbrev pub used_mapping : Writer.Answers → Bool → Option ℕ
used_mapping a false = a.mapped
used_mapping a true = elim a.huge_mapped [ none ↦ a.mapped | some base ↦ some base ]

init_huge_lem :
    (a : Writer.Answers) (w : Writer) (s : Segment) (fd : ℕ) (calls : List Call) (m : Option ℕ)
    → IsSized w
    → w.shm_size ≤ s.size
    → let i = Writer.init_huge a w s fd calls m in
      let answer : Option ℕ = elim m [ none ↦ a.mapped | some base ↦ some base ] in
      (((base : ℕ) × (answer ≡ some base)) × Attaches i)
      ⊎ ((answer ≡ none) × Fails i s.header s.mem)
unfolding Writer.init_huge
init_huge_lem a w s fd calls none v size = init_regular_lem w s fd _ a.mapped v size
init_huge_lem a w s fd calls (some base) v size =
    inl
      ((base, refl), init_mapped_lem (record w { using_huge_pages = true }) s _ base (kept v) size)
  where
    kept : IsSized w → IsSized (record w { using_huge_pages = true })
    kept v = record {
      fresh = v.fresh;
      zero_frames = v.zero_frames;
      small = v.small;
      reach = v.reach;
    }

init_truncated_lem :
    (a : Writer.Answers) (w : Writer) (s : Segment) (fd : ℕ) (calls : List Call) (tried : Bool)
    → (w.config.use_huge_pages && a.pages_later.usable) ≡ tried
    → IsSized w
    → let i = Writer.init_truncated a w s fd calls true in
      (((base : ℕ) × (used_mapping a tried ≡ some base)) × Attaches i)
      ⊎ ((used_mapping a tried ≡ none) × Fails i s.header s.mem)
unfolding Writer.init_truncated
init_truncated_lem a w s fd calls true t v =
    rw t (init_huge_lem a w _ fd calls a.huge_mapped v (omega arith))
init_truncated_lem a w s fd calls false t v =
    rw t (init_regular_lem w _ fd calls a.mapped v (omega arith))

-- `CASIR::Writer::init` of a new writer with a maximal size below 2^62, where the system has a
-- positive huge page size and the object is opened and sized, runs into no undefined behaviour.
-- It returns true exactly when one of the two mappings succeeds: the one with huge pages, if
-- these are asked for and usable, or else the one with regular pages. It is then attached to an
-- empty channel in a segment that holds both rounded buffers, and has stored no heartbeat.
-- Otherwise it returns false and leaves header and memory alone.
pub casir_init-Attaches :
    (a : Writer.Answers) (w : Writer) (s : Segment) (fd : ℕ)
    → w.is_initialized ≡ false
    → w.frame_count ≡ 0
    → w.max_size < 2 ^ 62
    → 0 < a.pages.page_size
    → a.opened ≡ some fd
    → a.truncated ≡ true
    → let answer = used_mapping a (w.config.use_huge_pages && a.pages_later.usable) in
      (i : Writer.Init) × (Writer.init a w s ≡ some i)
      × ((((base : ℕ) × (answer ≡ some base)) × Attaches i)
          ⊎ ((answer ≡ none) × Fails i s.header s.mem))
unfolding Writer.init Writer.init_opened
casir_init-Attaches a w s fd fresh zero_frames small page e f =
    let (size, computed, room) =
      segment_size_holds a.pages w.config.use_huge_pages w.max_size small page in
    let sized = record w { shm_size = size; shm_fd = some fd } in
    let calls =
      affinity w.config.cpu_affinity
      ++ shm_unlink w.shm_name ∷ shm_open w.shm_name (some fd) ∷ [] in
    (
      Writer.init_truncated a sized s fd (calls ++ ftruncate fd size true ∷ []) true,
      rw (fresh, computed, e, f) refl,
      init_truncated_lem a sized s fd _ _ refl
          (record { fresh = fresh; zero_frames = zero_frames; small = small; reach = room }),
    )
