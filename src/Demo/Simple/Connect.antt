-- ===== src/Demo/Simple/Connect.antt =====
-- How the loop that waits for a writer ends in examples/simple_reader.cpp: with an open reader, or
-- with one that has nothing open.
use sim_library_v.Prelude.{
  ◌≤◌, ◌⊎◌, Bool, ◌≡◌, inl, inr, refl, sym, ◌∙◌, true, false, none, some, List, [], ◌∷◌, ◌++◌,
  arith, Bool-cases, Option-cases,
}
use mathlib.Core.Path.{subst}
use sim_library_v.Memory.Stores.{All}
use sim_library_v.Os.{Call, null, Ledger, enter, enter_all}
use sim_library_v.Sim.Header.{Segment, sizeof_header}
use sim_library_v.Sim.Reader
use sim_library_v.Sim.Reader.{Reader}
use sim_library_v.Sim.Valid.{IsSegment, IsConnected}
use sim_library_v.Sim.Init.{reader_init_runs, reader_init_lem}
use sim_library_v.Demo.Frame.{data_size}
use sim_library_v.Demo.Simple.{shm_name, Attempt, connect}

-- A reader that has nothing open.
pub record IsFresh (r : Reader) : Type 0 where
  pub ready : r.is_initialized ≡ false
  pub fd : r.shm_fd ≡ none
  pub ptr : r.shm_ptr ≡ null
  pub max : r.max_size ≡ data_size

-- A segment that a writer of the same size has set up.
abbrev pub IsSetUp : Segment → Type 0
IsSetUp s = IsSegment s × (s.header.capacity ≡ data_size)

-- A reader that can read every such segment.
pub record IsOpen (r : Reader) : Type 0 where
  pub connected : (s : Segment) → IsSetUp s → IsConnected r s
  pub max : r.max_size ≡ data_size

same_reader :
    (a : Reader.Answers) (r : Reader) (s t : Segment) (i j : Reader.Init)
    → Reader.init a r s ≡ some i
    → Reader.init a r t ≡ some j
    → i.result ≡ true
    → j.result ≡ true
    → i.reader ≡ j.reader
unfolding Reader.init
same_reader a r s t i j ran also e f = ground (arith, ran, also, e, f)

-- A reader that opened one segment can read every one that has been set up.
module _ (a : Reader.Answers) (r : Reader) (s : Segment) (i : Reader.Init) (v : IsFresh r)
    (ran : Reader.init a r s ≡ some i) where
  init-IsOpen : i.result ≡ true → IsOpen i.reader
  init-IsOpen e = record {
    connected = connected;
    max = unfold Reader.init in ground (arith, ran, e, v.max);
  }
    where
      connected : (t : Segment) → IsSetUp t → IsConnected i.reader t
      connected t up =
          let whole : sizeof_header ≤ t.size = omega (arith, up.0.holds) in
          let (j, also) = reader_init_runs a r t (inr (inr whole)) in
          elim (reader_init_lem a r t j also v.ready v.ptr (omega (arith, v.max)) up.0
            (omega (arith, up.1, v.max))) [
              | inl joined ↦
                  subst (λ q. IsConnected q t) (sym (same_reader a r s t i j ran also e joined.0))
                    joined.1
              | inr failed ↦
                  absurd (unfold Reader.init in ground (arith, ran, e, v.ready, failed.4))
            ]

  init_releases :
      (l : Ledger) → i.result ≡ true → enter_all (i.calls ++ Reader.drop i.reader) l ≡ some l
  unfolding Reader.init Reader.drop enter_all
  init_releases l e = ground (arith, ran, e, v.ready, v.fd, v.ptr)

  init-IsFresh : (l : Ledger) → i.result ≡ false → IsFresh i.reader × (enter_all i.calls l ≡ some l)
  unfolding Reader.init enter_all
  init-IsFresh l e = (
    record {
      ready = ground (arith, ran, e, v.ready);
      fd = ground (arith, ran, e, v.ready);
      ptr = ground (arith, ran, e, v.ready);
      max = ground (arith, ran, e, v.ready, v.max);
    },
    ground (arith, ran, e, v.ready),
  )

pub new-IsFresh : IsFresh (Reader.new shm_name data_size)
unfolding Reader.new
new-IsFresh = record { ready = refl; fd = refl; ptr = refl; max = refl }

-- Calls that leave the ledger as it is, before others.
enter_all_back :
    (xs ys zs : List Call) (l l' : Ledger)
    → enter_all xs l ≡ some l'
    → enter_all ((xs ++ ys) ++ zs) l ≡ enter_all (ys ++ zs) l'
unfolding enter_all
enter_all_back [] ys zs l l' e = ground (arith, e)
enter_all_back (c ∷ xs) ys zs l l' e = elim (Option-cases (enter c l)) [
  | inl fault ↦ absurd (ground (arith, e, fault))
  | inr (l'', went) ↦ rw went (enter_all_back xs ys zs l'' l' (rw went at e))
]

-- An attempt that maps the object finds one that holds the header: the writer has set its size.
abbrev pub IsSized : Attempt → Type 0
IsSized t = (t.answers.opened ≡ none) ⊎ (t.answers.mapped ≡ none) ⊎ (sizeof_header ≤ t.segment.size)

-- The loop that waits ends with an open reader, or without one.
pub connect_lem :
    (ts : List Attempt) (r : Reader) (l : Ledger)
    → IsFresh r
    → All IsSized ts
    → (joined : Bool) × (r' : Reader) × (calls : List Call) × (connect ts r
        ≡ some (joined, r', calls))
      × (enter_all (calls ++ Reader.drop r') l ≡ some l)
      × (joined ≡ true → IsOpen r')
unfolding connect
connect_lem [] r l v sized = (
  false,
  r,
  [],
  refl,
  unfold Reader.drop enter_all in ground (arith, v.fd, v.ptr),
  λ e. absurd (ground (arith, e)),
)
connect_lem (t ∷ ts) r l v sized =
    let (i, ran) = reader_init_runs t.answers r t.segment sized.0 in
    elim (Bool-cases i.result) [
      | inl e ↦ (
        true,
        i.reader,
        i.calls,
        rw (ran, e) refl,
        init_releases t.answers r t.segment i v ran l e,
        λ j. init-IsOpen t.answers r t.segment i v ran e,
      )
      | inr e ↦
          let (fresh, back) = init-IsFresh t.answers r t.segment i v ran l e in
          let (joined, r', calls, went, released, joins) =
            connect_lem ts i.reader l fresh sized.1 in
          (
            joined,
            r',
            i.calls ++ calls,
            rw (ran, e, went) refl,
            enter_all_back i.calls calls _ l l back ∙ released,
            joins,
          )
    ]
