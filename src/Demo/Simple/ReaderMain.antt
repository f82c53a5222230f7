-- ===== src/Demo/Simple/ReaderMain.antt =====
-- `main` of examples/simple_reader.cpp as a whole: it answers, and gives back what it took.
use sim_library_v.Prelude.{
  ℕ, ◌≡◌, ◌⊎◌, inl, inr, refl, sym, ap, ◌∙◌, Bool, true, false, Option, none, some, List, [], ◌∷◌,
  ◌++◌, arith, Bool-cases, ◌==◌, ◌||◌, not, if◌then◌else◌,
}
use mathlib.Core.Path.{subst}
use sim_library_v.Prelude.Int.{ℤ, ◌-ℤ◌, div_ℕ, lt_ℕ}
use sim_library_v.Memory.Stores.{All}
use sim_library_v.Os.{Call, Ledger, enter_all}
use sim_library_v.Sim.Header.{Segment}
use sim_library_v.Sim.Reader
use sim_library_v.Sim.Reader.{Reader}
use sim_library_v.Sim.Valid.{IsConnected, current_frame, view}
use sim_library_v.Heartbeat.{is_recent}
use sim_library_v.Sim.Read.{read_new, read_old, after}
use sim_library_v.Demo.Frame.{data_size}
use sim_library_v.Demo.Simple.Connect.{IsSetUp, IsOpen, IsSized, connect_lem, new-IsFresh}
use sim_library_v.Demo.Simple.{
  Line, cancelled, total_frames, dropped_total, done, shm_name, Receiving, receive_round,
  take_frame, take_result, writer_timeout, Attempt, Look, connect, receive_loop, reader_main,
}

take_result-reader :
    (now : ℤ) (r : Reader) (result : Option (List ℕ)) (m : Receiving)
    → (take_result now r result m).1.reader ≡ r
unfolding take_frame
take_result-reader now r none m = refl
take_result-reader now r (some bytes) m =
    elim (Bool-cases (lt_ℕ (div_ℕ (now -ℤ m.last_log) 1000000000) 1)) [
      | inl quiet ↦ rw quiet refl
      | inr log ↦ rw log refl
    ]

-- `read` of an open reader: the reader stays open and returns the same.
read_opens :
    (r : Reader) (s : Segment)
    → IsOpen r
    → IsSetUp s
    → (result : Option (List ℕ)) × (r' : Reader) × (Reader.read r s (some data_size)
        ≡ some (result, r'))
      × IsOpen r'
      × (Reader.drop r' ≡ Reader.drop r)
read_opens r s v up = elim (Bool-cases (current_frame s.header == r.last_frame)) [
  | inl same ↦ (none, r, read_old r s data_size c (ground arith), v, refl)
  | inr new ↦ (
    some (view s).payload,
    after r s,
    read_new r s data_size c (omega (arith, v.max)) (ground arith),
    record { connected = connected; max = v.max },
    unfold Reader.drop in refl,
  )
]
  where
    c : IsConnected r s
    c = v.connected s up

    connected : (t : Segment) → IsSetUp t → IsConnected (after r s) t
    connected t other =
        let d = v.connected t other in
        record {
          segment = d.segment;
          ready = d.ready;
          base = d.base;
          mapped = d.mapped;
          first = d.first;
          second = d.second;
          capacity = d.capacity;
          reach = d.reach;
        }

-- A round: the reader stays open and returns the same.
receive_round_opens :
    (now time : ℤ) (m : Receiving) (s : Segment)
    → IsOpen m.reader
    → IsSetUp s
    → (lines : List Line) × (m' : Receiving) × (receive_round now time m s ≡ some (lines, m'))
      × IsOpen m'.reader
      × (Reader.drop m'.reader ≡ Reader.drop m.reader)
unfolding receive_round Reader.is_writer_alive
receive_round_opens now time m s v up =
    let (result, r, got, open_r, same) = read_opens m.reader s v up in
    let c = open_r.connected s up in
    let e = take_result-reader now r result m in
    let b = is_recent time s.header.writer_heartbeat_ns 2000 in
    (
      (take_result now r result m).0 ++ (if b then [] else writer_timeout ∷ []),
      (take_result now r result m).1,
      ground (arith, got, e, c.ready, c.mapped),
      subst IsOpen (sym e) open_r,
      ap Reader.drop e ∙ same,
    )

receive_loop_opens :
    (ks : List Look) (m : Receiving)
    → IsOpen m.reader
    → All (λ (k : Look). IsSetUp k.segment) ks
    → (lines : List Line) × (m' : Receiving) × (receive_loop ks m ≡ some (lines, m'))
      × (Reader.drop m'.reader ≡ Reader.drop m.reader)
unfolding receive_loop
receive_loop_opens [] m v up = ([], m, refl, refl)
receive_loop_opens (k ∷ ks) m v up =
    let (lines, m', went, w, same) = receive_round_opens k.now k.time m k.segment v up.0 in
    let (more, m'', ran, kept) = receive_loop_opens ks m' w up.1 in
    (lines ++ more, m'', ground (arith, went, ran), kept ∙ same)

-- `main` of the reader, where each attempt to connect that maps the object finds one that holds at
-- least the header, whatever else it holds, and where in each round of the loop after that the
-- object is a segment that a writer of the same size has set up. It runs into no undefined
-- behaviour, and gives back every descriptor and mapping that it took, each once. An attempt
-- succeeded and the signal had not come, or it prints "Cancelled" alone.
pub reader_program :
    (ts : List Attempt) (stopped : Bool) (start : ℤ) (ks : List Look) (l : Ledger)
    → All IsSized ts
    → All (λ (k : Look). IsSetUp k.segment) ks
    → (joined : Bool) × (r : Reader) × (taken : List Call) × (lines : List Line) × (calls : List
        Call)
      × (connect ts (Reader.new shm_name data_size) ≡ some (joined, r, taken))
      × (reader_main ts stopped start ks ≡ some (lines, calls))
      × (enter_all calls l ≡ some l)
      × (((joined ≡ true) × (stopped ≡ false)) ⊎ (lines ≡ cancelled ∷ []))
unfolding reader_main
reader_program ts stopped start ks l sized up =
    let (joined, r, taken, went, back, opens) =
      connect_lem ts (Reader.new shm_name data_size) l new-IsFresh sized in
    elim (Bool-cases (not joined || stopped)) [
      | inr e ↦
          let (lines, m, ran, same) =
            receive_loop_opens ks
              (record { reader = r; buffer = λ a. 0; frame_count = 0; last_log = start })
              (opens (ground (arith, e))) up in
          (
            joined,
            r,
            taken,
            lines ++ total_frames m.frame_count ∷ dropped_total m.reader.dropped_frames ∷ done ∷ [],
            taken ++ Reader.drop m.reader,
            went,
            rw (went, e, ran) refl,
            ap (λ cs. enter_all (taken ++ cs) l) same ∙ back,
            inl (ground (arith, e), ground (arith, e)),
          )
      | inl e ↦ (
        joined,
        r,
        taken,
        cancelled ∷ [],
        taken ++ Reader.drop r,
        went,
        rw (went, e) refl,
        back,
        inr refl,
      )
    ]
