-- ===== src/Sim/Wait.antt =====
-- `readWithTimeout` of SIM: the loop, and that it returns.
use sim_library_v.Prelude.{
  ℕ, ◌*◌, ◌≤◌, ◌<◌, ◌⊎◌, inl, inr, refl, Option, some, Bool, leb, arith, ◌==◌, Bool-cases,
}
use sim_library_v.Channel
use sim_library_v.Transport.Wait.{Outcome, test_first}
use sim_library_v.Transport.Rounds.{test_first-returns, Polls, Got, Missed}
use sim_library_v.Sim.Header.{Segment}
use sim_library_v.Sim.Reader.{Reader, read}
use sim_library_v.Sim.Read.{read_new, read_old, after}
use sim_library_v.Sim.Valid.{view, current_frame, IsConnected}

-- `world k` is the segment that round `k` finds, and `elapsed k` the nanoseconds since the start
-- that the clock then shows. The sleep at the end of a round changes nothing here.
unfoldable pub read_with_timeout :
    (ℕ → Segment) → (ℕ → ℕ) → ℕ → Reader → Option ℕ → ℕ → Outcome Reader
read_with_timeout world elapsed fuel r room timeout_ms =
    test_first (λ k r. read r (world k) room) (λ k. leb (timeout_ms * 1000000) (elapsed k)) fuel 0 r

after-IsConnected : (r : Reader) (s t : Segment) → IsConnected r t → IsConnected (after r s) t
after-IsConnected r s t v = record {
  segment = v.segment;
  ready = v.ready;
  base = v.base;
  mapped = v.mapped;
  first = v.first;
  second = v.second;
  capacity = v.capacity;
  reach = v.reach;
}

-- The attempts of a reader that is connected in every round.
module _ (world : ℕ → Segment) (room : ℕ) where
  record IsReady (r : Reader) : Type 0 where
    connected : (k : ℕ) → IsConnected r (world k)
    fits : r.max_size ≤ room

  attempts :
      Polls (λ k r. read r (world k) (some room)) (λ k. view (world k)) (λ r. r.last_frame) IsReady
  unfolding Channel.poll
  attempts = record {
    polls = λ k r v. elim (Bool-cases (current_frame (world k).header == r.last_frame)) [
      | inl same ↦ (r, ground (arith, read_old r (world k) room (v.connected k)), v, ground arith)
      | inr new ↦ (
        after r (world k),
        ground (arith, read_new r (world k) room (v.connected k) v.fits),
        record {
          connected = λ i. after-IsConnected r (world k) (world i) (v.connected i);
          fits = v.fits;
        },
        refl,
      )
    ];
  }

-- For a reader that is connected to the segment in every round, with a destination of at least
-- `max_size` bytes: if the clock passes the timeout in some round `end`, `end + 1` rounds of
-- fuel are enough for `readWithTimeout` to return, without undefined behaviour. It returns true
-- with the payload of the first round that presents a frame not yet seen, if the timeout had not
-- passed up to then; otherwise it returns false in the first round in which the timeout has
-- passed, no earlier round having presented such a frame.
pub sim_wait_returns :
    (world : ℕ → Segment) (elapsed : ℕ → ℕ) (r : Reader) (room timeout_ms fuel end : ℕ)
    → ((k : ℕ) → IsConnected r (world k))
    → r.max_size ≤ room
    → timeout_ms * 1000000 ≤ elapsed end
    → end < fuel
    → let result = read_with_timeout world elapsed fuel r (some room) timeout_ms in
      let expired : ℕ → Bool = λ k. leb (timeout_ms * 1000000) (elapsed k) in
      Got 1 (λ k. view (world k)) expired (λ r. r.last_frame) 0 r.last_frame result
      ⊎ Missed 0 (λ k. view (world k)) expired (λ r. r.last_frame) 0 r.last_frame result
unfolding read_with_timeout
sim_wait_returns world elapsed r room timeout_ms fuel end v fits late enough =
    test_first-returns (attempts world room) (λ k. leb (timeout_ms * 1000000) (elapsed k)) fuel 0
      end r (record { connected = v; fits = fits }) (omega arith) (ground (arith, late))
      (omega (arith, enough))
