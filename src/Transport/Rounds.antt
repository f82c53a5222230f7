-- ===== src/Transport/Rounds.antt =====
-- When the loops around `read` end, and with what.
use mathlib.Core.Path.{subst}
use sim_library_v.Prelude.{
  ℕ, zero, suc, ◌+◌, ◌≤◌, ◌<◌, ◌≡◌, ◌≢◌, ◌⊎◌, inl, inr, refl, Bool, true, false, Option, none, some,
  List, arith, ◌==◌, Bool-cases, ap,
}
use sim_library_v.Channel.{Channel, poll}
use sim_library_v.Transport.Wait.{Outcome, returned, test_first, read_first}

-- From round `k` up to round `j`, which is not included.
abbrev pub Before : ℕ → ℕ → (ℕ → Type 0) → Type 0
Before k j P = (i : ℕ) → k ≤ i → i < j → P i

Before_empty : (P : ℕ → Type 0) (k j : ℕ) → j ≤ k → Before k j P
Before_empty P k j none_left i from to = absurd (omega (arith, from, to, none_left))

Before_step : (P : ℕ → Type 0) (k j : ℕ) → P k → Before (suc k) j P → Before k j P
Before_step P k j first rest i from to = elim (Bool-cases (i == k)) [
  | inl same ↦ subst P (ground arith) first
  | inr later ↦ rest i (ground arith) to
]

Before_one : (P : ℕ → Type 0) (k j : ℕ) → j ≤ suc k → P k → Before k j P
Before_one P k j one_left first = Before_step P k j first (Before_empty P (suc k) j one_left)

-- What an attempt finds: it polls what the segment presents in its round.
pub record Polls {R : Type 0} (attempt : ℕ → R → Option (Option (List ℕ) × R))
    (channel : ℕ → Channel) (last : R → ℕ) (IsValid : R → Type 0) : Type 0 where
  pub polls :
      (k : ℕ) (r : R)
      → IsValid r
      → (r' : R) × (attempt k r ≡ some (poll (last r) (channel k), r'))
        × IsValid r'
        × (last r' ≡ (channel k).frame)

-- The loop that began in round `k` returned the payload of the first round with a frame other
-- than `seen`, and the clock had not expired before; `lead` is 1 if the clock is tested first.
pub record Got {R : Type 0} (lead : ℕ) (channel : ℕ → Channel) (expired : ℕ → Bool) (last : R → ℕ)
    (k seen : ℕ) (result : Outcome R) : Type 0 where
  pub round : ℕ
  pub reader : R
  pub from : k ≤ round
  pub returns : result ≡ returned (some (channel round).payload) reader
  pub new : (channel round).frame ≢ seen
  pub first : Before k round (λ i. (channel i).frame ≡ seen)
  pub in_time : Before k (lead + round) (λ i. expired i ≡ false)
  pub remembers : last reader ≡ (channel round).frame

-- It returned false in the first round in which the clock had expired, and no attempt found a
-- frame other than `seen`; `lag` is 1 if the clock is tested last.
pub record Missed {R : Type 0} (lag : ℕ) (channel : ℕ → Channel) (expired : ℕ → Bool) (last : R → ℕ)
    (k seen : ℕ) (result : Outcome R) : Type 0 where
  pub round : ℕ
  pub reader : R
  pub from : k ≤ round
  pub returns : result ≡ returned none reader
  pub none_new : Before k (lag + round) (λ i. (channel i).frame ≡ seen)
  pub over : expired round ≡ true
  pub in_time : Before k round (λ i. expired i ≡ false)
  pub remembers : last reader ≡ seen

module _ {R : Type 0} {attempt : ℕ → R → Option (Option (List ℕ) × R)} {channel : ℕ → Channel}
    {last : R → ℕ} {IsValid : R → Type 0} (p : Polls attempt channel last IsValid)
    (expired : ℕ → Bool) where
  -- One more round without a new frame, before those that led to the result.
  Got-later :
      (lead k seen : ℕ) (result : Outcome R)
      → (channel k).frame ≡ seen
      → expired k ≡ false
      → Got lead channel expired last (suc k) seen result
      → Got lead channel expired last k seen result
  Got-later lead k seen result same going g = record {
    round = g.round;
    reader = g.reader;
    from = omega (arith, g.from);
    returns = g.returns;
    new = g.new;
    first = Before_step (λ i. (channel i).frame ≡ seen) k g.round same g.first;
    in_time = Before_step (λ i. expired i ≡ false) k (lead + g.round) going g.in_time;
    remembers = g.remembers;
  }

  Missed-later :
      (lag k seen : ℕ) (result : Outcome R)
      → (channel k).frame ≡ seen
      → expired k ≡ false
      → Missed lag channel expired last (suc k) seen result
      → Missed lag channel expired last k seen result
  Missed-later lag k seen result same going m = record {
    round = m.round;
    reader = m.reader;
    from = omega (arith, m.from);
    returns = m.returns;
    none_new = Before_step (λ i. (channel i).frame ≡ seen) k (lag + m.round) same m.none_new;
    over = m.over;
    in_time = Before_step (λ i. expired i ≡ false) k m.round going m.in_time;
    remembers = m.remembers;
  }

  -- Round `k` finds a new frame, or none.
  round_cases :
      (k : ℕ) (r : R)
      → IsValid r
      → ((r' : R) × (attempt k r ≡ some (some (channel k).payload, r'))
          × ((channel k).frame ≢ last r)
          × (last r' ≡ (channel k).frame))
        ⊎ ((r' : R) × (attempt k r ≡ some (none, r'))
            × ((channel k).frame ≡ last r)
            × IsValid r'
            × (last r' ≡ last r))
  unfolding poll
  round_cases k r v =
      let (r', e, v', seen) = p.polls k r v in
      elim (Bool-cases ((channel k).frame == last r)) [
        | inl same ↦ inr (r', ground (arith, e), ground arith, v', ground (arith, seen))
        | inr new ↦ inl (r', ground (arith, e), ground arith, seen)
      ]

  -- A round before the end.
  not_yet : (k end : ℕ) → expired k ≡ false → expired end ≡ true → k ≤ end → suc k ≤ end
  not_yet k end early over from = elim (Bool-cases (k == end)) [
    | inl same ↦ let e : k ≡ end = ground arith in ground (arith, ap expired e)
    | inr later ↦ ground arith
  ]

  -- The loop returns if the clock expires in a round for which there is fuel.
  pub test_first-returns :
      (fuel k end : ℕ) (r : R)
      → IsValid r
      → k ≤ end
      → expired end ≡ true
      → end < k + fuel
      → let result = test_first attempt expired fuel k r in
        Got 1 channel expired last k (last r) result
        ⊎ Missed 0 channel expired last k (last r) result
  unfolding test_first
  test_first-returns zero k end r v from over enough = absurd (omega (arith, from, enough))
  test_first-returns (suc fuel) k end r v from over enough = elim (Bool-cases (expired k)) [
    | inl late ↦ inr record {
      round = k;
      reader = r;
      from = omega arith;
      returns = rw (late, test_first) refl;
      none_new = Before_empty (λ i. (channel i).frame ≡ last r) k (0 + k) (omega arith);
      over = late;
      in_time = Before_empty (λ i. expired i ≡ false) k k (omega arith);
      remembers = refl;
    }
    | inr early ↦ elim (round_cases k r v) [
      | inl (r', e, new, seen) ↦ inl record {
        round = k;
        reader = r';
        from = omega arith;
        returns = rw (early, e, test_first) refl;
        new = new;
        first = Before_empty (λ i. (channel i).frame ≡ last r) k k (omega arith);
        in_time = Before_one (λ i. expired i ≡ false) k (1 + k) (omega arith) early;
        remembers = seen;
      }
      | inr (r', e, same, v', kept) ↦
          rw (test_first, early, e)
            (elim (test_first-returns fuel (suc k) end r' v' (not_yet k end early over from) over
              (omega (arith, enough))) [
                | inl g ↦ inl (Got-later 1 k (last r) _ same early (rw kept at g))
                | inr m ↦ inr (Missed-later 0 k (last r) _ same early (rw kept at m))
              ])
    ]
  ]

  pub read_first-returns :
      (fuel k end : ℕ) (r : R)
      → IsValid r
      → k ≤ end
      → expired end ≡ true
      → end < k + fuel
      → let result = read_first attempt expired fuel k r in
        Got 0 channel expired last k (last r) result
        ⊎ Missed 1 channel expired last k (last r) result
  unfolding read_first
  read_first-returns zero k end r v from over enough = absurd (omega (arith, from, enough))
  read_first-returns (suc fuel) k end r v from over enough = elim (round_cases k r v) [
    | inl (r', e, new, seen) ↦ inl record {
      round = k;
      reader = r';
      from = omega arith;
      returns = rw (e, read_first) refl;
      new = new;
      first = Before_empty (λ i. (channel i).frame ≡ last r) k k (omega arith);
      in_time = Before_empty (λ i. expired i ≡ false) k (0 + k) (omega arith);
      remembers = seen;
    }
    | inr (r', e, same, v', kept) ↦ elim (Bool-cases (expired k)) [
      | inl late ↦ inr record {
        round = k;
        reader = r';
        from = omega arith;
        returns = rw (read_first, e, late) refl;
        none_new = Before_one (λ i. (channel i).frame ≡ last r) k (1 + k) (omega arith) same;
        over = late;
        in_time = Before_empty (λ i. expired i ≡ false) k k (omega arith);
        remembers = kept;
      }
      | inr early ↦
          rw (read_first, e, early)
            (elim (read_first-returns fuel (suc k) end r' v' (not_yet k end early over from) over
              (omega (arith, enough))) [
                | inl g ↦ inl (Got-later 0 k (last r) _ same early (rw kept at g))
                | inr m ↦ inr (Missed-later 1 k (last r) _ same early (rw kept at m))
              ])
    ]
  ]
