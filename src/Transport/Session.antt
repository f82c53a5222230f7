-- ===== src/Transport/Session.antt =====
-- A writer and a reader of any transport on one segment, in any order of calls, against the
-- channel.
use sim_library_v.Prelude.{
  ℕ, ◌≡◌, refl, sym, ◌∙◌, inl, inr, Option, some, List, [], ◌∷◌, length, arith, Bool-cases, ltb,
}
use sim_library_v.Memory.{◌>>=◌}
use sim_library_v.Channel
use sim_library_v.Channel.{Channel, Op, send, receive, Reply, sent, got}
use sim_library_v.Transport.{Transport}

module _ {S : Type 0} {max : ℕ} (t : Transport S max) where
  -- One call.
  unfoldable pub serve : Op → S → Option (Reply × S)
  serve (send now bytes) x = do (done, y) ← t.send now bytes x; some (sent done, y)
  serve receive x = do (bytes, y) ← t.receive x; some (got bytes, y)

  -- The answers to a sequence of calls.
  unfoldable pub run : List Op → S → Option (List Reply)
  unfolding serve
  run [] x = some []
  run (op ∷ ops) x = do (reply, y) ← serve op x; replies ← run ops y; some (reply ∷ replies)

  -- One call is one call of the channel.
  record Served (op : Op) (x : S) : Type 0 where
    next : S
    returns : serve op x ≡ some ((Channel.serve max op (t.channel x) (t.last x)).0, next)
    valid : t.IsValid next
    presents : t.channel next ≡ (Channel.serve max op (t.channel x) (t.last x)).1
    last : t.last next ≡ (Channel.serve max op (t.channel x) (t.last x)).2

  serve_refines : (op : Op) (x : S) → t.IsValid x → Served op x
  unfolding serve Channel.serve
  serve_refines (send now bytes) x v = elim (Bool-cases (ltb max (length bytes))) [
    | inl long ↦ record {
      next = x;
      returns = ground (arith, t.send_long now bytes x v long);
      valid = v;
      presents = ground arith;
      last = ground arith;
    }
    | inr fits ↦
        let (y, returns, valid, presents, last) = t.send_fits now bytes x v fits in
        record {
          next = y;
          returns = ground (arith, returns);
          valid = valid;
          presents = ground (arith, presents);
          last = ground (arith, last);
        }
  ]
  serve_refines receive x v =
      let (y, returns, valid, presents, last) = t.receive_next x v in
      record {
        next = y;
        returns = ground (arith, returns);
        valid = valid;
        presents = presents;
        last = last;
      }

  -- From a valid state of a transport, any sequence of calls runs into no undefined behaviour
  -- and is answered as the channel answers it.
  pub session_refines :
      (ops : List Op) (x : S)
      → t.IsValid x
      → run ops x ≡ some (Channel.run max ops (t.channel x) (t.last x))
  unfolding run Channel.run
  session_refines [] x v = refl
  session_refines (op ∷ ops) x v =
      let step = serve_refines op x v in
      rw (step.returns, session_refines ops step.next step.valid, step.presents, step.last) refl

-- Two transports with the same maximal size that present the same channel cannot be told apart.
pub transports_agree :
    {S T : Type 0} {max : ℕ} (t : Transport S max) (u : Transport T max) (ops : List Op) (x : S)
    (y : T)
    → t.IsValid x
    → u.IsValid y
    → t.channel x ≡ u.channel y
    → t.last x ≡ u.last y
    → run t ops x ≡ run u ops y
transports_agree t u ops x y v w same seen =
    session_refines t ops x v ∙ rw (same, seen) refl ∙ sym (session_refines u ops y w)
