-- ===== src/Sahm/Membership/Hold.antt =====
-- The places that the live readers of a channel hold.
use sim_library_v.Prelude.{
  ℕ, zero, suc, ◌<◌, ◌≡◌, ◌≢◌, refl, sym, true, false, Option, some, List, [], ◌∷◌, length, get_or,
  arith,
}
use sim_library_v.Os.{is_null}
use sim_library_v.Sahm.Control.{Entry, release}
use sim_library_v.Sahm.Reader.{Reader}
use sim_library_v.Sahm.Membership.{Picks, first, later}

-- A live reader holds an active place.
pub record IsMember (es : List Entry) (r : Reader) : Type 0 where
  pub ready : r.is_initialized ≡ true
  pub header : is_null r.header ≡ false
  pub place : ℕ
  pub slot : r.my_slot_idx ≡ some place
  pub below : place < length es
  pub active : (d : Entry) → (get_or es place d).active ≡ true

-- None of the readers has this place.
abbrev pub Avoids : Option ℕ → List Reader → Type 0
Avoids o [] = Unit
Avoids o (q ∷ qs) = (q.my_slot_idx ≢ o) × Avoids o qs

-- All are members, no two at one place.
abbrev pub Hold : List Entry → List Reader → Type 0
Hold es [] = Unit
Hold es (r ∷ rs) = IsMember es r × Avoids r.my_slot_idx rs × Hold es rs

pub release_others :
    (es : List Entry) (i j : ℕ) (d : Entry) → j ≢ i → get_or (release i es) j d ≡ get_or es j d
unfolding release
release_others [] i j d ne = refl
release_others (e ∷ es) zero zero d ne = absurd (ne refl)
release_others (e ∷ es) zero (suc j) d ne = refl
release_others (e ∷ es) (suc i) zero d ne = refl
release_others (e ∷ es) (suc i) (suc j) d ne = release_others es i j d (omega arith)

-- Entries that agree except at one place keep the members that are not there.
pub Hold-others :
    (es fs : List Entry) (p : ℕ) (rs : List Reader)
    → length fs ≡ length es
    → ((j : ℕ) (d : Entry) → j ≢ p → get_or fs j d ≡ get_or es j d)
    → Avoids (some p) rs
    → Hold es rs
    → Hold fs rs
Hold-others es fs p [] size same apart h = tt
Hold-others es fs p (r ∷ rs) size same (ne, apart) (m, others, h) = (
  record {
    ready = m.ready;
    header = m.header;
    place = m.place;
    slot = m.slot;
    below = omega (arith, m.below);
    active = λ d. ground (arith, same m.place d, m.active d, m.slot);
  },
  others,
  Hold-others es fs p rs size same apart h,
)

-- Nobody holds a place that is not active.
pub Avoids-free :
    (es : List Entry) (p : ℕ) (d : Entry) (rs : List Reader)
    → (get_or es p d).active ≡ false
    → Hold es rs
    → Avoids (some p) rs
Avoids-free es p d [] free h = tt
Avoids-free es p d (r ∷ rs) free (m, others, h) =
    (λ e. ground (arith, m.active d, m.slot, e, free), Avoids-free es p d rs free h)

-- What is left when one reader is picked.
pub record Picked (es : List Entry) (rs : List Reader) (r : Reader) (rest : List Reader)
    : Type 0 where
  pub member : IsMember es r
  pub apart : Avoids r.my_slot_idx rest
  pub hold : Hold es rest
  pub fewer : length rs ≡ suc (length rest)

Avoids-picked :
    (o : Option ℕ) {rs rest : List Reader} {r : Reader}
    → Picks rs r rest
    → Avoids o rs
    → (r.my_slot_idx ≢ o) × Avoids o rest
Avoids-picked o (first r rs) a = a
Avoids-picked o (later q p) (ne, a) = let (m, b) = Avoids-picked o p a in (m, (ne, b))

pub Hold-Picked :
    (es : List Entry) {rs rest : List Reader} {r : Reader}
    → Picks rs r rest
    → Hold es rs
    → Picked es rs r rest
Hold-Picked es (first r rs) (m, a, h) = record { member = m; apart = a; hold = h; fewer = refl }
Hold-Picked es (later q p) (m, a, h) =
    let k = Hold-Picked es p h in
    let (ne, b) = Avoids-picked q.my_slot_idx p a in
    record {
      member = k.member;
      apart = (λ e. ne (sym e), k.apart);
      hold = (m, b, k.hold);
      fewer = omega (arith, k.fewer);
    }
