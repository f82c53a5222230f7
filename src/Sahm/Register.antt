-- ===== src/Sahm/Register.antt =====
-- The registration of readers in the places of the control channel.
use sim_library_v.Prelude.{
  ℕ, zero, suc, ◌+◌, ◌<◌, ◌≡◌, ◌≢◌, ◌⊎◌, inl, inr, refl, true, false, none, some, List, [], ◌∷◌,
  String, length, get_or, arith, Bool-cases, if◌then◌else◌,
}
use sim_library_v.Sahm.Control.{Entry, claim, release}

-- The number of active places.
abbrev pub count_active : List Entry → ℕ
count_active [] = 0
count_active (e ∷ es) = if e.active then suc (count_active es) else count_active es

-- What a registration from place `i` on does.
pub record Claimed (name : String) (ring_size i : ℕ) (es : List Entry) : Type 0 where
  pub place : ℕ
  pub after : List Entry
  pub returns : claim name ring_size i es ≡ some (i + place, after)
  pub below : place < length es
  pub free : (d : Entry) → (get_or es place d).active ≡ false
  pub taken :
      (d : Entry)
      → get_or after place d ≡ record { name = some name; active = true; ring_size = ring_size }
  pub others : (j : ℕ) (d : Entry) → j ≢ place → get_or after j d ≡ get_or es j d
  pub size : length after ≡ length es
  pub count : count_active after ≡ suc (count_active es)

behind_first :
    (e : Entry) (xs ys : List Entry) (place : ℕ)
    → ((j : ℕ) (d : Entry) → j ≢ place → get_or xs j d ≡ get_or ys j d)
    → (j : ℕ) (d : Entry) → j ≢ suc place
    → get_or (e ∷ xs) j d ≡ get_or (e ∷ ys) j d
behind_first e xs ys place same zero d ne = refl
behind_first e xs ys place same (suc j) d ne = same j d (omega arith)

-- Either all places are active, and the registration fails, or it takes a free one: that place
-- then has the reader's name and ring size, all other places are as before, and one more is
-- active.
pub claim_takes_free :
    (name : String) (ring_size i : ℕ) (es : List Entry)
    → ((claim name ring_size i es ≡ none) × (count_active es ≡ length es))
      ⊎ Claimed name ring_size i es
unfolding claim
claim_takes_free name ring_size i [] = inl (refl, refl)
claim_takes_free name ring_size i (e ∷ es) = elim (Bool-cases e.active) [
  | inr free ↦ inr (record {
    place = 0;
    after = record { name = some name; active = true; ring_size = ring_size } ∷ es;
    returns = ground (arith, free);
    below = omega arith;
    free = λ d. free;
    taken = λ d. refl;
    others = others;
    size = refl;
    count = ground (arith, free);
  })
  | inl used ↦ elim (claim_takes_free name ring_size (i + 1) es) [
    | inl full ↦ inl (ground (arith, used, full.0), ground (arith, used, full.1))
    | inr c ↦ inr (record {
      place = suc c.place;
      after = e ∷ c.after;
      returns = ground (arith, used, c.returns);
      below = omega (arith, c.below);
      free = c.free;
      taken = c.taken;
      others = behind_first e c.after es c.place c.others;
      size = omega (arith, c.size);
      count = ground (arith, used, c.count);
    })
  ]
]
  where
    others :
        (j : ℕ) (d : Entry)
        → j ≢ 0
        → get_or (record { name = some name; active = true; ring_size = ring_size } ∷ es) j d
          ≡ get_or (e ∷ es) j d
    others zero d ne = absurd (ne refl)
    others (suc j) d ne = refl

-- Releasing an active place leaves one active place less, and room for the next registration.
pub release_frees :
    (es : List Entry) (place : ℕ) (d : Entry)
    → place < length es
    → (get_or es place d).active ≡ true
    → (count_active es ≡ suc (count_active (release place es)))
      × (length (release place es) ≡ length es)
      × ((get_or (release place es) place d).active ≡ false)
unfolding release
release_frees [] place d lt used = absurd (omega arith)
release_frees (e ∷ es) zero d lt used = (ground (arith, used), refl, refl)
release_frees (e ∷ es) (suc place) d lt used =
    let (count, size, free) = release_frees es place d (omega arith) used in
    (ground (arith, count), omega (arith, size), free)
