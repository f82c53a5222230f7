-- ===== src/Sahm/Shape.antt =====
-- What a push does not change of a ring buffer: its sizes.
use sim_library_v.Prelude.{ℕ, ◌≡◌, refl, ◌∙◌, some, List, arith}
use sim_library_v.Prelude.Int.{ℤ}
use sim_library_v.Sahm.Ring.{Ring, push}

pub record SameShape (r r' : Ring) : Type 0 where
  pub size : r'.size ≡ r.size
  pub room : r'.header.slot_data_size ≡ r.header.slot_data_size
  pub stride : r'.header.slot_total_size ≡ r.header.slot_total_size

pub SameShape-refl : (r : Ring) → SameShape r r
SameShape-refl r = record { size = refl; room = refl; stride = refl }

pub SameShape-trans : (r r' r'' : Ring) → SameShape r r' → SameShape r' r'' → SameShape r r''
SameShape-trans r r' r'' a b = record {
  size = b.size ∙ a.size;
  room = b.room ∙ a.room;
  stride = b.stride ∙ a.stride;
}

pub push-SameShape :
    (timestamp : ℤ) (n limit : ℕ) (bytes : List ℕ) (size : ℕ) (r r' : Ring)
    → push timestamp n limit bytes size r ≡ some r'
    → SameShape r r'
unfolding push
push-SameShape timestamp n limit bytes size r r' e = record {
  size = ground (arith, e);
  room = ground (arith, e);
  stride = ground (arith, e);
}
