-- ===== src/Sahm/Control.antt =====
-- The control channel: `ControlHeader` of include/sahm.hpp, and the registration of a reader in
-- it.
use sim_library_v.Prelude.{
  ℕ, zero, suc, ◌+◌, Bool, true, false, Option, none, some, List, [], ◌∷◌, String, if◌then◌else◌,
}
use sim_library_v.Prelude.Int.{ℤ}
use mathlib.Core.Option

-- Element `i` of the arrays `reader_shm_names`, `reader_active` and `reader_ring_sizes`; the name
-- is `none` where it is empty.
pub record Entry : Type 0 where
  pub name : Option String
  pub active : Bool
  pub ring_size : ℕ

-- The arrays have `max_readers` elements.
pub record Control : Type 0 where
  pub magic : ℕ
  pub version : ℕ
  pub max_slot_size : ℕ
  pub num_readers : ℕ
  pub writer_heartbeat_ns : ℤ
  pub entries : List Entry

-- `MAX_READERS`
abbrev pub max_readers : ℕ
max_readers = 16

-- `sizeof(ControlHeader)`
abbrev pub sizeof_control : ℕ
sizeof_control = 1152

-- `DEFAULT_RING_SIZE`
abbrev pub default_ring_size : ℕ
default_ring_size = 30

-- The loop of `DirectReader::init` that takes the first free place from place `i` on, by
-- compare-and-swap: the place, and the entries after the stores. `none` if all are active.
unfoldable pub claim : String → ℕ → ℕ → List Entry → Option (ℕ × List Entry)
claim name ring_size i [] = none
claim name ring_size i (e ∷ es) =
    let rest = claim name ring_size (i + 1) es in
    if e.active
    then Option.map (λ (r : ℕ × List Entry). (r.0, e ∷ r.1)) rest
    else some (i, record { name = some name; active = true; ring_size = ring_size } ∷ es)

-- `reader_active[i].store(false)`
unfoldable pub release : ℕ → List Entry → List Entry
release i [] = []
release zero (e ∷ es) = record e { active = false } ∷ es
release (suc i) (e ∷ es) = e ∷ release i es
