-- ===== src/Os.antt =====
-- The system calls that the transports make, as a log, and a ledger of what a process holds open.
-- What a call answers is an argument of the model; the log records the answer with the call.
use sim_library_v.Prelude.{
  ℕ, Bool, true, false, Option, none, some, List, [], ◌∷◌, String, ◌==◌, if◌then◌else◌,
}
use sim_library_v.Memory.{◌>>=◌}
use mathlib.Core.Option

-- A pointer that `mmap` returns: `nullptr`, `MAP_FAILED`, or an address.
pub data Address : Type 0 where
  null failed : Address
  at : ℕ → Address

-- `p != nullptr && p != MAP_FAILED`
abbrev pub is_mapped : Address → Bool
is_mapped null = false
is_mapped failed = false
is_mapped (at a) = true

abbrev pub is_null : Address → Bool
is_null null = true
is_null failed = false
is_null (at a) = false

-- One system call, with its answer: a descriptor or `none` for -1, a success, an address or
-- `none` for `MAP_FAILED`. `advise` stands for `mlock` and `madvise`, whose answers the code
-- ignores.
pub data Call : Type 0 where
  shm_unlink : String → Call
  shm_open : String → Option ℕ → Call
  ftruncate : ℕ → ℕ → Bool → Call
  fstat : ℕ → Option ℕ → Call
  mmap : ℕ → ℕ → Option ℕ → Call
  advise : Address → ℕ → Call
  munmap : Address → ℕ → Call
  close : ℕ → Call
  set_affinity : ℕ → Call

abbrev pub address_of : Option ℕ → Address
address_of none = failed
address_of (some a) = at a

-- `if (fd >= 0) close(fd);`
abbrev pub close_if : Option ℕ → List Call
close_if none = []
close_if (some fd) = close fd ∷ []

-- `if (p != nullptr && p != MAP_FAILED) munmap(p, size);`
abbrev pub munmap_if : Address → ℕ → List Call
munmap_if (at a) size = munmap (at a) size ∷ []
munmap_if null size = []
munmap_if failed size = []

-- What a process holds: open descriptors and mapped addresses, the latest first.
pub record Ledger : Type 0 where
  pub fds : List ℕ
  pub maps : List ℕ

-- Gives back one held number; `none` if it is not held.
abbrev pub give_back : ℕ → List ℕ → Option (List ℕ)
give_back x [] = none
give_back x (y ∷ ys) = if x == y then some ys else Option.map (λ l. y ∷ l) (give_back x ys)

-- A call against the ledger: `none` where it releases what is not held, such as a second `close`.
abbrev pub enter : Call → Ledger → Option Ledger
enter (shm_open name (some fd)) l = some (record l { fds = fd ∷ l.fds })
enter (mmap fd size (some a)) l = some (record l { maps = a ∷ l.maps })
enter (munmap (at a) size) l = Option.map (λ m. record l { maps = m }) (give_back a l.maps)
enter (munmap null size) l = none
enter (munmap failed size) l = none
enter (close fd) l = Option.map (λ f. record l { fds = f }) (give_back fd l.fds)
enter call l = some l

unfoldable pub enter_all : List Call → Ledger → Option Ledger
enter_all [] l = some l
enter_all (c ∷ cs) l = enter c l >>= λ l'. enter_all cs l'
