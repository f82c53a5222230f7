-- ===== src/Sahm/Tests/Channel.antt =====
-- The control channel, the writer and the lifecycles of SAHM at concrete inputs.
use sim_library_v.Prelude.{ℕ, ◌≡◌, refl, true, false, none, some, List, [], ◌∷◌, arith, take}
use sim_library_v.Prelude.Int.{pos}
use sim_library_v.Os.{null, at, Ledger}
use sim_library_v.Sahm.Ring.{direct_magic}
use sim_library_v.Sahm.Control.{Control, Entry, claim}
use sim_library_v.Sahm.Reader
use sim_library_v.Sahm.Reader.{Reader, Found}
use sim_library_v.Sahm.Writer
use sim_library_v.Sahm.Writer.{Writer, Info, Rings, Find, Written, discover_readers}
use sim_library_v.Sahm.History.{Presents}
use sim_library_v.Sahm.Latest.{IsAttached}
use sim_library_v.Sahm.Shape.{SameShape}
use sim_library_v.Sahm.Delivery.{IsAbsent, AreDelivered, write_delivers}
use sim_library_v.Sahm.Start.{init_empty_ring, no_frame}
use sim_library_v.Sahm.Tests.{ring, ring-IsRing, ring-Presents, bytes}

abbrev entry : Entry
entry = record { name = some "/cam_reader_7"; active = true; ring_size = 2 }

abbrev pub control : Control
control = record {
  magic = direct_magic;
  version = 2;
  max_slot_size = 4;
  num_readers = 1;
  writer_heartbeat_ns = pos 5;
  entries = entry ∷ [];
}

abbrev no_info : Info
no_info = record { fd = none; ptr = null; size = 0; object = 0; ring_size = 0; valid = false }

abbrev pub info : Info
info = record { fd = some 5; ptr = at 12288; size = 200; object = 0; ring_size = 2; valid = true }

abbrev pub writer : Writer
writer = record {
  channel_name = "/cam";
  max_slot_size = 4;
  is_initialized = true;
  control_fd = some 3;
  control_ptr = at 4096;
  control_size = 1152;
  header = at 4096;
  readers = no_info ∷ [];
}

abbrev pub finds : List Find
finds = record { opened = some (5, 0); mapped = some 12288 } ∷ []

-- The writer discovers the reader.
discover_runs : (discover_readers finds writer control).0.readers ≡ info ∷ []
unfolding discover_readers
discover_runs = refl

abbrev pub rings : Rings
rings = λ o. ring

write_delivers_example :
    (x : Written) × (Writer.write (pos 6) finds writer control rings bytes 2 ≡ some x)
    × (x.count ≡ 1)
    × AreDelivered (take 2 bytes) (info ∷ []) x.rings (λ o. [])
    × ((o : ℕ) → IsAbsent o (info ∷ []) → x.rings o ≡ ring)
    × (x.control ≡ record control { writer_heartbeat_ns = pos 6 })
    × ((o : ℕ) → SameShape ring (x.rings o))
    × (x.writer ≡ (discover_readers finds writer control).0)
unfolding discover_readers
write_delivers_example =
    write_delivers (pos 6) finds writer control rings bytes 2 (λ o. []) refl (omega arith)
      (omega arith) (λ v. tt, tt)
      (
        λ v. record {
          ring_ok = ring-IsRing;
          reach = omega arith;
          presents = ring-Presents;
          few = omega arith;
          fits = omega arith;
        },
        tt,
      )

abbrev ledger : Ledger
ledger = record { fds = 0 ∷ []; maps = [] }

abbrev pub reader_answers : Reader.Answers
reader_answers = record {
  control_opened = some 3;
  control_mapped = some 4096;
  buffer_opened = some 4;
  buffer_truncated = true;
  buffer_mapped = some 8192;
}

-- A channel with one free place.
abbrev open_control : Control
open_control = record control { num_readers = 0; entries = record entry { active = false } ∷ [] }

init_empty_ring_example :
    let i =
      Reader.init
        (λ s. s)
        reader_answers
        (Reader.new "/cam" "/cam_reader_7" 4 2)
        open_control
        ring in
    IsAttached 2 i.reader i.ring
    × Presents 2 i.ring []
    × (i.ring.size ≡ 200)
    × (i.ring.header ≡ record {
      magic = direct_magic;
      ring_size = 2;
      slot_data_size = 4;
      slot_total_size = 68;
      write_idx = 0;
      total_writes = 0;
    })
    × (i.ring.slots 132 ≡ no_frame)
    × (Reader.get_slot i.reader i.ring 1 ≡ some none)
unfolding Reader.init Reader.new claim
init_empty_ring_example =
    init_empty_ring (λ s. s) reader_answers "/cam" "/cam_reader_7" 4 2 1 open_control ring
      (omega arith) (omega arith) (omega arith) (omega arith) refl

abbrev pub writer_answers : Writer.Answers
writer_answers = record { opened = some 3; truncated = true; mapped = some 4096; now = pos 5 }
