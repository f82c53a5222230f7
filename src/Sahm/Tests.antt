-- ===== src/Sahm/Tests.antt =====
-- SAHM at concrete inputs: a ring of two slots for four bytes each, at 64 and 132 of 200 bytes.
pub mod Channel
mod Members
mod InPlace
use sim_library_v.Prelude.{
  ℕ, zero, suc, ◌-◌, ◌%◌, ◌<◌, ◌≡◌, ◌⊎◌, refl, true, false, Option, none, some, List, [], ◌∷◌, ◌++◌,
  arith, length, take, get_or,
}
use sim_library_v.Prelude.Int.{pos}
use sim_library_v.Memory.{blit, slice}
use sim_library_v.Os.{null, at, Ledger, enter_all}
use sim_library_v.Sahm.Ring.{Ring, Slot, set_slot, direct_magic, push}
use sim_library_v.Sahm.Control.{Control, Entry, claim}
use sim_library_v.Sahm.Reader
use sim_library_v.Sahm.Reader.{Reader, Found}
use sim_library_v.Sahm.Writer
use sim_library_v.Sahm.Writer.{Writer, Info, Rings, Find, Written, discover_readers}
use sim_library_v.Sahm.History.{IsRing, Presents, Shows, push_refines}
use sim_library_v.Sahm.Latest.{IsAttached, bytes_of, get_latest-newest, get_slot_keeps_history}
use sim_library_v.Sahm.Delivery.{IsAbsent, AreDelivered, write_delivers}
use sim_library_v.Sahm.Register.{Claimed, claim_takes_free}
use sim_library_v.Sahm.Release.{ring_writer_releases}
use sim_library_v.Sahm.Start.{init_empty_ring}

abbrev no_slot : Slot
no_slot = record { sequence = 0; timestamp_ns = pos 0; data_size = 0 }

abbrev pub ring : Ring
ring = record {
  size = 200;
  header = record {
    magic = direct_magic;
    ring_size = 2;
    slot_data_size = 4;
    slot_total_size = 68;
    write_idx = 0;
    total_writes = 0;
  };
  slots = λ o. no_slot;
  mem = λ a. 0;
}

pub ring-IsRing : IsRing 2 ring
ring-IsRing = record {
  slots = omega arith;
  word = omega arith;
  index = refl;
  stride = omega arith;
  holds = omega arith;
  fits = omega arith;
}

pub ring-Presents : Presents 2 ring []
ring-Presents = record { count = refl; frame = λ age lt lt_n. absurd (omega arith) }

abbrev pub bytes : List ℕ
bytes = 10 ∷ 20 ∷ 30 ∷ []

push_refines_example :
    (r' : Ring) × (push (pos 6) 2 200 bytes 2 ring ≡ some r')
    × IsRing 2 r'
    × Presents 2 r' (take 2 bytes ∷ [])
push_refines_example =
    push_refines (pos 6) 2 200 bytes 2 ring [] ring-IsRing (omega arith) ring-Presents (omega arith)
      (omega arith) (omega arith)

-- The ring after one push of three bytes.
abbrev ring_1 : Ring
ring_1 = record ring {
  header = record ring.header { write_idx = 1; total_writes = 1 };
  slots = set_slot 64 (record { sequence = 1; timestamp_ns = pos 6; data_size = 3 }) (λ o. no_slot);
  mem = blit (λ a. 0) 128 bytes;
}

ring_1-IsRing : IsRing 2 ring_1
ring_1-IsRing = record {
  slots = omega arith;
  word = omega arith;
  index = refl;
  stride = omega arith;
  holds = omega arith;
  fits = omega arith;
}

ring_1-Shows : Shows ring_1 0 1 bytes
unfolding slice blit
ring_1-Shows = record { room = omega arith; sequence = refl; data_size = refl; payload = refl }

ring_1-Presents : Presents 2 ring_1 (bytes ∷ [])
ring_1-Presents = record { count = refl; frame = frame }
  where
    frame :
        (age : ℕ)
        → age < length (bytes ∷ [])
        → age < 2
        → Shows ring_1
            ((length (bytes ∷ []) - 1 - age) % 2)
            (length (bytes ∷ []) - age)
            (get_or (bytes ∷ []) age [])
    frame zero lt lt_n = ring_1-Shows
    frame (suc age) lt lt_n = absurd (omega arith)

abbrev pub reader : Reader
reader = record {
  channel_name = "/cam";
  my_shm_name = "/cam_reader_7";
  max_slot_size = 4;
  ring_size = 2;
  is_initialized = true;
  my_slot_idx = some 0;
  control_fd = some 3;
  control_ptr = at 4096;
  header = at 4096;
  buffer_fd = some 4;
  buffer_ptr = at 8192;
  buffer_size = 200;
  ring_header = at 8192;
  slots_base = some 64;
  slot_total_size = 68;
}

reader-IsAttached : IsAttached 2 reader ring_1
reader-IsAttached = record {
  ring_ok = ring_1-IsRing;
  ready = refl;
  base = refl;
  slots = refl;
  half = omega arith;
  stride = refl;
}

get_latest-newest_example :
    (result : Option Found) × (Reader.get_latest reader ring_1 ≡ some result)
    × (bytes_of ring_1 result ≡ some bytes)
get_latest-newest_example =
    get_latest-newest 2 reader ring_1 (bytes ∷ []) reader-IsAttached ring_1-Presents

get_slot_keeps_history_example :
    (f : Found) × (Reader.get_slot reader ring_1 0 ≡ some (some f))
    × (slice ring_1.mem f.pointer f.size ≡ bytes)
    × (Reader.get_slot_sequence reader ring_1 0 ≡ some 1)
get_slot_keeps_history_example =
    get_slot_keeps_history 2 reader ring_1 (bytes ∷ []) 0 reader-IsAttached ring_1-Presents
      (omega arith) (omega arith)
