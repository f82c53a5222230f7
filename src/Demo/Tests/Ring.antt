-- ===== src/Demo/Tests/Ring.antt =====
-- The programs of examples/ for SAHM at a concrete input: a ring of two slots.
use sim_library_v.Prelude.{◌≡◌, refl, true, some, List, [], ◌∷◌, arith, inl}
use sim_library_v.Prelude.Int.{pos}
use sim_library_v.Memory.Stores.{All}
use sim_library_v.Os.{at}
use sim_library_v.Sahm.Ring.{Ring}
use sim_library_v.Sahm.Writer.{Writer, Info, Find, discover_readers}
use sim_library_v.Sahm.Reader.{Reader}
use sim_library_v.Sahm.History.{IsRing, Presents}
use sim_library_v.Sahm.Tests.{ring, reader}
use sim_library_v.Sahm.Tests.Channel.{control, writer}
use sim_library_v.Demo.Frame.{frame}
use sim_library_v.Demo.Sahm.{Line, channel}
use sim_library_v.Demo.Sahm.Run.{Event, send, receive, System, step, run, IsSystem, IsGood, AreGood}
use sim_library_v.Demo.Sahm.Whole.{sahm_programs}

abbrev wide_ring : Ring
wide_ring = record ring {
  size = 2240;
  header = record ring.header { slot_data_size = 1024; slot_total_size = 1088 };
}

abbrev found : Info
found = record { fd = some 5; ptr = at 12288; size = 2240; object = 0; ring_size = 2; valid = true }

abbrev wide_writer : Writer
wide_writer = record writer { channel_name = channel; max_slot_size = 1024; readers = found ∷ [] }

abbrev wide_reader : Reader
wide_reader = record reader {
  channel_name = channel;
  max_slot_size = 1024;
  buffer_size = 2240;
  slot_total_size = 1088;
}

abbrev system : System
system = record {
  sending = record { writer = wide_writer; bytes = λ a. 0; sequence = 0 };
  receiving = record { reader = wide_reader; last_total = 0; last_log = pos 0 };
  world = record { control = record control { max_slot_size = 1024 }; rings = λ o. wide_ring };
}

wide_ring-IsRing : IsRing 2 wide_ring
wide_ring-IsRing = record {
  slots = omega arith;
  word = omega arith;
  index = refl;
  stride = omega arith;
  holds = omega arith;
  fits = omega arith;
}

wide_ring-Presents : Presents 2 wide_ring []
wide_ring-Presents = record { count = refl; frame = λ age lt lt_n. absurd (omega arith) }

nothing_new :
    (fs : List Find) → (discover_readers fs wide_writer system.world.control).0 ≡ wide_writer
unfolding discover_readers
nothing_new [] = refl
nothing_new (f ∷ []) = refl
nothing_new (f ∷ g ∷ fs) = refl

system-IsSystem : IsSystem found 0 2 (λ o. []) system
system-IsSystem = record {
  ready = refl;
  max = omega arith;
  stable = nothing_new;
  apart = (λ v. tt, tt);
  rings = (
    λ v. record {
      ring_ok = wide_ring-IsRing;
      reach = omega arith;
      presents = wide_ring-Presents;
      few = omega arith;
      fits = omega arith;
    },
    tt,
  );
  few = λ o. omega arith;
  few_frames = omega arith;
  found = inl refl;
  valid = refl;
  attached = record {
    ring_ok = wide_ring-IsRing;
    ready = refl;
    base = refl;
    slots = refl;
    half = omega arith;
    stride = refl;
  };
  mapped = (8192, refl);
  count = refl;
  latest = inl refl;
  last = omega arith;
}

abbrev events : List Event
events =
    send (pos 6) []
    ∷ receive (pos 2000000000) (pos 8)
    ∷ send (pos 9) []
    ∷ receive (pos 10) (pos 11)
    ∷ []

sahm_programs_example :
    (lines : List Line) × (y : System) × (run 0 events system ≡ some (lines, y))
    × AreGood 2 0 events 0 lines
    × (y.sending.sequence ≡ 2)
    × Presents 2 (y.world.rings 0) (frame 1 ∷ frame 0 ∷ [])
    × ((more : List Line) × (z : System) × (step 0 (receive (pos 12) (pos 13)) y ≡ some (more, z))
        × All (IsGood 2 0 2) more
        × (z.receiving.last_total ≡ 2))
sahm_programs_example =
    sahm_programs found 0 (pos 12) (pos 13) events (λ o. []) system system-IsSystem
