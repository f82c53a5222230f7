-- ===== src/Sahm/Tests/InPlace.antt =====
-- A frame stored in place at a concrete input.
use sim_library_v.Prelude.{ℕ, ◌≡◌, refl, some, List, [], ◌∷◌, take, arith}
use sim_library_v.Prelude.Int.{pos}
use sim_library_v.Sahm.Writer
use sim_library_v.Sahm.Writer.{Writer, Written, discover_readers}
use sim_library_v.Sahm.Shape.{SameShape}
use sim_library_v.Sahm.Delivery.{IsAbsent, AreDelivered, write_delivers}
use sim_library_v.Sahm.Stores.{store_all}
use sim_library_v.Sahm.InPlace.{in_place-eq-write}
use sim_library_v.Sahm.Tests.{ring, ring-IsRing, ring-Presents}
use sim_library_v.Sahm.Tests.Channel.{finds, writer, control, rings, info}

abbrev pair : List ℕ
pair = 7 ∷ 8 ∷ []

pair_written :
    (x : Written) × (Writer.write (pos 6) finds writer control rings pair 2 ≡ some x)
    × (x.count ≡ 1)
    × AreDelivered (take 2 pair) (info ∷ []) x.rings (λ o. [])
    × ((o : ℕ) → IsAbsent o (info ∷ []) → x.rings o ≡ ring)
    × (x.control ≡ record control { writer_heartbeat_ns = pos 6 })
    × ((o : ℕ) → SameShape ring (x.rings o))
    × (x.writer ≡ (discover_readers finds writer control).0)
unfolding discover_readers
pair_written =
    write_delivers (pos 6) finds writer control rings pair 2 (λ o. []) refl (omega arith)
      (omega arith) (λ v. tt, tt)
      (
        λ v. record {
          ring_ok = ring-IsRing;
          reach = omega arith;
          presents = ring-Presents;
          few = omega arith;
          fits = omega arith;
        },
        tt,
      )

in_place-eq-write_example :
    let (slots, w', calls) = Writer.get_write_slots finds writer control rings in
    (calls ≡ pair_written.0.calls)
    × (Writer.commit_slots (pos 6) w' control (store_all slots pair rings) 2
        ≡ some (record pair_written.0 { calls = [] }))
unfolding discover_readers
in_place-eq-write_example =
    in_place-eq-write (pos 6) finds writer control rings pair pair_written.0 refl (omega arith)
      (λ v. tt, tt) (omega arith, tt) pair_written.1
