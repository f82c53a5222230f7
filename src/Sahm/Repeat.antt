-- ===== src/Sahm/Repeat.antt =====
-- `DirectWriter::write` again and again: after a frame was delivered, the next one can be.
use sim_library_v.Prelude.{ℕ, ◌+◌, ◌^◌, ◌<◌, ◌≡◌, sym, true, List, [], ◌∷◌, length, arith, inl, inr}
use mathlib.Core.Path.{subst}
use sim_library_v.Memory.Stores.{IsOneOf}
use sim_library_v.Sahm.Shape.{SameShape}
use sim_library_v.Sahm.Writer.{Info, Rings}
use sim_library_v.Sahm.Delivery.{IsReady, AreReady, AreDelivered, count_valid}

-- Where frames were delivered, another one of the size can be, if the count of writes has room.
pub AreDelivered-AreReady :
    (size : ℕ) (bytes : List ℕ) (is : List Info) (rings rings' : Rings) (frames : ℕ → List (List ℕ))
    → AreReady size is rings frames
    → AreDelivered bytes is rings' frames
    → ((o : ℕ) → SameShape (rings o) (rings' o))
    → ((o : ℕ) → length (frames o) + 2 < 2 ^ 64)
    → AreReady size is rings' (λ o. bytes ∷ frames o)
AreDelivered-AreReady size bytes [] rings rings' frames x d same few = tt
AreDelivered-AreReady size bytes (i ∷ is) rings rings' frames x d same few = (
  λ e. record {
    ring_ok = (d.0 e).ring_ok;
    reach = rw (same i.object).stride ((x.0 e).reach);
    presents = (d.0 e).presents;
    few = omega (arith, (d.0 e).presents.count, few i.object);
    fits = omega (arith, (x.0 e).fits, (same i.object).room);
  },
  AreDelivered-AreReady size bytes is rings rings' frames x.1 d.1 same few,
)

pub IsOneOf-IsReady :
    (size : ℕ) (i : Info) (is : List Info) (rings : Rings) (frames : ℕ → List (List ℕ))
    → AreReady size is rings frames
    → IsOneOf i is
    → i.valid ≡ true
    → IsReady size i (rings i.object) (frames i.object)
IsOneOf-IsReady size i [] rings frames x m e = absurd m
IsOneOf-IsReady size i (j ∷ is) rings frames x (inl same) e =
    subst (λ k. k.valid ≡ true → IsReady size k (rings k.object) (frames k.object)) (sym same) x.0 e
IsOneOf-IsReady size i (j ∷ is) rings frames x (inr m) e =
    IsOneOf-IsReady size i is rings frames x.1 m e

pub count_valid-positive :
    (i : Info) (is : List Info) → IsOneOf i is → i.valid ≡ true → 0 < count_valid is
count_valid-positive i [] m e = absurd m
count_valid-positive i (j ∷ is) (inl same) e = ground (arith, same, e)
count_valid-positive i (j ∷ is) (inr m) e = ground (arith, count_valid-positive i is m e)
