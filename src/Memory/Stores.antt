-- ===== src/Memory/Stores.antt =====
-- Single stores that become visible to another process one by one, in part and in any order.
use mathlib.Core.Path.{subst}
use sim_library_v.Prelude.{refl, sym, ◌≡◌, ◌⊎◌, inl, inr, List, [], ◌∷◌, ◌++◌}

module _ {X : Type 0} where
  abbrev pub All : (X → Type 0) → List X → Type 0
  All P [] = Unit
  All P (x ∷ xs) = P x × All P xs

  -- `x` is one of `ys`.
  abbrev pub IsOneOf : X → List X → Type 0
  IsOneOf x [] = ⊥
  IsOneOf x (y ∷ ys) = (x ≡ y) ⊎ IsOneOf x ys

  -- All of `xs` are among `ys`, in any order and number.
  abbrev pub AreAmong : List X → List X → Type 0
  AreAmong [] ys = Unit
  AreAmong (x ∷ xs) ys = IsOneOf x ys × AreAmong xs ys

  IsOneOf-All : (P : X → Type 0) (x : X) (ys : List X) → All P ys → IsOneOf x ys → P x
  IsOneOf-All P x [] b m = absurd m
  IsOneOf-All P x (y ∷ ys) b (inl e) = subst P (sym e) b.0
  IsOneOf-All P x (y ∷ ys) b (inr m) = IsOneOf-All P x ys b.1 m

  pub All-AreAmong : (P : X → Type 0) (xs ys : List X) → All P ys → AreAmong xs ys → All P xs
  All-AreAmong P [] ys b m = tt
  All-AreAmong P (x ∷ xs) ys b m = (IsOneOf-All P x ys b m.0, All-AreAmong P xs ys b m.1)

  pub All-append : (P : X → Type 0) (xs ys : List X) → All P xs → All P ys → All P (xs ++ ys)
  All-append P [] ys a b = b
  All-append P (x ∷ xs) ys a b = (a.0, All-append P xs ys a.1 b)

-- `X` are the stores, and `S` is what they store into.
module _ {X S : Type 0} where
  -- The stores one after the other.
  abbrev pub apply_all : (X → S → S) → List X → S → S
  apply_all apply [] s = s
  apply_all apply (x ∷ xs) s = apply_all apply xs (apply x s)

  -- What every single store keeps, all of them keep.
  pub apply_all-keeps :
      (apply : X → S → S) (IsGood : X → Type 0) (IsKept : S → Type 0)
      → ((x : X) (t : S) → IsGood x → IsKept t → IsKept (apply x t))
      → (xs : List X) (t : S) → All IsGood xs
      → IsKept t
      → IsKept (apply_all apply xs t)
  apply_all-keeps apply IsGood IsKept step [] t g k = k
  apply_all-keeps apply IsGood IsKept step (x ∷ xs) t g k =
      apply_all-keeps apply IsGood IsKept step xs (apply x t) g.1 (step x t g.0 k)

-- A moment of the stores `ys` and a last one, a release: during them some have become visible, or all
-- are.
pub data Moment {X : Type 0} (ys : List X) : Type 0 where
  during : (xs : List X) → AreAmong xs ys → Moment ys
  finished : Moment ys

-- What is visible then.
abbrev pub at_moment : {X S : Type 0} → (X → S → S) → (ys : List X) → X → S → Moment ys → S
at_moment apply ys last s (during xs m) = apply_all apply xs s
at_moment apply ys last s finished = apply last (apply_all apply ys s)

-- A load after one that acquired: where that one saw the release, this one sees all stores.
abbrev pub IsAfter : {X : Type 0} {ys : List X} → Moment ys → Moment ys → Type 0
IsAfter (during xs m) b = Unit
IsAfter finished (during xs m) = ⊥
IsAfter finished finished = Unit

module _ {X S : Type 0} (apply : X → S → S) (ys : List X) (last : X) (s : S) where
  pub at_moment-keeps :
      (IsGood : X → Type 0) (IsKept : S → Type 0)
      → ((x : X) (t : S) → IsGood x → IsKept t → IsKept (apply x t))
      → (m : Moment ys) → All IsGood ys
      → IsGood last
      → IsKept s
      → IsKept (at_moment apply ys last s m)
  at_moment-keeps IsGood IsKept step (during xs m) g l k =
      apply_all-keeps apply IsGood IsKept step xs s (All-AreAmong IsGood xs ys g m) k
  at_moment-keeps IsGood IsKept step finished g l k =
      step last (apply_all apply ys s) l (apply_all-keeps apply IsGood IsKept step ys s g k)

  pub at_moment-IsAfter :
      (m : Moment ys)
      → IsAfter finished m
      → at_moment apply ys last s m ≡ apply last (apply_all apply ys s)
  at_moment-IsAfter (during xs m) a = absurd a
  at_moment-IsAfter finished a = refl

pub Moment-cases :
    {X : Type 0} {ys : List X} (m : Moment ys)
    → (m ≡ finished) ⊎ (xs : List X) × (among : AreAmong xs ys) × (m ≡ during xs among)
Moment-cases (during xs among) = inr (xs, among, refl)
Moment-cases finished = inl refl
