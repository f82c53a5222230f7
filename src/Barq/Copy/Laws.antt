-- ===== src/Barq/Copy/Laws.antt =====
-- The chunked copy is `memcpy`.
use mathlib.Core.Path.{fun_ext}
use sim_library_v.Prelude.{
  ℕ, zero, suc, ◌+◌, ◌*◌, ◌/◌, ◌%◌, ◌≤◌, ◌≡◌, refl, sym, ap, ◌∙◌, List, [], ◌∷◌, ◌++◌, length, take,
  drop, length-take, arith, inl, inr, Bool-cases, ltb, ◌==◌, ◌≢◌,
}
use sim_library_v.Memory.{Mem, blit}
use sim_library_v.Memory.Laws.{blit_outside}
use sim_library_v.Barq.Copy.{stream_chunks, nt_memcpy}

take-nil : (n : ℕ) → take {A = ℕ} n [] ≡ []
take-nil zero = refl
take-nil (suc n) = refl

-- A prefix is taken in two parts.
take_add : (n k : ℕ) (xs : List ℕ) → take (n + k) xs ≡ take n xs ++ take k (drop n xs)
take_add zero k xs = let e : 0 + k ≡ k = omega arith in ap (λ j. take j xs) e
take_add (suc n) k [] = take-nil (suc n + k) ∙ sym (take-nil k)
take_add (suc n) k (x ∷ xs) =
    let e : suc n + k ≡ suc (n + k) = omega arith in
    ap (λ j. take j (x ∷ xs)) e ∙ ap (λ l. x ∷ l) (take_add n k xs)

take_all : (n : ℕ) (xs : List ℕ) → length xs ≤ n → take n xs ≡ xs
take_all n [] h = take-nil n
take_all zero (x ∷ xs) h = absurd (omega arith)
take_all (suc n) (x ∷ xs) h = ap (λ l. x ∷ l) (take_all n xs (omega arith))

-- A byte after a write depends on that byte before it alone.
blit_ext : (m m' : Mem) (o : ℕ) (xs : List ℕ) (a : ℕ) → m a ≡ m' a → blit m o xs a ≡ blit m' o xs a
unfolding blit
blit_ext m m' o [] a h = h
blit_ext m m' o (x ∷ xs) a h = ground (arith, blit_ext m m' (o + 1) xs a)

blit_tail :
    (m : Mem) (o x : ℕ) (xs : List ℕ) (a : ℕ) → a ≢ o → blit m o (x ∷ xs) a ≡ blit m (o + 1) xs a
unfolding blit
blit_tail m o x xs a h = ground arith

blit_head : (m : Mem) (o x : ℕ) (xs : List ℕ) → blit m o (x ∷ xs) o ≡ x
unfolding blit
blit_head m o x xs = ground arith

blit-blit :
    (m : Mem) (o : ℕ) (xs ys : List ℕ) (a : ℕ)
    → blit (blit m o xs) (o + length xs) ys a ≡ blit m o (xs ++ ys) a
blit-blit m o [] ys a =
    let e : o + 0 ≡ o = omega arith in
    ap (λ k. blit (blit m o []) k ys a) e ∙ blit_ext (blit m o []) m o ys a (unfold blit in refl)
blit-blit m o (x ∷ xs) ys a = elim (Bool-cases (a == o)) [
  | inl same ↦
      let e : a ≡ o = ground arith in
      rw e (
        blit_outside (blit m o (x ∷ xs)) (o + suc (length xs)) ys o (inl (omega arith))
        ∙ blit_head m o x xs
        ∙ sym (blit_head m o x (xs ++ ys)))
  | inr apart ↦
      let ne : a ≢ o = ground arith in
      let e : o + suc (length xs) ≡ o + 1 + length xs = omega arith in
      ap (λ k. blit (blit m o (x ∷ xs)) k ys a) e
      ∙ blit_ext (blit m o (x ∷ xs)) (blit m (o + 1) xs) (o + 1 + length xs) ys a
          (blit_tail m o x xs a ne)
      ∙ blit-blit m (o + 1) xs ys a
      ∙ sym (blit_tail m o x (xs ++ ys) a ne)
]

-- Two adjacent writes are one.
blit-append :
    (m : Mem) (o k : ℕ) (xs ys : List ℕ)
    → length xs ≡ k
    → blit (blit m o xs) (o + k) ys ≡ blit m o (xs ++ ys)
blit-append m o k xs ys e = rw (← e) (fun_ext (blit-blit m o xs ys))

blit-take :
    (m : Mem) (o i n : ℕ) (src : List ℕ)
    → i ≤ length src
    → blit (blit m o (take i src)) (o + i) (take n (drop i src)) ≡ blit m o (take (i + n) src)
blit-take m o i n src h =
    blit-append m o i (take i src) (take n (drop i src)) (omega (arith, length-take i src))
    ∙ ap (λ l. blit m o l) (sym (take_add i n src))

-- From chunk `i` on the loop extends the prefix that is copied.
stream_chunks_lem :
    (left i : ℕ) (m : Mem) (dst : ℕ) (src : List ℕ)
    → (i + left) * 16 ≤ length src
    → stream_chunks left i (blit m dst (take (i * 16) src)) dst src
      ≡ blit m dst (take ((i + left) * 16) src)
unfolding stream_chunks
stream_chunks_lem zero i m dst src h =
    let e : i * 16 ≡ (i + 0) * 16 = omega arith in ap (λ k. blit m dst (take k src)) e
stream_chunks_lem (suc left) i m dst src h =
    let e : i * 16 + 16 ≡ (i + 1) * 16 = omega arith in
    let f : (i + 1 + left) * 16 ≡ (i + suc left) * 16 = omega arith in
    ap (λ n. stream_chunks left (i + 1) n dst src)
      (blit-take m dst (i * 16) 16 src (omega arith) ∙ ap (λ k. blit m dst (take k src)) e)
    ∙ stream_chunks_lem left (i + 1) m dst src (omega arith)
    ∙ ap (λ k. blit m dst (take k src)) f

blit-nil : (m : Mem) (o : ℕ) → blit m o [] ≡ m
unfolding blit
blit-nil m o = fun_ext (λ a. refl)

streamed :
    (m : Mem) (dst : ℕ) (src : List ℕ)
    → stream_chunks (length src / 16) 0 m dst src ≡ blit m dst (take (length src / 16 * 16) src)
streamed m dst src =
    let e : (0 + length src / 16) * 16 ≡ length src / 16 * 16 = omega arith in
    ap (λ n. stream_chunks (length src / 16) 0 n dst src) (sym (blit-nil m dst))
    ∙ stream_chunks_lem (length src / 16) 0 m dst src (omega arith)
    ∙ ap (λ k. blit m dst (take k src)) e

-- `ntMemcpy` leaves the memory that `memcpy` leaves, for every size.
pub nt_memcpy-eq-blit : (m : Mem) (dst : ℕ) (src : List ℕ) → nt_memcpy m dst src ≡ blit m dst src
unfolding nt_memcpy
nt_memcpy-eq-blit m dst src =
    let n : ℕ = length src in
    let whole : n / 16 * 16 + n % 16 ≡ n = omega arith in
    elim (Bool-cases (ltb 0 (n % 16))) [
      | inl rest ↦
          rw (rest, streamed m dst src)
            (blit-take m dst (n / 16 * 16) (n % 16) src (omega arith)
              ∙ ap (λ l. blit m dst l) (take_all (n / 16 * 16 + n % 16) src (omega arith)))
      | inr even ↦
          let full : n ≤ n / 16 * 16 = ground arith in
          rw (even, streamed m dst src) (ap (λ l. blit m dst l) (take_all (n / 16 * 16) src full))
    ]
