-- ===== src/Bits.antt =====
-- Laws of the native bit operations at every width: `x & ~(2^k - 1)` as rounding down, and the
-- cancellation, bound and shift of `^`.
mod Step
use Step.{bit_and_digit, bit_xor_digit}
use Prim.Native.Nat.{differ}
use native.Mathlib.Nat.{pow-suc, pow-succ', one-le-pow, div-div-eq-div-mul}
use sim_library_v.Prelude.{
  ℕ, zero, suc, ◌+◌, ◌-◌, ◌*◌, ◌/◌, ◌%◌, ◌^◌, ◌≤◌, ◌<◌, bit_and, bit_xor, ◌≡◌, refl, ap, arith,
}

-- A digit flipped twice by the same digit is back.
differ_cancel : (a b : ℕ) → a < 2 → b < 2 → (differ (differ a b) b ≡ a) × (differ a b < 2)
differ_cancel zero zero p q = omega arith
differ_cancel zero (suc zero) p q = omega arith
differ_cancel zero (suc (suc b)) p q = absurd (omega arith)
differ_cancel (suc zero) zero p q = omega arith
differ_cancel (suc zero) (suc zero) p q = omega arith
differ_cancel (suc a) (suc (suc b)) p q = absurd (omega arith)
differ_cancel (suc (suc a)) b p q = absurd (omega arith)

differ_comm : (a b : ℕ) → differ a b ≡ differ b a
differ_comm zero zero = refl
differ_comm zero (suc b) = refl
differ_comm (suc a) zero = refl
differ_comm (suc a) (suc b) = differ_comm a b

-- The lowest digit of `a ^ b` is a digit, and gives back that of `a`.
low_digit :
    (a b : ℕ) → (differ (differ (a % 2) (b % 2)) (b % 2) ≡ a % 2) × (differ (a % 2) (b % 2) < 2)
low_digit a b = differ_cancel (a % 2) (b % 2) (omega arith) (omega arith)

-- Shifting right by one is digit-wise.
pub bit_xor-half : (a b : ℕ) → bit_xor a b / 2 ≡ bit_xor (a / 2) (b / 2)
bit_xor-half a b = omega (arith, bit_xor_digit a b, low_digit a b)

-- Numbers below `2 ^ k` stay there.
pub bit_xor-lt : (k a b : ℕ) → a < 2 ^ k → b < 2 ^ k → bit_xor a b < 2 ^ k
bit_xor-lt zero a b p q =
    let ea : a ≡ 0 = omega arith in let eb : b ≡ 0 = omega arith in rw (ea, eb) (omega arith)
bit_xor-lt (suc k) a b p q =
    let half : bit_xor (a / 2) (b / 2) < 2 ^ k =
      bit_xor-lt k (a / 2) (b / 2) (omega (arith, pow-suc 2 k)) (omega (arith, pow-suc 2 k)) in
    omega (arith, bit_xor_digit a b, pow-suc 2 k, low_digit a b)

-- `^` by the same number twice changes nothing.
pub bit_xor_cancel : (k a b : ℕ) → a < 2 ^ k → b < 2 ^ k → bit_xor (bit_xor a b) b ≡ a
bit_xor_cancel zero a b p q =
    let ea : a ≡ 0 = omega arith in let eb : b ≡ 0 = omega arith in rw (ea, eb) refl
bit_xor_cancel (suc k) a b p q =
    let half : bit_xor (bit_xor (a / 2) (b / 2)) (b / 2) ≡ a / 2 =
      bit_xor_cancel k (a / 2) (b / 2) (omega (arith, pow-suc 2 k)) (omega (arith, pow-suc 2 k)) in
    let low : bit_xor a b % 2 ≡ differ (a % 2) (b % 2) =
      omega (arith, bit_xor_digit a b, low_digit a b) in
    rw (bit_xor_digit (bit_xor a b) b, bit_xor-half, low, half, (low_digit a b).0) (omega arith)

-- `x & (2^n - 2^k)` clears the low `k` bits of an `n`-bit number.
pub bit_and_high : (n k x : ℕ) → k ≤ n → x < 2 ^ n → bit_and x (2 ^ n - 2 ^ k) ≡ x / 2 ^ k * 2 ^ k
bit_and_high zero zero x p q = let e : x ≡ 0 = omega arith in rw e refl
bit_and_high zero (suc k) x p q = absurd (omega arith)
bit_and_high (suc n) zero x p q =
    let half : bit_and (x / 2) (2 ^ n - 2 ^ 0) ≡ x / 2 / 2 ^ 0 * 2 ^ 0 =
      bit_and_high n 0 (x / 2) (omega arith) (omega (arith, pow-suc 2 n)) in
    let mask : (2 ^ suc n - 2 ^ 0) / 2 ≡ 2 ^ n - 2 ^ 0 = omega (arith, pow-suc 2 n) in
    let low : (2 ^ suc n - 2 ^ 0) % 2 ≡ 1 = omega (arith, pow-suc 2 n, one-le-pow n 2) in
    rw (bit_and_digit x (2 ^ suc n - 2 ^ 0), mask, low, half) (omega arith)
bit_and_high (suc n) (suc k) x p q =
    let half : bit_and (x / 2) (2 ^ n - 2 ^ k) ≡ x / 2 / 2 ^ k * 2 ^ k =
      bit_and_high n k (x / 2) (omega arith) (omega (arith, pow-suc 2 n)) in
    let mask : (2 ^ suc n - 2 ^ suc k) / 2 ≡ 2 ^ n - 2 ^ k =
      omega (arith, pow-suc 2 n, pow-suc 2 k) in
    let low : (2 ^ suc n - 2 ^ suc k) % 2 ≡ 0 = omega (arith, pow-suc 2 n, pow-suc 2 k) in
    rw (bit_and_digit x (2 ^ suc n - 2 ^ suc k), mask, low, half)
      (rw (div-div-eq-div-mul x 2 (2 ^ k), pow-succ' 2 k) (omega arith))

bit_and-zero : (n x : ℕ) → x < 2 ^ n → bit_and x 0 ≡ 0
bit_and-zero zero x p = let e : x ≡ 0 = omega arith in rw e refl
bit_and-zero (suc n) x p =
    omega (arith, bit_and_digit x 0, bit_and-zero n (x / 2) (omega (arith, pow-suc 2 n)))

-- `x & 1` is the parity of a word.
pub bit_and_one : (n x : ℕ) → x < 2 ^ n → bit_and x 1 ≡ x % 2
bit_and_one n x p = omega (arith, bit_and_digit x 1, bit_and-zero n (x / 2) (omega arith))

-- The order of the numbers does not matter.
pub bit_xor_comm : (n a b : ℕ) → a < 2 ^ n → b < 2 ^ n → bit_xor a b ≡ bit_xor b a
bit_xor_comm zero a b p q =
    let ea : a ≡ 0 = omega arith in let eb : b ≡ 0 = omega arith in rw (ea, eb) refl
bit_xor_comm (suc n) a b p q =
    let half : bit_xor (a / 2) (b / 2) ≡ bit_xor (b / 2) (a / 2) =
      bit_xor_comm n (a / 2) (b / 2) (omega (arith, pow-suc 2 n)) (omega (arith, pow-suc 2 n)) in
    rw (bit_xor_digit a b, bit_xor_digit b a, half, differ_comm (a % 2) (b % 2)) refl
