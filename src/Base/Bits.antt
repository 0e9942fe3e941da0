-- ===== src/Base/Bits.antt =====
-- The binary digits of a number, and how `&`, `|` and complement act on them at every width.
use Prim.Native.Nat.{
  ℕ, zero, suc, ◌+◌, ◌-◌, ◌*◌, ◌/◌, ◌%◌, ◌^◌, ◌≤◌, ◌<◌, min, max, bit_and, bit_or, digits,
  bit_and-bitwise, bit_or-bitwise,
}
use mathlib.Core.Path.{◌≡◌, refl, ap}
use mathlib.Core.Bool.{Bool, false, not, ◌&&◌, ◌||◌}
use native.Mathlib.Omega.{arith}
use native.Mathlib.Nat.{pow-suc, div-add-mod, mod-lt, mul-add-mod_self_left, mod-eq_of_lt}
use slotfs_eurosys.Base.Tests.{◌==◌, ltb, leb, if◌then◌else◌}

-- The digit recursion does not depend on the fuel that it is given beyond the first number.
digits_fuel :
    (rest : ℕ → ℕ) (op : ℕ → ℕ → ℕ) (n m a b : ℕ)
    → a ≤ n
    → a ≤ m
    → digits rest op n a b ≡ digits rest op m a b
digits_fuel rest op zero zero a b p r = refl
digits_fuel rest op zero (suc m) zero b p r = refl
digits_fuel rest op zero (suc m) (suc a) b p r = absurd (omega arith)
digits_fuel rest op (suc n) zero zero b p r = refl
digits_fuel rest op (suc n) zero (suc a) b p r = absurd (omega arith)
digits_fuel rest op (suc n) (suc m) zero b p r = refl
digits_fuel rest op (suc n) (suc m) (suc a) b p r =
    omega (arith, digits_fuel rest op n m (suc a / 2) (b / 2) (omega arith) (omega arith))

pub bit_and_step : (a b : ℕ) → bit_and a b ≡ bit_and (a / 2) (b / 2) * 2 + min (a % 2) (b % 2)
bit_and_step zero b = omega (arith, bit_and-bitwise 0 b, bit_and-bitwise 0 (b / 2))
bit_and_step (suc a) b = omega (
  arith,
  bit_and-bitwise (suc a) b,
  bit_and-bitwise (suc a / 2) (b / 2),
  digits_fuel (λ b. zero) min a (suc a / 2) (suc a / 2) (b / 2) (omega arith) (omega arith),
)

pub bit_or_step : (a b : ℕ) → bit_or a b ≡ bit_or (a / 2) (b / 2) * 2 + max (a % 2) (b % 2)
bit_or_step zero b = omega (arith, bit_or-bitwise 0 b, bit_or-bitwise 0 (b / 2))
bit_or_step (suc a) b = omega (
  arith,
  bit_or-bitwise (suc a) b,
  bit_or-bitwise (suc a / 2) (b / 2),
  digits_fuel (λ b. b) max a (suc a / 2) (suc a / 2) (b / 2) (omega arith) (omega arith),
)

-- Bit `i` of `a`.
unfoldable pub testbit : ℕ → ℕ → Bool
testbit a zero = a % 2 == 1
testbit a (suc i) = testbit (a / 2) i

pub testbit-or : (a b i : ℕ) → testbit (bit_or a b) i ≡ (testbit a i || testbit b i)
unfolding testbit
testbit-or a b zero = ground (arith, bit_or_step a b)
testbit-or a b (suc i) =
    let e : bit_or a b / 2 ≡ bit_or (a / 2) (b / 2) = omega (arith, bit_or_step a b) in
    rw e (testbit-or (a / 2) (b / 2) i)

pub testbit-and : (a b i : ℕ) → testbit (bit_and a b) i ≡ (testbit a i && testbit b i)
unfolding testbit
testbit-and a b zero = ground (arith, bit_and_step a b)
testbit-and a b (suc i) =
    let e : bit_and a b / 2 ≡ bit_and (a / 2) (b / 2) = omega (arith, bit_and_step a b) in
    rw e (testbit-and (a / 2) (b / 2) i)

-- Dropping the lowest digit commutes with cutting to a width.
half-mod : (a p : ℕ) → 0 < p → a % (p * 2) / 2 ≡ a / 2 % p
half-mod a p h =
    let r = a % (p * 2) in
    let split : a / 2 ≡ p * (a / (p * 2)) + r / 2 = omega (arith, div-add-mod a (p * 2)) in
    let small : r / 2 < p = omega (arith, mod-lt a {m = p * 2} (omega arith)) in
    rw (split, mul-add-mod_self_left, mod-eq_of_lt small)

pub pow_pos : (w : ℕ) → 0 < 2 ^ w
pow_pos zero = omega arith
pow_pos (suc w) = omega (arith, pow-suc 2 w, pow_pos w)

half-mod-pow : (a w : ℕ) → a % 2 ^ suc w / 2 ≡ a / 2 % 2 ^ w
half-mod-pow a w = rw (pow-suc 2 w) (half-mod a (2 ^ w) (pow_pos w))

parity-mod : (a w : ℕ) → a % 2 ^ suc w % 2 ≡ a % 2
parity-mod a w = omega (
  arith,
  pow-suc 2 w,
  div-add-mod a (2 ^ suc w),
  ap (λ (t : ℕ). t * (a / 2 ^ suc w)) (pow-suc 2 w),
)

pub testbit-zero : (i : ℕ) → testbit 0 i ≡ false
unfolding testbit
testbit-zero zero = refl
testbit-zero (suc i) = testbit-zero i

pub testbit-mod : (w a i : ℕ) → testbit (a % 2 ^ w) i ≡ (ltb i w && testbit a i)
unfolding testbit
testbit-mod zero a i = let e : a % 2 ^ 0 ≡ 0 = omega arith in rw e (rw testbit-zero (ground arith))
testbit-mod (suc w) a zero = ground (arith, parity-mod a w)
testbit-mod (suc w) a (suc i) =
    let e = half-mod-pow a w in rw e (rw (testbit-mod w (a / 2) i) (ground arith))

-- `~a`, in a word of `w` bits.
unfoldable pub complement : ℕ → ℕ → ℕ
complement w a = 2 ^ w - 1 - a % 2 ^ w

pub testbit-complement : (w a i : ℕ) → testbit (complement w a) i ≡ (ltb i w && not (testbit a i))
unfolding testbit complement
testbit-complement zero a i =
    let e : complement 0 a ≡ 0 = omega arith in rw e (rw testbit-zero (ground arith))
testbit-complement (suc w) a zero =
    ground (arith, parity-mod a w, pow-suc 2 w, pow_pos w, mod-lt a (pow_pos (suc w)))
testbit-complement (suc w) a (suc i) =
    let e : complement (suc w) a / 2 ≡ complement w (a / 2) =
      omega (arith, half-mod-pow a w, pow-suc 2 w, pow_pos w, mod-lt a (pow_pos (suc w))) in
    rw e (rw (testbit-complement w (a / 2) i) (ground arith))

-- `(1 << k) - 1`
pub testbit-ones : (k i : ℕ) → testbit (2 ^ k - 1) i ≡ ltb i k
unfolding testbit
testbit-ones zero i = rw testbit-zero (ground arith)
testbit-ones (suc k) zero = ground (arith, pow-suc 2 k, pow_pos k)
testbit-ones (suc k) (suc i) =
    let e : (2 ^ suc k - 1) / 2 ≡ 2 ^ k - 1 = omega (arith, pow-suc 2 k, pow_pos k) in
    rw e (rw (testbit-ones k i) (ground arith))

-- `a << s`
pub testbit-shl : (s a i : ℕ) → testbit (a * 2 ^ s) i ≡ (leb s i && testbit a (i - s))
unfolding testbit
testbit-shl zero a i =
    let e : a * 2 ^ 0 ≡ a = omega arith in
    let n : i - 0 ≡ i = omega arith in rw (e, n) (ground arith)
testbit-shl (suc s) a zero = ground (arith, pow-suc 2 s, ap (λ (t : ℕ). a * t) (pow-suc 2 s))
testbit-shl (suc s) a (suc i) =
    let e : a * 2 ^ suc s / 2 ≡ a * 2 ^ s = omega (arith, ap (λ (t : ℕ). a * t) (pow-suc 2 s)) in
    let n : suc i - suc s ≡ i - s = omega arith in rw (e, n) (rw (testbit-shl s a i) (ground arith))

bit_and-zero : (n a : ℕ) → a ≤ n → bit_and a 0 ≡ 0
bit_and-zero n zero h = omega (arith, bit_and-bitwise 0 0)
bit_and-zero zero (suc a) h = absurd (omega arith)
bit_and-zero (suc n) (suc a) h =
    omega (arith, bit_and_step (suc a) 0, bit_and-zero n (suc a / 2) (omega arith))

-- `a & (1 << k)` is `1 << k` or 0.
pub bit_and-pow : (k a : ℕ) → bit_and a (2 ^ k) ≡ (if testbit a k then 2 ^ k else 0)
unfolding testbit
bit_and-pow zero a = ground (arith, bit_and_step a 1, bit_and-zero (a / 2) (a / 2) (omega arith))
bit_and-pow (suc k) a =
    let half : 2 ^ suc k / 2 ≡ 2 ^ k = omega (arith, pow-suc 2 k) in
    let step : bit_and a (2 ^ suc k) ≡ bit_and (a / 2) (2 ^ suc k / 2) * 2 =
      omega (arith, bit_and_step a (2 ^ suc k), pow-suc 2 k) in
    rw (step, half, bit_and-pow k (a / 2)) (ground (arith, pow-suc 2 k))
