-- ===== src/Bitmap/Bits.antt =====
-- The bitmap as a set of positions, and what the byte stores and the single-bit operations of
-- slotfs/bitops.h do to it.
use native.Mathlib.Nat.{pow-suc}
use slotfs_eurosys.Base.{
  zero, suc, refl, ℕ, ◌/◌, ◌%◌, ◌^◌, ◌≡◌, Bool, not, ◌&&◌, ◌||◌, arith, ◌==◌, bit_or,
}
use slotfs_eurosys.Base.Bits.{
  testbit, testbit-or, testbit-and, testbit-mod, testbit-complement, testbit-zero, bit_and-pow,
  pow_pos, complement,
}
use slotfs_eurosys.Bitmap.{Bytes, or_byte, and_not_byte, set_bit, clear_bit, check_bit}

-- Position `j` is bit `j % 8` of byte `j / 8`.
unfoldable pub bit : Bytes → ℕ → Bool
bit bmp j = testbit (bmp (j / 8)) (j % 8)

pub bit-or_byte :
    (bmp : Bytes) (i mask j : ℕ)
    → bit (or_byte bmp i mask) j ≡ (bit bmp j || ((i == j / 8) && testbit mask (j % 8)))
unfolding bit or_byte
bit-or_byte bmp i mask j =
    ground (arith, testbit-mod 8 (bit_or (bmp i) mask) (j % 8), testbit-or (bmp i) mask (j % 8))

pub bit-and_not_byte :
    (bmp : Bytes) (i mask j : ℕ)
    → bit (and_not_byte bmp i mask) j ≡ (bit bmp j && not ((i == j / 8) && testbit mask (j % 8)))
unfolding bit and_not_byte
bit-and_not_byte bmp i mask j =
    ground
      (arith, testbit-and (bmp i) (complement 8 mask) (j % 8), testbit-complement 8 mask (j % 8))

pub testbit-pow : (k i : ℕ) → testbit (2 ^ k) i ≡ k == i
unfolding testbit
testbit-pow zero zero = refl
testbit-pow zero (suc i) = rw testbit-zero (ground arith)
testbit-pow (suc k) zero = ground (arith, pow-suc 2 k)
testbit-pow (suc k) (suc i) =
    let e : 2 ^ suc k / 2 ≡ 2 ^ k = omega (arith, pow-suc 2 k) in
    rw e (rw (testbit-pow k i) (ground arith))

-- `set_bit` adds its position and nothing else.
pub bit-set_bit : (nr : ℕ) (bmp : Bytes) (j : ℕ) → bit (set_bit nr bmp) j ≡ ((nr == j) || bit bmp j)
unfolding set_bit
bit-set_bit nr bmp j = rw (bit-or_byte, testbit-pow) (ground arith)

-- `clear_bit` removes its position and nothing else.
pub bit-clear_bit :
    (nr : ℕ) (bmp : Bytes) (j : ℕ) → bit (clear_bit nr bmp) j ≡ (not (nr == j) && bit bmp j)
unfolding clear_bit
bit-clear_bit nr bmp j = rw (bit-and_not_byte, testbit-pow) (ground arith)

-- `check_bit` is not 0 exactly for the positions in the bitmap.
pub check_bit-eq-zero : (nr : ℕ) (bmp : Bytes) → (check_bit nr bmp == 0) ≡ not (bit bmp nr)
unfolding check_bit bit
check_bit-eq-zero nr bmp = ground (arith, bit_and-pow (nr % 8) (bmp (nr / 8)), pow_pos (nr % 8))
