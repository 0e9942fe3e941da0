-- ===== src/Bitmap/Scan.antt =====
-- The two scans of slotfs/bitops.h.
use native.Mathlib.Nat.{pow-suc}
use slotfs_eurosys.Base.{
  zero, suc, true, false, inl, inr, refl, ℕ, ◌+◌, ◌-◌, ◌%◌, ◌≤◌, ◌<◌, ◌≡◌, Bool, not, ◌&&◌, arith,
  bit_and, ◌/◌, ◌^◌, ◌==◌, Bool-cases,
}
use slotfs_eurosys.Base.Bits.{pow_pos, bit_and-pow}
use slotfs_eurosys.Bitmap.{Bytes, next_zero_loop, next_zero_bit, next_set_loop, next_set_bit}
use slotfs_eurosys.Bitmap.Bits.{bit}

-- `r` is the first position of `[offset, size)` that satisfies `hit`, or `size` if there is none.
pub record IsFirst (hit : ℕ → Bool) (offset size r : ℕ) : Type 0 where
  pub above : offset ≤ r
  pub below : r ≤ size
  pub skipped : (k : ℕ) → offset ≤ k → k < r → hit k ≡ false
  pub found : r < size → hit r ≡ true

module _ {hit : ℕ → Bool} {i size : ℕ} where
  IsFirst-here : hit i ≡ true → i < size → IsFirst hit i size i
  IsFirst-here h lt = record {
    above = omega arith;
    below = omega arith;
    skipped = λ k p r. absurd (omega arith);
    found = λ _. h;
  }

  IsFirst-later : {r : ℕ} → hit i ≡ false → IsFirst hit (i + 1) size r → IsFirst hit i size r
  IsFirst-later h f = record {
    above = omega (arith, f.above);
    below = f.below;
    skipped = λ k p r. elim (Bool-cases (k == i)) [
      | inl e ↦ let q : k ≡ i = ground arith in rw q h
      | inr n ↦ f.skipped k (ground arith) r
    ];
    found = f.found;
  }

IsFirst-end : (hit : ℕ → Bool) (size : ℕ) → IsFirst hit size size size
IsFirst-end hit size = record {
  above = omega arith;
  below = omega arith;
  skipped = λ k p r. absurd (omega arith);
  found = λ p. absurd (omega arith);
}

module _ (bmp : Bytes) (size : ℕ) where
  clear_test : (i : ℕ) → (bit_and (bmp (i / 8)) (2 ^ (i % 8)) == 0) ≡ not (bit bmp i)
  unfolding bit
  clear_test i = ground (arith, bit_and-pow (i % 8) (bmp (i / 8)), pow_pos (i % 8))

  next_zero_loop-IsFirst :
      (rounds i : ℕ)
      → i + rounds ≡ size
      → IsFirst (λ k. not (bit bmp k)) i size (next_zero_loop bmp size rounds i)
  unfolding next_zero_loop
  next_zero_loop-IsFirst zero i e = let q : i ≡ size = omega arith in rw q (IsFirst-end _ size)
  next_zero_loop-IsFirst (suc rounds) i e = elim (Bool-cases (bit bmp i)) [
    | inl used ↦
        rw (clear_test, used)
          (IsFirst-later (rw used) (next_zero_loop-IsFirst rounds (i + 1) (omega arith)))
    | inr free ↦ rw (clear_test, free) (IsFirst-here (rw free) (omega arith))
  ]

  -- From an offset of `size` at most, `next_zero_bit` returns the first position that is not in
  -- the bitmap, and `size` if there is none below it.
  pub next_zero_bit-IsFirst :
      (offset : ℕ)
      → offset ≤ size
      → IsFirst (λ k. not (bit bmp k)) offset size (next_zero_bit bmp size offset)
  unfolding next_zero_bit
  next_zero_bit-IsFirst offset h = next_zero_loop-IsFirst (size - offset) offset (omega arith)

  one_pow : (k : ℕ) → (2 ^ k == 1) ≡ (k == 0)
  one_pow zero = refl
  one_pow (suc k) = ground (arith, pow-suc 2 k, pow_pos k)

  one_test : (i : ℕ) → (bit_and (bmp (i / 8)) (2 ^ (i % 8)) == 1) ≡ (bit bmp i && (i % 8 == 0))
  unfolding bit
  one_test i = ground (arith, bit_and-pow (i % 8) (bmp (i / 8)), one_pow (i % 8))

  next_set_loop-IsFirst :
      (rounds i : ℕ)
      → i + rounds ≡ size
      → IsFirst (λ k. bit bmp k && (k % 8 == 0)) i size (next_set_loop bmp size rounds i)
  unfolding next_set_loop
  next_set_loop-IsFirst zero i e = let q : i ≡ size = omega arith in rw q (IsFirst-end _ size)
  next_set_loop-IsFirst (suc rounds) i e = elim (Bool-cases (bit bmp i && (i % 8 == 0))) [
    | inl hit ↦ rw (one_test, hit) (IsFirst-here hit (omega arith))
    | inr miss ↦
        rw (one_test, miss)
          (IsFirst-later miss (next_set_loop-IsFirst rounds (i + 1) (omega arith)))
  ]

  -- From an offset of `size` at most, `next_set_bit` returns the first position that is in the
  -- bitmap and is a multiple of 8, and `size` if there is none below it: it does not see the
  -- other positions.
  pub next_set_bit-IsFirst :
      (offset : ℕ)
      → offset ≤ size
      → IsFirst (λ k. bit bmp k && (k % 8 == 0)) offset size (next_set_bit bmp size offset)
  unfolding next_set_bit
  next_set_bit-IsFirst offset h = next_set_loop-IsFirst (size - offset) offset (omega arith)
