-- ===== src/Slot/Count.antt =====
-- The invariant of a slot bitmap: `remain` counts its free positions.
use slotfs_eurosys.Base.{
  ℕ, zero, suc, ◌+◌, ◌≤◌, ◌<◌, ◌^◌, ◌≡◌, refl, true, false, arith, ◌==◌, if◌then◌else◌, inl, inr,
  Bool-cases,
}
use slotfs_eurosys.Bitmap.{Bytes}
use slotfs_eurosys.Bitmap.Bits.{bit}
use slotfs_eurosys.Slot.{DramBitmap}

-- How many positions below `n` are free.
unfoldable pub count_free : Bytes → ℕ → ℕ
count_free bmp zero = 0
count_free bmp (suc n) = (if bit bmp n then 0 else 1) + count_free bmp n

pub record IsValid (b : DramBitmap) : Type 0 where
  pub hint_in : b.hint ≤ b.bit_num
  pub small : b.bit_num < 2 ^ 31
  pub counted : b.remain ≡ count_free b.dram b.bit_num

pub count_free-le : (bmp : Bytes) (n : ℕ) → count_free bmp n ≤ n
unfolding count_free
count_free-le bmp zero = omega arith
count_free-le bmp (suc n) = ground (arith, count_free-le bmp n)

-- With a free position there is one in the count; with none free the count is 0.
pub count_free-pos : (bmp : Bytes) (n k : ℕ) → k < n → bit bmp k ≡ false → 0 < count_free bmp n
unfolding count_free
count_free-pos bmp zero k h free = absurd (omega arith)
count_free-pos bmp (suc n) k h free = elim (Bool-cases (k == n)) [
  | inl e ↦ let q : k ≡ n = ground arith in ground arith
  | inr e ↦ omega (arith, count_free-pos bmp n k (ground arith) free)
]

pub count_free_none :
    (bmp : Bytes) (n : ℕ) → ((k : ℕ) → k < n → bit bmp k ≡ true) → count_free bmp n ≡ 0
unfolding count_free
count_free_none bmp zero used = refl
count_free_none bmp (suc n) used =
    rw (used n (omega arith), count_free_none bmp n (λ k h. used k (omega arith))) (omega arith)

pub count_free_same :
    (f g : Bytes) (n : ℕ) → ((k : ℕ) → k < n → bit f k ≡ bit g k) → count_free f n ≡ count_free g n
unfolding count_free
count_free_same f g zero same = refl
count_free_same f g (suc n) same =
    rw (same n (omega arith), count_free_same f g n (λ k h. same k (omega arith)))

-- Two bitmaps that differ at one position, which only the second has free.
pub count_free_flip :
    (f g : Bytes) (n k : ℕ)
    → k < n
    → bit f k ≡ true
    → bit g k ≡ false
    → ((j : ℕ) → (k == j) ≡ false → bit f j ≡ bit g j)
    → count_free f n + 1 ≡ count_free g n
unfolding count_free
count_free_flip f g zero k h p r same = absurd (omega arith)
count_free_flip f g (suc n) k h p r same = elim (Bool-cases (k == n)) [
  | inl e ↦
      let q : k ≡ n = ground arith in
      ground (arith, count_free_same f g n (λ j lt. same j (ground arith)))
  | inr e ↦ ground (arith, same n e, count_free_flip f g n k (ground arith) p r same)
]
