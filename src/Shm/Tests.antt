-- ===== src/Shm/Tests.antt =====
-- Witnesses of the bitmaps' set-up: 11 slots, of which the first 8 are in use.
use slotfs_eurosys.Base.{
  [], ◌∷◌, false, ℕ, if◌then◌else◌, ◌+◌, ◌*◌, ◌/◌, ◌%◌, ◌==◌, ◌≡◌, ◌≤◌, ◌<◌, arith, refl,
}
use slotfs_eurosys.Base.Bits.{testbit-zero}
use slotfs_eurosys.Bitmap.{Bytes}
use slotfs_eurosys.Bitmap.Bits.{bit}
use slotfs_eurosys.Slot.{DramBitmap}
use slotfs_eurosys.Slot.Count.{IsValid}
use slotfs_eurosys.Shm.{popcount, word_at, count_loop, count_bits, shm_init_bitmap}
use slotfs_eurosys.Shm.Bitmaps.{shm_init_bitmap-IsValid, from_pm}

abbrev pm : Bytes
pm i = if i == 64 then 255 else 0

abbrev old : Bytes
old i = 90

count_run : count_bits (λ i. 5) 13 ≡ 26
unfolding count_bits count_loop popcount word_at
count_run = refl

behind : (k : ℕ) → 11 ≤ k → k < (11 + 7) / 8 * 8 → bit (from_pm pm 64) k ≡ false
unfolding bit
behind k lo hi = let last : k / 8 ≡ 1 = omega (arith, lo, hi) in rw last (testbit-zero (k % 8))

shm_init_bitmap-IsValid_example :
    (b : DramBitmap) × (shm_init_bitmap 1 pm 64 11 old ≡ b ∷ [])
    × IsValid b
    × (b.bit_offset ≡ 0)
    × (b.bit_num ≡ 11)
    × ((k : ℕ) → k < 11 → bit b.dram k ≡ bit (from_pm pm 64) k)
shm_init_bitmap-IsValid_example =
    shm_init_bitmap-IsValid pm 64 11 old (λ i. ground arith) (λ i. omega arith) (omega arith) behind
