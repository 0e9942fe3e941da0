-- ===== src/Bitmap/Range.antt =====
-- The range operations of slotfs/bitops.h: exactly which positions they change.
use slotfs_eurosys.Base.{
  ℕ, ◌+◌, ◌-◌, ◌*◌, ◌/◌, ◌%◌, ◌^◌, ◌≤◌, ◌<◌, ◌≡◌, Bool, not, ◌&&◌, ◌||◌, arith, ◌⊎◌, ◌==◌, ltb, leb,
  if◌then◌else◌,
}
use slotfs_eurosys.Base.Bits.{testbit, testbit-ones, testbit-shl, testbit-zero}
use slotfs_eurosys.Bitmap.{
  Bytes, or_byte, and_not_byte, memset, head_bits, set_tail, set_bit_range, clear_tail,
  clear_bit_range,
}
use slotfs_eurosys.Bitmap.Bits.{bit, bit-or_byte, bit-and_not_byte}

-- `j` is one of the `count` positions from `start` on.
abbrev pub within : ℕ → ℕ → ℕ → Bool
within start count j = leb start j && ltb j (start + count)

-- How many of the `length` positions the code after the first byte reaches: the last byte is
-- written over the first of the full bytes, if there is one.
unfoldable pub tail_reach : ℕ → ℕ
tail_reach length = if ltb length 8 then length else length / 8 * 8

tail_reach-le : (length : ℕ) → tail_reach length ≤ length
unfolding tail_reach
tail_reach-le length = ground arith

-- How many positions of the range the code reaches.
unfoldable pub reach : ℕ → ℕ → ℕ
reach nr length =
    if nr % 8 == 0
    then tail_reach length
    else head_bits (nr % 8) length + tail_reach (length - head_bits (nr % 8) length)

bit-memset :
    (bmp : Bytes) (start value count j : ℕ)
    → bit (memset bmp start value count) j
      ≡ (if within (8 * start) (8 * count) j then testbit value (j % 8) else bit bmp j)
unfolding bit memset
bit-memset bmp start value count j = ground arith

bit-set_tail :
    (start_byte : ℕ) (bmp : Bytes) (length j : ℕ)
    → bit (set_tail start_byte bmp length) j
      ≡ (within (8 * start_byte) (tail_reach length) j || bit bmp j)
unfolding set_tail tail_reach
bit-set_tail start_byte bmp length j = ground (
  arith,
  bit-or_byte (memset bmp start_byte 0xff (length / 8)) start_byte (2 ^ (length % 8) - 1) j,
  bit-memset bmp start_byte 0xff (length / 8) j,
  testbit-ones (length % 8) (j % 8),
  testbit-ones 8 (j % 8),
)

bit-clear_tail :
    (start_byte : ℕ) (bmp : Bytes) (length j : ℕ)
    → bit (clear_tail start_byte bmp length) j
      ≡ (not (within (8 * start_byte) (tail_reach length) j) && bit bmp j)
unfolding clear_tail tail_reach
bit-clear_tail start_byte bmp length j = ground (
  arith,
  bit-and_not_byte (memset bmp start_byte 0x00 (length / 8)) start_byte (2 ^ (length % 8) - 1) j,
  bit-memset bmp start_byte 0x00 (length / 8) j,
  testbit-ones (length % 8) (j % 8),
  testbit-zero (j % 8),
)

-- the mask of the first byte
head_mask :
    (nr n j : ℕ)
    → n + nr % 8 ≤ 8
    → ((nr / 8 == j / 8) && testbit ((2 ^ n - 1) * 2 ^ (nr % 8)) (j % 8)) ≡ within nr n j
head_mask nr n j h =
    ground (arith, testbit-shl (nr % 8) (2 ^ n - 1) (j % 8), testbit-ones n (j % 8 - nr % 8))

-- `set_bit_range` adds the first `reach nr length` positions from `nr` on, and nothing else.
pub bit-set_bit_range :
    (nr : ℕ) (bmp : Bytes) (length j : ℕ)
    → bit (set_bit_range nr bmp length) j ≡ (within nr (reach nr length) j || bit bmp j)
unfolding set_bit_range reach head_bits
bit-set_bit_range nr bmp length j =
    let n = head_bits (nr % 8) length in
    let first = or_byte bmp (nr / 8) ((2 ^ n - 1) * 2 ^ (nr % 8)) in
    ground (
      arith,
      bit-set_tail (nr / 8) bmp length j,
      bit-set_tail (nr / 8 + 1) first (length - n) j,
      bit-or_byte bmp (nr / 8) ((2 ^ n - 1) * 2 ^ (nr % 8)) j,
      head_mask nr n j,
      tail_reach-le (length - n),
    )

-- `clear_bit_range` removes the first `reach nr length` positions from `nr` on, and nothing else.
pub bit-clear_bit_range :
    (nr : ℕ) (bmp : Bytes) (length j : ℕ)
    → bit (clear_bit_range nr bmp length) j ≡ (not (within nr (reach nr length) j) && bit bmp j)
unfolding clear_bit_range reach head_bits
bit-clear_bit_range nr bmp length j =
    let n = head_bits (nr % 8) length in
    let first = and_not_byte bmp (nr / 8) ((2 ^ n - 1) * 2 ^ (nr % 8)) in
    ground (
      arith,
      bit-clear_tail (nr / 8) bmp length j,
      bit-clear_tail (nr / 8 + 1) first (length - n) j,
      bit-and_not_byte bmp (nr / 8) ((2 ^ n - 1) * 2 ^ (nr % 8)) j,
      head_mask nr n j,
      tail_reach-le (length - n),
    )

-- The range `nr .. nr + length - 1` covers no whole byte.
abbrev pub IsShort : ℕ → ℕ → Type 0
IsShort nr length = nr + length < (nr + 7) / 8 * 8 + 8

reach_full :
    (nr length : ℕ) → ((nr + length) % 8 ≡ 0) ⊎ IsShort nr length → reach nr length ≡ length
unfolding reach head_bits tail_reach
reach_full nr length h = ground arith

reach_cut :
    (nr length : ℕ)
    → (nr + 7) / 8 * 8 + 8 ≤ nr + length
    → nr + reach nr length ≡ (nr + length) / 8 * 8
unfolding reach head_bits tail_reach
reach_cut nr length h = ground arith

module _ (nr : ℕ) (bmp : Bytes) (length j : ℕ) where
  -- `set_bit_range` adds exactly the positions `nr .. nr + length - 1`, if the range ends on a byte
  -- boundary or covers no whole byte.
  pub set_bit_range_exact :
      ((nr + length) % 8 ≡ 0) ⊎ IsShort nr length
      → bit (set_bit_range nr bmp length) j ≡ (within nr length j || bit bmp j)
  set_bit_range_exact h = rw (bit-set_bit_range, reach_full nr length h)

  -- `clear_bit_range` removes exactly the positions `nr .. nr + length - 1`, if the range ends on a
  -- byte boundary or covers no whole byte.
  pub clear_bit_range_exact :
      ((nr + length) % 8 ≡ 0) ⊎ IsShort nr length
      → bit (clear_bit_range nr bmp length) j ≡ (not (within nr length j) && bit bmp j)
  clear_bit_range_exact h = rw (bit-clear_bit_range, reach_full nr length h)

  -- Where a range covers a whole byte, neither operation changes the positions of the range that
  -- lie behind its last byte boundary.
  pub range_misses :
      (nr + 7) / 8 * 8 + 8 ≤ nr + length
      → (nr + length) / 8 * 8 ≤ j
      → (bit (set_bit_range nr bmp length) j ≡ bit bmp j)
        × (bit (clear_bit_range nr bmp length) j ≡ bit bmp j)
  range_misses covers behind =
      rw (bit-set_bit_range, bit-clear_bit_range)
        (ground (arith, reach_cut nr length), ground (arith, reach_cut nr length))
