-- ===== src/Bitmap.antt =====
-- slotfs/bitops.h: bitmaps in byte-addressed memory. A bitmap is the memory that `addr` points to,
-- byte by byte; the shifts, masks and byte stores are those of the source. Positions stay below
-- 2 ^ 31, so that the `int` results hold them.
pub mod Bits
pub mod Scan
pub mod Range
mod Tests
use slotfs_eurosys.Base.{
  ℕ, zero, suc, ◌+◌, ◌-◌, ◌*◌, ◌/◌, ◌%◌, ◌^◌, ◌&&◌, bit_and, bit_or, ◌==◌, ltb, leb, if◌then◌else◌,
  [], ◌∷◌, true, false, none, some, inl, inr, refl,
}
use slotfs_eurosys.Base.Bits.{complement}
use slotfs_eurosys.Base.Memory.{store}

abbrev pub Bytes : Type 0
Bytes = ℕ → ℕ

-- `bmp[i] |= mask`: the sum is cut to a byte when it is stored.
unfoldable pub or_byte : Bytes → ℕ → ℕ → Bytes
or_byte bmp i mask = store bmp i (bit_or (bmp i) mask % 2 ^ 8)

-- `bmp[i] &= ~mask`
unfoldable pub and_not_byte : Bytes → ℕ → ℕ → Bytes
and_not_byte bmp i mask = store bmp i (bit_and (bmp i) (complement 8 mask))

-- `memset(bmp + start, value, count)`
unfoldable pub memset : Bytes → ℕ → ℕ → ℕ → Bytes
memset bmp start value count j = if leb start j && ltb j (start + count) then value else bmp j

unfoldable pub set_bit : ℕ → Bytes → Bytes
set_bit nr bmp = or_byte bmp (nr / 8) (2 ^ (nr % 8))

unfoldable pub clear_bit : ℕ → Bytes → Bytes
clear_bit nr bmp = and_not_byte bmp (nr / 8) (2 ^ (nr % 8))

unfoldable pub check_bit : ℕ → Bytes → ℕ
check_bit nr bmp = bit_and (bmp (nr / 8)) (2 ^ (nr % 8))

-- `bits_to_set` and `bits_to_clear` in the first byte
unfoldable pub head_bits : ℕ → ℕ → ℕ
head_bits start_bit length = if ltb length (8 - start_bit) then length else 8 - start_bit

-- The full bytes and the last byte. The last byte is addressed by the `start_byte` from before the
-- `memset`.
unfoldable pub set_tail : ℕ → Bytes → ℕ → Bytes
set_tail start_byte bmp length =
    let filled = memset bmp start_byte 0xff (length / 8) in
    if ltb 0 (length % 8) then or_byte filled start_byte (2 ^ (length % 8) - 1) else filled

unfoldable pub set_bit_range : ℕ → Bytes → ℕ → Bytes
set_bit_range nr bmp length =
    let start_byte = nr / 8 in
    let start_bit = nr % 8 in
    let bits_to_set = head_bits start_bit length in
    if start_bit == 0
    then set_tail start_byte bmp length
    else set_tail (start_byte + 1) (or_byte bmp start_byte ((2 ^ bits_to_set - 1) * 2 ^ start_bit))
        (length - bits_to_set)

unfoldable pub clear_tail : ℕ → Bytes → ℕ → Bytes
clear_tail start_byte bmp length =
    let cleared = memset bmp start_byte 0x00 (length / 8) in
    if ltb 0 (length % 8) then and_not_byte cleared start_byte (2 ^ (length % 8) - 1) else cleared

unfoldable pub clear_bit_range : ℕ → Bytes → ℕ → Bytes
clear_bit_range nr bmp length =
    let start_byte = nr / 8 in
    let start_bit = nr % 8 in
    let bits_to_clear = head_bits start_bit length in
    if start_bit == 0
    then clear_tail start_byte bmp length
    else clear_tail (start_byte + 1)
        (and_not_byte bmp start_byte ((2 ^ bits_to_clear - 1) * 2 ^ start_bit))
        (length - bits_to_clear)

-- The loop of `next_zero_bit` from `i`, with the rounds that are left before `i` reaches `size`.
unfoldable pub next_zero_loop : Bytes → ℕ → ℕ → ℕ → ℕ
next_zero_loop bmp size zero i = size
next_zero_loop bmp size (suc rounds) i =
    let rest = next_zero_loop bmp size rounds (i + 1) in
    if bit_and (bmp (i / 8)) (2 ^ (i % 8)) == 0 then i else rest

unfoldable pub next_zero_bit : Bytes → ℕ → ℕ → ℕ
unfolding next_zero_loop
next_zero_bit bmp size offset = next_zero_loop bmp size (size - offset) offset

-- The test is `== 1`, as in the source.
unfoldable pub next_set_loop : Bytes → ℕ → ℕ → ℕ → ℕ
next_set_loop bmp size zero i = size
next_set_loop bmp size (suc rounds) i =
    let rest = next_set_loop bmp size rounds (i + 1) in
    if bit_and (bmp (i / 8)) (2 ^ (i % 8)) == 1 then i else rest

unfoldable pub next_set_bit : Bytes → ℕ → ℕ → ℕ
unfolding next_set_loop
next_set_bit bmp size offset = next_set_loop bmp size (size - offset) offset
