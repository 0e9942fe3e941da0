-- ===== src/Bitmap/Tests.antt =====
-- Witnesses and runs of the bitmap operations on a small bitmap.
use slotfs_eurosys.Base.{refl, if◌then◌else◌, ◌==◌, ◌≡◌}
use slotfs_eurosys.Bitmap.{next_set_loop, next_zero_loop, Bytes, next_set_bit, next_zero_bit}

abbrev no_bits : Bytes
no_bits i = 0

-- positions 0 to 10 are in the bitmap
abbrev eleven_bits : Bytes
eleven_bits i = if i == 0 then 0xff else if i == 1 then 0x07 else 0

next_zero_bit_run : next_zero_bit eleven_bits 20 3 ≡ 11
unfolding next_zero_bit next_zero_loop
next_zero_bit_run = refl

next_set_bit_run : next_set_bit eleven_bits 20 1 ≡ 8
unfolding next_set_bit next_set_loop
next_set_bit_run = refl
