-- ===== src/Shm.antt =====
-- slotfs/shm.c: the bitmaps in shared memory that `shm_init_bitmap` makes from those of persistent
-- memory, for one slot type, and `count_bits` of slotfs/slotfs.h. A bitmap in DRAM is a function from
-- the byte's index; what lies behind its bytes is `old`, the memory before.
pub mod Popcount
pub mod Bitmaps
mod Tests
use slotfs_eurosys.Base.{
  [], ◌∷◌, zero, suc, List, ℕ, Bool, if◌then◌else◌, ◌+◌, ◌*◌, ◌/◌, ◌%◌, ◌==◌, ltb, leb, ◌-◌, true,
  false, none, some, inl, inr, refl,
}
use slotfs_eurosys.Base.Word.{sub64}
use slotfs_eurosys.Bitmap.{Bytes, next_zero_bit}
use slotfs_eurosys.Slot.{DramBitmap}

-- `__builtin_popcount` of a word of so many bits.
unfoldable pub popcount : ℕ → ℕ → ℕ
popcount zero word = 0
popcount (suc bits) word = word % 2 + popcount bits (word / 2)

-- The word of so many bytes at an address, the lowest byte first.
unfoldable pub word_at : Bytes → ℕ → ℕ → ℕ
word_at bitmap ptr zero = 0
word_at bitmap ptr (suc n) = bitmap ptr + 256 * word_at bitmap (ptr + 1) n

-- A loop of `count_bits` over words of `width` bytes while `more` holds of the length that is left:
-- the pointer, the length and the count.
unfoldable pub count_loop : (ℕ → Bool) → ℕ → ℕ → Bytes → ℕ × ℕ × ℕ → ℕ × ℕ × ℕ
count_loop more width zero bitmap (ptr, len, bit_count) = (ptr, len, bit_count)
count_loop more width (suc rounds) bitmap (ptr, len, bit_count) =
    let rest =
      count_loop more width rounds bitmap
        (ptr + width, len - width, bit_count + popcount (width * 8) (word_at bitmap ptr width)) in
    if more len then rest else (ptr, len, bit_count)

unfoldable pub count_bits : Bytes → ℕ → ℕ
count_bits bitmap len =
    let words = count_loop (ltb 8) 8 len bitmap (0, len, 0) in
    let halves = count_loop (leb 4) 4 len bitmap words in (count_loop (ltb 0) 1 len bitmap halves).2

-- `memcpy` of the bytes from persistent memory
abbrev pub copy_bytes : Bytes → ℕ → ℕ → Bytes → Bytes
copy_bytes pm pm_start bytes old i = if ltb i bytes then pm (pm_start + i) else old i

-- One bitmap.
unfoldable pub init_map : Bytes → ℕ → ℕ → ℕ → Bytes → DramBitmap
init_map pm pm_start bit_offset bits old =
    let bytes = (bits + 7) / 8 in
    let dram = copy_bytes pm pm_start bytes old in
    record {
      dram = dram;
      bit_offset = bit_offset;
      bit_num = bits;
      remain = sub64 bits (count_bits dram bytes);
      hint = next_zero_bit dram bits 0;
    }

-- The inner loop, with the bitmaps that are left; `old` is what DRAM has from `dram_start` on.
unfoldable pub init_maps : Bytes → ℕ → ℕ → ℕ → ℕ → ℕ → Bytes → List DramBitmap
init_maps pm bits_per_map zero total_bits bit_offset pm_start old = []
init_maps pm bits_per_map (suc left) total_bits bit_offset pm_start old =
    let bits = if left == 0 then total_bits else bits_per_map in
    let bytes = (bits + 7) / 8 in
    init_map pm pm_start bit_offset bits old
    ∷ init_maps pm bits_per_map left (sub64 total_bits bits) (bit_offset + bits) (pm_start + bytes)
        (λ i. old (bytes + i))

-- The bitmaps of one slot type: `num` is MAP_NUM, `pm_start` and `slot_num` are of its `pm_slot_t`.
unfoldable pub shm_init_bitmap : ℕ → Bytes → ℕ → ℕ → Bytes → List DramBitmap
shm_init_bitmap num pm pm_start slot_num old =
    let bits_per_map = (slot_num / num + 64 - 1) / 64 * 64 in
    init_maps pm bits_per_map num slot_num 0 pm_start old
