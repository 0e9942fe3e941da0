-- ===== src/Shm/Bitmaps.antt =====
-- The bitmaps that `shm_init_bitmap` makes are those that the slot allocator needs.
use slotfs_eurosys.Base.{
  [], ◌∷◌, zero, suc, true, false, ℕ, if◌then◌else◌, ◌+◌, ◌*◌, ◌/◌, ◌^◌, ltb, ◌-◌, ◌≡◌, ◌≤◌, ◌<◌,
  arith, refl, ap, ◌∙◌,
}
use slotfs_eurosys.Bitmap.{Bytes}
use slotfs_eurosys.Bitmap.Bits.{bit}
use slotfs_eurosys.Bitmap.Scan.{next_zero_bit-IsFirst}
use slotfs_eurosys.Slot.{DramBitmap}
use slotfs_eurosys.Slot.Count.{count_free, IsValid, count_free-le}
use slotfs_eurosys.Shm.{copy_bytes, init_map, init_maps, shm_init_bitmap}
use slotfs_eurosys.Shm.Popcount.{count_bits-count_free}

-- The bytes from `pm_start` on.
abbrev pub from_pm : Bytes → ℕ → Bytes
from_pm pm pm_start i = pm (pm_start + i)

zero_sum : (n : ℕ) → n + 0 ≡ n
zero_sum n = omega arith

count_free_clear :
    (bitmap : Bytes) (n d : ℕ)
    → ((k : ℕ) → n ≤ k → k < n + d → bit bitmap k ≡ false)
    → count_free bitmap (n + d) ≡ count_free bitmap n + d
unfolding count_free
count_free_clear bitmap n zero clear = omega (arith, ap (count_free bitmap) (zero_sum n))
count_free_clear bitmap n (suc d) clear =
    let e : n + suc d ≡ suc (n + d) = omega arith in
    let rest = count_free_clear bitmap n d (λ k lo hi. clear k lo (omega (arith, hi))) in
    let top = clear (n + d) (omega arith) (omega arith) in
    let step : count_free bitmap (n + suc d)
        ≡ (if bit bitmap (n + d) then 0 else 1) + count_free bitmap (n + d) =
      ap (count_free bitmap) e in
    omega (arith, step ∙ ap (λ b. (if b then 0 else 1) + count_free bitmap (n + d)) top, rest)

-- The bits that are copied.
bit-copy_bytes :
    (pm : Bytes) (pm_start bytes : ℕ) (old : Bytes) (k : ℕ)
    → k < bytes * 8
    → bit (copy_bytes pm pm_start bytes old) k ≡ bit (from_pm pm pm_start) k
unfolding bit
bit-copy_bytes pm pm_start bytes old k lt =
    let inside : ltb (k / 8) bytes ≡ true = ground (arith, lt) in rw inside refl

init_map-IsValid :
    (pm : Bytes) (pm_start bit_offset bits : ℕ) (old : Bytes)
    → ((i : ℕ) → pm i < 256)
    → ((i : ℕ) → old i < 256)
    → bits < 2 ^ 31
    → ((k : ℕ) → bits ≤ k → k < (bits + 7) / 8 * 8 → bit (from_pm pm pm_start) k ≡ false)
    → IsValid (init_map pm pm_start bit_offset bits old)
unfolding init_map
init_map-IsValid pm pm_start bit_offset bits old byte old_byte small clear =
    let bytes = (bits + 7) / 8 in
    let dram = copy_bytes pm pm_start bytes old in
    let all_bytes : (i : ℕ) → dram i < 256 = λ i. ground (arith, byte (pm_start + i), old_byte i) in
    let counted = count_bits-count_free dram bytes all_bytes in
    let rest = count_free_clear dram bits (bytes * 8 - bits) (λ k lo hi.
      let lt : k < bytes * 8 = omega (arith, lo, hi) in
      bit-copy_bytes pm pm_start bytes old k lt ∙ clear k lo lt) in
    let e : bits + (bytes * 8 - bits) ≡ bytes * 8 = omega arith in
    let most = count_free-le dram bits in
    let first = next_zero_bit-IsFirst dram bits 0 (omega arith) in
    record {
      hint_in = first.below;
      small = small;
      counted = omega (arith, counted, rest, ap (count_free dram) e, most, small);
    }

-- Let the bitmap of a slot type in persistent memory have fewer than 2 ^ 31 slots, and let the bits
-- behind the last slot in its last byte be clear. Then `shm_init_bitmap`, with MAP_NUM 1, makes one
-- bitmap; it starts at slot 0, has the invariant of the slot allocator, and says of each slot what
-- persistent memory says.
pub shm_init_bitmap-IsValid :
    (pm : Bytes) (pm_start slot_num : ℕ) (old : Bytes)
    → ((i : ℕ) → pm i < 256)
    → ((i : ℕ) → old i < 256)
    → slot_num < 2 ^ 31
    → ((k : ℕ) → slot_num ≤ k → k < (slot_num + 7) / 8 * 8 → bit (from_pm pm pm_start) k ≡ false)
    → (b : DramBitmap) × (shm_init_bitmap 1 pm pm_start slot_num old ≡ b ∷ [])
      × IsValid b
      × (b.bit_offset ≡ 0)
      × (b.bit_num ≡ slot_num)
      × ((k : ℕ) → k < slot_num → bit b.dram k ≡ bit (from_pm pm pm_start) k)
unfolding shm_init_bitmap init_maps init_map
shm_init_bitmap-IsValid pm pm_start slot_num old byte old_byte small clear = (
  init_map pm pm_start 0 slot_num old,
  refl,
  init_map-IsValid pm pm_start 0 slot_num old byte old_byte small clear,
  refl,
  refl,
  λ k lt. bit-copy_bytes pm pm_start ((slot_num + 7) / 8) old k (omega (arith, lt)),
)
