-- ===== src/Mkfs/Layout.antt =====
-- The layout that `mkfs_slot` computes.
use slotfs_eurosys.Base.{ℕ, ◌≡◌, ◌≤◌, ◌*◌, ◌<◌, ◌+◌, ◌^◌, ◌/◌, arith, refl, ◌-◌}
use slotfs_eurosys.Config.{
  dir_bitmap_pages, inode_bitmap_pages, dir_slot_size, inode_slot_size, file_slot_size,
  bitmap_start,
}
use slotfs_eurosys.Mkfs.{
  fixed_num, page_bytes, remain_first, mkfs_slot, remain_file, bitmap_start, bitmap_pages_for,
  data_num, pages_for, PmSlot, PmSlots, file_num, remain_data,
}

-- A bitmap has a bit for every slot, and a table of `pages` pages has room for them.
pub record HasRoom (s : PmSlot) (pages : ℕ) : Type 0 where
  pub bits : s.slot_num ≤ 8 * 4096 * s.bitmap_pages
  pub room : s.slot_num * s.slot_size ≤ 4096 * pages

-- Bitmaps and then tables follow one another from BITMAP_START on, to the end of the device.
pub record IsConsecutive (slots : PmSlots) (size : ℕ) : Type 0 where
  pub inode_bitmap : slots.inode.bitmap ≡ bitmap_start
  pub dir_bitmap : slots.dir.bitmap ≡ slots.inode.bitmap + 4096 * slots.inode.bitmap_pages
  pub file_bitmap : slots.file.bitmap ≡ slots.dir.bitmap + 4096 * slots.dir.bitmap_pages
  pub data_bitmap : slots.data_slot.bitmap ≡ slots.file.bitmap + 4096 * slots.file.bitmap_pages
  pub inode_table :
      slots.inode.slot_table ≡ slots.data_slot.bitmap + 4096 * slots.data_slot.bitmap_pages
  pub dir_table : slots.dir.slot_table ≡ slots.inode.slot_table + 4096 * slots.inode.slot_pages
  pub file_table : slots.file.slot_table ≡ slots.dir.slot_table + 4096 * slots.dir.slot_pages
  pub data_table : slots.data_slot.slot_table ≡ slots.file.slot_table + 4096 * slots.file.slot_pages
  pub fits : slots.data_slot.slot_table + 4096 * slots.data_slot.slot_num ≤ size

-- the numbers that the layout is made of, for `p` pages left after inodes and directory entries
file_sizes :
    (p : ℕ)
    → 16 ≤ p
    → p < 2 ^ 40
    → (file_num p ≤ 2 * p)
      × (pages_for file_slot_size (file_num p) ≡ (64 * file_num p + 4095) / 4096)
      × (bitmap_pages_for (file_num p) ≡ file_num p / 32768 + 1)
unfolding file_num pages_for bitmap_pages_for
file_sizes p lo hi = (omega arith, omega arith, omega arith)

left_over :
    (p : ℕ)
    → 16 ≤ p
    → p < 2 ^ 40
    → (remain_data p + bitmap_pages_for (file_num p) + pages_for file_slot_size (file_num p) ≡ p)
      × (data_num (remain_data p) + bitmap_pages_for (remain_data p) ≡ remain_data p)
      × (bitmap_pages_for (remain_data p) ≡ remain_data p / 32768 + 1)
unfolding remain_data data_num bitmap_pages_for
left_over p lo hi =
    let (n, pages, bits) = file_sizes p lo hi in
    (omega (arith, n, pages, bits), omega (arith, n, pages, bits), omega (arith, n, pages, bits))

-- the inodes and the directory entries take 30740 pages
remain_file-eq :
    (size : ℕ)
    → size < 2 ^ 48
    → bitmap_start + 4096 * 30756 ≤ size
    → remain_file size + 30740 ≡ (size - bitmap_start) / 4096
unfolding remain_file remain_first pages_for fixed_num
remain_file-eq size hi lo = omega arith

fixed_pages :
    (pages_for inode_slot_size (fixed_num inode_bitmap_pages) ≡ 10240)
    × (pages_for dir_slot_size (fixed_num dir_bitmap_pages) ≡ 20480)
unfolding pages_for fixed_num
fixed_pages = (refl, refl)

-- On a device below 2 ^ 48 bytes with at least 30756 pages behind the fixed areas, `mkfs_slot` lays
-- the four bitmaps and then the four tables out one after another, from BITMAP_START on and within the
-- device; each bitmap has a bit and each table has room for every slot of its type.
pub mkfs_slot-IsConsecutive :
    (size : ℕ)
    → size < 2 ^ 48
    → bitmap_start + 4096 * 30756 ≤ size
    → let slots = mkfs_slot size in
      IsConsecutive slots size
      × HasRoom slots.inode slots.inode.slot_pages
      × HasRoom slots.dir slots.dir.slot_pages
      × HasRoom slots.file slots.file.slot_pages
      × HasRoom slots.data_slot slots.data_slot.slot_num
unfolding mkfs_slot page_bytes fixed_num
mkfs_slot-IsConsecutive size hi lo =
    let r = remain_file-eq size hi lo in
    let p = remain_file size in
    let (n, pages, bits) = file_sizes p (omega arith) (omega arith) in
    let (total, rest, data_bits) = left_over p (omega arith) (omega arith) in
    let (inode_pages, dir_pages) = fixed_pages in
    (
      record {
        inode_bitmap = refl;
        dir_bitmap = omega arith;
        file_bitmap = omega arith;
        data_bitmap = omega arith;
        inode_table = omega arith;
        dir_table = omega arith;
        file_table = omega arith;
        data_table = omega arith;
        fits = omega arith;
      },
      record { bits = omega arith; room = omega arith },
      record { bits = omega arith; room = omega arith },
      record { bits = omega arith; room = omega arith },
      record { bits = omega arith; room = omega arith },
    )
