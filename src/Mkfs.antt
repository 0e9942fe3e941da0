-- ===== src/Mkfs.antt =====
-- slotfs/mkfs.c: where `mkfs_slot` puts the bitmaps and the slot tables. All of it is arithmetic of
-- `size_t` and `uint64_t`, which wraps; a shift to the left is a product.
pub mod Layout
mod Tests
use slotfs_eurosys.Base.{
  [], ◌∷◌, zero, suc, true, false, none, some, inl, inr, refl, ℕ, ◌/◌, ◌^◌, ◌+◌,
}
use slotfs_eurosys.Config.{
  dir_slot_size, inode_slot_size, page_shift, bitmap_start, dir_bitmap_pages, file_slot_size,
  page_size, inode_bitmap_pages,
}
use slotfs_eurosys.Base.Word.{add64, mul64, sub64}

pub record PmSlot : Type 0 where
  pub slot_table : ℕ
  pub slot_num : ℕ
  pub slot_size : ℕ
  pub slot_pages : ℕ
  pub bitmap : ℕ
  pub bitmap_pages : ℕ

-- `slots`
pub record PmSlots : Type 0 where
  pub inode : PmSlot
  pub dir : PmSlot
  pub file : PmSlot
  pub data_slot : PmSlot

-- `(bytes + PAGE_SIZE - 1) >> PAGE_SHIFT`
unfoldable pub pages_for : ℕ → ℕ → ℕ
pages_for size num = sub64 (add64 (mul64 size num) page_size) 1 / 2 ^ page_shift

-- `pages << PAGE_SHIFT`
unfoldable pub page_bytes : ℕ → ℕ
page_bytes pages = mul64 pages (2 ^ page_shift)

-- A slot type whose bitmap has a fixed number of pages.
unfoldable pub fixed_num : ℕ → ℕ
fixed_num bitmap_pages = mul64 bitmap_pages (2 ^ (page_shift + 3))

-- `remain_pages` at the start and after the inodes and directory entries.
unfoldable pub remain_first : ℕ → ℕ
remain_first size = sub64 size bitmap_start / 2 ^ page_shift

unfoldable pub remain_file : ℕ → ℕ
remain_file size = sub64 (remain_first size) (
    add64
      (add64 (add64 inode_bitmap_pages dir_bitmap_pages)
        (pages_for inode_slot_size (fixed_num inode_bitmap_pages)))
      (pages_for dir_slot_size (fixed_num dir_bitmap_pages)))

unfoldable pub file_num : ℕ → ℕ
file_num remain_pages = mul64 (mul64 remain_pages page_size / add64 page_size file_slot_size) 6 / 5

unfoldable pub bitmap_pages_for : ℕ → ℕ
bitmap_pages_for num = add64 (num / 2 ^ (page_shift + 3)) 1

-- `remain_pages` after the file entries, and after the bitmap of the data.
unfoldable pub remain_data : ℕ → ℕ
remain_data remain_pages =
    let num = file_num remain_pages in
    sub64 remain_pages (add64 (bitmap_pages_for num) (pages_for file_slot_size num))

unfoldable pub data_num : ℕ → ℕ
data_num remain_pages = sub64 remain_pages (bitmap_pages_for remain_pages)

unfoldable pub mkfs_slot : ℕ → PmSlots
mkfs_slot size =
    let inode_num = fixed_num inode_bitmap_pages in
    let dir_num = fixed_num dir_bitmap_pages in
    let num = file_num (remain_file size) in
    let remain = remain_data (remain_file size) in
    let inode_pages = pages_for inode_slot_size inode_num in
    let dir_pages = pages_for dir_slot_size dir_num in
    let file_pages = pages_for file_slot_size num in
    let inode_bitmap = bitmap_start in
    let dir_bitmap = add64 inode_bitmap (page_bytes inode_bitmap_pages) in
    let file_bitmap = add64 dir_bitmap (page_bytes dir_bitmap_pages) in
    let data_bitmap = add64 file_bitmap (page_bytes (bitmap_pages_for num)) in
    let inode_table = add64 data_bitmap (page_bytes (bitmap_pages_for remain)) in
    let dir_table = add64 inode_table (page_bytes inode_pages) in
    let file_table = add64 dir_table (page_bytes dir_pages) in
    let data_table = add64 file_table (page_bytes file_pages) in
    record {
      inode = record {
        slot_table = inode_table;
        slot_num = inode_num;
        slot_size = inode_slot_size;
        slot_pages = inode_pages;
        bitmap = inode_bitmap;
        bitmap_pages = inode_bitmap_pages;
      };
      dir = record {
        slot_table = dir_table;
        slot_num = dir_num;
        slot_size = dir_slot_size;
        slot_pages = dir_pages;
        bitmap = dir_bitmap;
        bitmap_pages = dir_bitmap_pages;
      };
      file = record {
        slot_table = file_table;
        slot_num = num;
        slot_size = file_slot_size;
        slot_pages = file_pages;
        bitmap = file_bitmap;
        bitmap_pages = bitmap_pages_for num;
      };
      data_slot = record {
        slot_table = data_table;
        slot_num = data_num remain;
        slot_size = 4096;
        slot_pages = 0;
        bitmap = data_bitmap;
        bitmap_pages = bitmap_pages_for remain;
      };
    }
