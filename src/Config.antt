-- ===== src/Config.antt =====
-- slotfs/config.h: the sizes and the layout of persistent memory that the other parts use.
use slotfs_eurosys.Base.{ℕ, ◌+◌, ◌*◌}

abbrev pub page_size : ℕ
page_size = 4096

abbrev pub page_shift : ℕ
page_shift = 12

abbrev pub super_block_size : ℕ
super_block_size = 4096

abbrev pub slot_meta_size : ℕ
slot_meta_size = 4096

abbrev pub journal_num : ℕ
journal_num = 256

abbrev pub journal_size : ℕ
journal_size = 4096 * journal_num

abbrev pub bitmap_meta_size : ℕ
bitmap_meta_size = 4096

abbrev pub slot_meta_start : ℕ
slot_meta_start = super_block_size

abbrev pub journal_start : ℕ
journal_start = slot_meta_start + slot_meta_size

abbrev pub bitmap_meta_start : ℕ
bitmap_meta_start = journal_start + journal_size

abbrev pub bitmap_start : ℕ
bitmap_start = bitmap_meta_start + bitmap_meta_size

abbrev pub inode_slot_size : ℕ
inode_slot_size = 128

abbrev pub dir_slot_size : ℕ
dir_slot_size = 256

abbrev pub file_slot_size : ℕ
file_slot_size = 64

abbrev pub inode_bitmap_pages : ℕ
inode_bitmap_pages = 10

abbrev pub dir_bitmap_pages : ℕ
dir_bitmap_pages = 10
