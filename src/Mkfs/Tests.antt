-- ===== src/Mkfs/Tests.antt =====
-- The layout of a device of 4 GiB.
use slotfs_eurosys.Base.{◌^◌, arith}
use slotfs_eurosys.Mkfs.Layout.{mkfs_slot-IsConsecutive, HasRoom, IsConsecutive}
use slotfs_eurosys.Mkfs.{mkfs_slot}

mkfs_slot-IsConsecutive_example :
    let slots = mkfs_slot (2 ^ 32) in
    IsConsecutive slots (2 ^ 32)
    × HasRoom slots.inode slots.inode.slot_pages
    × HasRoom slots.dir slots.dir.slot_pages
    × HasRoom slots.file slots.file.slot_pages
    × HasRoom slots.data_slot slots.data_slot.slot_num
mkfs_slot-IsConsecutive_example = mkfs_slot-IsConsecutive (2 ^ 32) (omega arith) (omega arith)
