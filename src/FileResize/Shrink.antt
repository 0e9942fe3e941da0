-- ===== src/FileResize/Shrink.antt =====
-- The loop of `inode_shrink` at a hole of the file.
use slotfs_eurosys.Base.{zero, suc, true, none, refl, ℕ, ◌≡◌, ltb, ◌+◌, ◌/◌, ◌<◌, arith}
use slotfs_eurosys.FileResize.{
  journal_alloc, shrink_loop, commit_truncate, inode_shrink, ResizeState, endless,
}
use slotfs_eurosys.Journal.{journal_alloc}
use slotfs_eurosys.FileWrite.{WriteState, data_fields}
use slotfs_eurosys.FileData.{filent_lookup}

pub shrink_loop-hole :
    (rounds start_blk end_blk : ℕ) (s : WriteState)
    → ltb start_blk end_blk ≡ true
    → filent_lookup (data_fields s) start_blk ≡ none
    → shrink_loop rounds start_blk end_blk s ≡ none
unfolding shrink_loop
shrink_loop-hole zero start_blk end_blk s more hole = rw more refl
shrink_loop-hole (suc rounds) start_blk end_blk s more hole =
    rw (more, hole) (shrink_loop-hole rounds start_blk end_blk s more hole)

-- Where the first block behind the new size is one of the file's blocks and has no entry,
-- `inode_shrink` does not end, whatever the number of rounds.
pub inode_shrink-endless :
    (rounds new_size : ℕ) (s : ResizeState)
    → (new_size + 4095) / 4096 < (s.file.i_size + 4095) / 4096
    → filent_lookup (data_fields s.file) ((new_size + 4095) / 4096) ≡ none
    → inode_shrink rounds new_size s ≡ endless
unfolding inode_shrink commit_truncate
inode_shrink-endless rounds new_size s less hole =
    let file : WriteState = record s.file { jnl_mgr = (journal_alloc s.file.jnl_mgr).1 } in
    let more : ltb ((new_size + 4095) / 4096) ((s.file.i_size + 4095) / 4096) ≡ true =
      ground (arith, less) in
    rw (shrink_loop-hole rounds _ _ file more hole) refl
