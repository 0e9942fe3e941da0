-- ===== src/FileResize.antt =====
-- slotfs/inode.c: `inode_resize` and what it calls. A larger size gets new pages, a smaller one has
-- entries removed under the journal of truncation. `inode_ts` is the timestamp of the inode. The
-- calls run under the inode's lock.
pub mod Grow
pub mod Shrink
mod Tests
use slotfs_eurosys.FileLog.{LogState, filent_of}
use slotfs_eurosys.Base.{
  [], ◌∷◌, zero, suc, true, false, none, some, inl, inr, refl, ◌%◌, ◌++◌, ◌-◌, ◌/◌, ltb, ◌+◌, ◌==◌,
  List, if◌then◌else◌, Bool, Option, ℕ,
}
use slotfs_eurosys.FileWrite.{
  data_fields, extent_of, EntryUnit, append_entries, Choices, WriteState,
}
use slotfs_eurosys.Journal.{journal_free, journal_alloc}
use slotfs_eurosys.Dir.{dirent_lookup, Error}
use slotfs_eurosys.FileData.{filent_lookup}
use slotfs_eurosys.Slot.{do_slot_alloc_range}
use slotfs_eurosys.File.{file_remove_entry, Filent}

-- The size, with the journal's page.
pub record TruncateJnl : Type 0 where
  pub valid : Bool
  pub ino : ℕ
  pub size : ℕ

pub record ResizeState : Type 0 where
  pub file : WriteState
  pub tjnl : TruncateJnl

-- How a call ends: it returns 0 or an error, it reads a NULL entry, or it has not ended after the
-- rounds that are given.
pub data Outcome : Type 0 where
  returned : Option Error → ResizeState → Outcome
  null_entry : Outcome
  endless : Outcome

-- The loop of `inode_extend`, with the entries for its pages; `start_blk` stays as it is.
unfoldable pub extend_loop :
    ℕ → ℕ → ℕ → ℕ → List EntryUnit → WriteState → Option (List EntryUnit × WriteState)
extend_loop zero cpu start_blk num_blk entries s = if num_blk == 0 then some (entries, s) else none
extend_loop (suc rounds) cpu start_blk num_blk entries s =
    let (extent, maps) = do_slot_alloc_range cpu s.log.data_maps num_blk in
    let (nr, allocated) = extent_of extent in
    let unit : EntryUnit = record { blocks = allocated; l_idx = start_blk; p_idx = nr } in
    let rest =
      extend_loop rounds cpu start_blk (num_blk - allocated) (entries ++ (unit ∷ []))
        (record s { log = record s.log { data_maps = maps } }) in
    if num_blk == 0 then some (entries, s) else rest

-- What follows the loop: the entries are appended.
unfoldable pub append_units :
    Choices → ℕ → ResizeState → Option (List EntryUnit × WriteState) → Outcome
append_units choices inode_ts s none = endless
append_units choices inode_ts s (some (entries, file)) =
    let (failed, log) = append_entries choices inode_ts 0 entries file.log in
    returned failed (record s { file = record file { log = log } })

-- From the loop on.
unfoldable pub extend_by : ℕ → Choices → ℕ → ℕ → ℕ → ℕ → ResizeState → Outcome
extend_by rounds choices inode_ts cpu start_blk num_blk s =
    append_units choices inode_ts s (extend_loop rounds cpu start_blk num_blk [] s.file)

unfoldable pub inode_extend : ℕ → Choices → ℕ → ℕ → ℕ → ResizeState → Outcome
inode_extend rounds choices inode_ts cpu new_size s =
    let i_size = s.file.i_size in
    let start_blk = (i_size + 4095) / 4096 in
    let num_blk = (new_size - i_size + 4095) / 4096 in
    if i_size % 4096 == 0
    then extend_by rounds choices inode_ts cpu start_blk num_blk s
    else elim (filent_lookup (data_fields s.file) start_blk) [
      | none ↦ null_entry
      | some fe ↦ extend_by rounds choices inode_ts cpu (start_blk + 1) (num_blk - 1) s
    ]

-- The place of the entry with this slot in the list; its length if there is none.
unfoldable pub entry_place : ℕ → List Filent → ℕ
entry_place idx [] = 0
entry_place idx (f ∷ fs) = if f.idx == idx then 0 else suc (entry_place idx fs)

-- `file_remove_entry` on the file's log.
unfoldable pub remove_entry : Filent → LogState → LogState
remove_entry fe log =
    let fs =
      file_remove_entry (entry_place fe.idx log.file.list)
        (record { file = log.file; pm = log.pm; maps = log.maps }) in
    record log { file = fs.file; pm = fs.pm; maps = fs.maps }

-- The loop of `inode_shrink`, for as many rounds as are given; `continue` starts the next one with
-- the same block.
unfoldable pub shrink_loop : ℕ → ℕ → ℕ → WriteState → Option WriteState
shrink_loop zero start_blk end_blk s = if ltb start_blk end_blk then none else some s
shrink_loop (suc rounds) start_blk end_blk s =
    let rest : Option WriteState = elim (filent_lookup (data_fields s) start_blk) [
      | none ↦ shrink_loop rounds start_blk end_blk s
      | some fe ↦
          let removed =
            shrink_loop rounds (start_blk + fe.blocks) end_blk
              (record s { log = remove_entry fe s.log }) in
          if ltb end_blk (start_blk + fe.blocks) then some s else removed
    ] in
    if ltb start_blk end_blk then rest else some s

unfoldable pub journal_truncate : ℕ → ℕ → TruncateJnl
journal_truncate ino size = record { valid = true; ino = ino; size = size }

-- The journal of truncation is committed once the loop has ended.
unfoldable pub commit_truncate : ℕ → TruncateJnl → Option WriteState → Outcome
commit_truncate jnl tjnl none = endless
commit_truncate jnl tjnl (some file) = returned none (record {
  file = record file { jnl_mgr = journal_free jnl file.jnl_mgr };
  tjnl = record tjnl { valid = false };
})

unfoldable pub inode_shrink : ℕ → ℕ → ResizeState → Outcome
inode_shrink rounds new_size s =
    let alloc = journal_alloc s.file.jnl_mgr in
    let tjnl = journal_truncate s.file.log.file.i_ino new_size in
    commit_truncate alloc.0 tjnl (
      shrink_loop rounds ((new_size + 4095) / 4096) ((s.file.i_size + 4095) / 4096)
        (record s.file { jnl_mgr = alloc.1 }))

unfoldable pub inode_resize : ℕ → Choices → ℕ → ℕ → ℕ → ResizeState → Outcome
inode_resize rounds choices inode_ts cpu new_size s =
    if new_size == s.file.i_size
    then returned none s
    else if ltb new_size s.file.i_size
    then inode_shrink rounds new_size s
    else inode_extend rounds choices inode_ts cpu new_size s

-- `s` has the inode that the journal names.
unfoldable pub journal_replay_truncate : ℕ → Choices → ℕ → ℕ → TruncateJnl → ResizeState → Outcome
journal_replay_truncate rounds choices inode_ts cpu tjnl s =
    inode_resize rounds choices inode_ts cpu tjnl.size
      (record s { file = record s.file { i_size = tjnl.size } })
