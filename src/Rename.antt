-- ===== src/Rename.antt =====
-- slotfs/journal.c and slotfs_func.c: the renaming of an entry from one directory to another, once
-- both have been looked up, and its redo journal. Here the two directories are different inodes.
-- A name is a list of characters, and its length that of the list; `overflow` is the state in which
-- a name that is longer than its array would be copied.
pub mod Lookups
pub mod Steps
pub mod Moves
pub mod Replay
mod Tests
use slotfs_eurosys.Dir.{
  enospc, enomem, Error, Pm, Inode, Tree, Dirent, dir_remove_entry, dir_append_entry, dirent_lookup,
  bkdr_hash, DirState, max_name_len,
}
use slotfs_eurosys.Base.{
  [], ◌∷◌, zero, suc, true, false, none, some, inl, inr, refl, ◌==◌, if◌then◌else◌, ◌⊎◌, Bool, List,
  ℕ, Option, leb, length, ◌&&◌,
}
use slotfs_eurosys.Slot.{DramBitmap}
use slotfs_eurosys.Vfs.{Sbi, VfsState, VfsInode, iget, ok, err, fault}

pub record RenameJnl : Type 0 where
  pub valid : Bool
  pub old_parent : ℕ
  pub new_parent : ℕ
  pub old_name : List ℕ
  pub new_name : List ℕ

-- The directories in DRAM, persistent memory, the bitmaps of SLOT_DIR, and the journal's page.
pub record RenameState : Type 0 where
  pub old_dir : Inode
  pub new_dir : Inode
  pub pm : Pm
  pub maps : List DramBitmap
  pub rjnl : RenameJnl

-- The two directories' parts of the state.
abbrev pub old_part : RenameState → DirState
old_part s = record { dir = s.old_dir; pm = s.pm; maps = s.maps }

abbrev pub new_part : RenameState → DirState
new_part s = record { dir = s.new_dir; pm = s.pm; maps = s.maps }

-- Do the names fit into the arrays of `rename_jnl_t`?
unfoldable pub names_fit : List ℕ → List ℕ → Bool
names_fit old_name new_name =
    leb (length old_name) max_name_len && leb (length new_name) max_name_len

-- `none` if a `memcpy` leaves its array.
unfoldable pub journal_rename : List ℕ → List ℕ → RenameState → Option RenameState
journal_rename old_name new_name s =
    if names_fit old_name new_name
    then some (record s {
      rjnl = record {
        valid = true;
        old_parent = s.old_dir.i_ino;
        new_parent = s.new_dir.i_ino;
        old_name = old_name;
        new_name = new_name;
      };
    })
    else none

-- What `journal_commit` writes; the page is freed too.
unfoldable pub commit_rename : RenameState → RenameState
commit_rename s = record s { rjnl = record s.rjnl { valid = false } }

-- The place of the entry with this slot in a list; its length if there is none.
unfoldable pub position_of : ℕ → List Dirent → ℕ
position_of idx [] = 0
position_of idx (d ∷ ds) = if d.idx == idx then 0 else suc (position_of idx ds)

pub data ReplayFault : Type 0 where
  assertion : ReplayFault
  bad_pointer : ReplayFault
  failed : Error → ReplayFault

-- The inodes and entries that `iget` reads, with this persistent memory.
abbrev pub with_pm : Sbi → Pm → Sbi
with_pm sbi pm = record sbi {
  entries = pm;
  pm_inode = λ ino. record (sbi.pm_inode ino) { log_head = pm.log_head ino };
}

module _ (rb_insert_color : Tree → Tree) (rb_erase : Dirent → Tree → Tree) where
  -- `dir_append_entry` on the new directory. `fake` is what the variable `fake_inode` holds, of which
  -- only `i_ino` is set.
  unfoldable pub append_new_name :
      Bool → ℕ → Inode → ℕ → List ℕ → RenameState → (Dirent ⊎ Error) × RenameState
  append_new_name memory cpu fake ino name s =
      let (r, ds, fake') =
        dir_append_entry rb_insert_color memory cpu (record fake { i_ino = ino }) name
          (new_part s) in
      (r, record s { new_dir = ds.dir; pm = ds.pm; maps = ds.maps })

  -- `dir_remove_entry` on the old directory.
  unfoldable pub remove_old_name : Dirent → RenameState → RenameState
  remove_old_name d s =
      let ds = dir_remove_entry rb_erase (position_of d.idx s.old_dir.list) (old_part s) in
      record s { old_dir = ds.dir; pm = ds.pm; maps = ds.maps }

  -- From `journal_alloc` on. On an error the result is still 0, and the journal stays valid; `none` if
  -- the names do not fit into the journal.
  unfoldable pub rename_entry :
      Bool → ℕ → Inode → Dirent → List ℕ → List ℕ → RenameState → Option RenameState
  rename_entry memory cpu fake old_dentry old_name new_name s =
      elim (journal_rename old_name new_name s) [
        | none ↦ none
        | some s1 ↦
            let (r, s') = append_new_name memory cpu fake old_dentry.ino new_name s1 in
            some (elim r [ inr e ↦ s' | inl d ↦ commit_rename (remove_old_name old_dentry s') ])
      ]

  -- What `journal_replay_rename` does once it has the directories.
  unfoldable pub replay_in : Bool → ℕ → Inode → RenameState → RenameState ⊎ ReplayFault
  replay_in memory cpu fake s =
      let old = dirent_lookup s.old_dir.rb_root (bkdr_hash s.rjnl.old_name) in
      let new = dirent_lookup s.new_dir.rb_root (bkdr_hash s.rjnl.new_name) in
      elim new [
        | some d ↦ inl (elim old [ none ↦ s | some o ↦ remove_old_name o s ])
        | none ↦ elim old [
          | none ↦ inr assertion
          | some o ↦
              let (r, s') = append_new_name memory cpu fake o.ino s.rjnl.new_name s in
              elim r [ inr e ↦ inr (failed e) | inl d ↦ inl (remove_old_name o s') ]
        ]
      ]

  -- The directories are those that `iget` has in the cache or rebuilds from persistent memory; its
  -- errors are not tested. What they were in DRAM before the crash is not read.
  unfoldable pub journal_replay_rename :
      Sbi → VfsState → Bool → ℕ → Inode → RenameState → RenameState ⊎ ReplayFault
  journal_replay_rename sbi v memory cpu fake s =
      let (old, v1) = iget (with_pm sbi s.pm) s.rjnl.old_parent v in
      let (new, v2) = iget (with_pm sbi s.pm) s.rjnl.new_parent v1 in
      elim old [
        | err e ↦ inr bad_pointer
        | fault ↦ inr bad_pointer
        | ok o ↦ elim new [
          | err e ↦ inr bad_pointer
          | fault ↦ inr bad_pointer
          | ok n ↦ replay_in memory cpu fake (record s { old_dir = o.dir; new_dir = n.dir })
        ]
      ]
