-- ===== src/Rename/Tests.antt =====
-- Witnesses of the rename: the only entry of directory 1 moves to directory 2, which is empty; and of
-- the replay of its journal.
use slotfs_eurosys.Dir.{
  Tree, Dirent, Inode, below_minus_one, dirent_lookup, bkdr_hash, slot_dirent_alloc, hash_loop,
  signed_char, dir_rebuild, rebuild_loop, dir_index_insert, link_node,
}
use slotfs_eurosys.Base.{
  [], ◌∷◌, true, false, none, some, refl, inl, arith, ◌==◌, ◌≡◌, get_elem?, if◌then◌else◌, ℕ, List,
}
use slotfs_eurosys.Slot.{take_bit, find_bit, DramBitmap, alloc_one, rotate, do_slot_alloc}
use slotfs_eurosys.Bitmap.{next_zero_loop, next_zero_bit}
use slotfs_eurosys.Dir.Chain.{has_idx, distinct, Linked}
use slotfs_eurosys.Dir.Log.{IsValid}
use slotfs_eurosys.BTree.{btree_create}
use slotfs_eurosys.Vfs.{
  Sbi, VfsState, VfsInode, iget, inode_rebuild, is_dir, file_type, read_inode, inode_lock, ok,
}
use slotfs_eurosys.Rename.Replay.{journal_replay_rename-name}
use slotfs_eurosys.Rename.{
  journal_replay_rename, with_pm, RenameState, position_of, rename_entry, old_part, new_part,
}
use slotfs_eurosys.Rename.Moves.{AreApart, IsMoved, rename_entry-IsMoved}

abbrev old_name : List ℕ
old_name = 97 ∷ []

abbrev new_name : List ℕ
new_name = 98 ∷ []

abbrev od : Dirent
od = record { idx = 3; ts = 1; ino = 9; hash = 97 }

abbrev empty_dir : Inode
empty_dir = record {
  i_ino = 2;
  ts = 0;
  entry_num = 0;
  log_head = 5;
  ghost_slot = 5;
  list = [];
  rb_root = Tree.empty;
}

-- Slots up to 5 are in use.
abbrev map : DramBitmap
map = record {
  dram = λ i. if i == 0 then 63 else 0;
  bit_offset = 0;
  bit_num = 64;
  remain = 58;
  hint = 6;
}

abbrev state : RenameState
state = record {
  old_dir = record empty_dir {
    i_ino = 1;
    entry_num = 1;
    log_head = 3;
    ghost_slot = 4;
    list = od ∷ [];
    rb_root = Tree.branch Tree.empty od Tree.empty;
  };
  new_dir = empty_dir;
  pm = record {
    dirent = λ idx. record { name = old_name; ino = 9; ts = 1; next = 4 };
    log_head = λ ino. if ino == 1 then 3 else 5;
  };
  maps = map ∷ [];
  rjnl = record { valid = false; old_parent = 0; new_parent = 0; old_name = []; new_name = [] };
}

-- In trees of one entry at most there is nothing to balance.
abbrev insert_color : Tree → Tree
insert_color t = t

abbrev erase : Dirent → Tree → Tree
erase d t = Tree.empty

missing : dirent_lookup state.new_dir.rb_root (bkdr_hash new_name) ≡ none
unfolding dirent_lookup
missing = refl

listed : get_elem? state.old_dir.list (position_of od.idx state.old_dir.list) ≡ some od
unfolding position_of
listed = refl

erases :
    (h : ℕ)
    → dirent_lookup (erase od state.old_dir.rb_root) h
      ≡ (if od.hash == h then none else dirent_lookup state.old_dir.rb_root h)
unfolding dirent_lookup
erases h = ground arith

next_slot : (slot_dirent_alloc 0 state.maps).0 ≡ 6
unfolding slot_dirent_alloc do_slot_alloc rotate alloc_one find_bit next_zero_bit next_zero_loop
    take_bit
next_slot = refl

room : below_minus_one (slot_dirent_alloc 0 state.maps).0 ≡ false
unfolding below_minus_one
room = rw next_slot refl

fresh : has_idx (slot_dirent_alloc 0 state.maps).0 [] ≡ false
unfolding has_idx
fresh = refl

old_dir-IsValid : IsValid (old_part state)
unfolding Linked has_idx distinct bkdr_hash hash_loop signed_char
old_dir-IsValid = record {
  head = refl;
  chain = (refl, record { ino = refl; ts = refl; hash = refl }, refl);
  apart = refl;
  ghost_apart = refl;
}

new_dir-IsValid : IsValid (new_part state)
unfolding Linked has_idx distinct
new_dir-IsValid = record { head = refl; chain = refl; apart = refl; ghost_apart = refl }

apart : AreApart state.old_dir state.new_dir
unfolding has_idx
apart = record { inodes = omega arith; entries = λ j k. refl; new_ghost = refl }

rename_entry-IsMoved_example :
    (d : Dirent) × (t : RenameState) × (rename_entry insert_color erase true 0 empty_dir od old_name
        new_name state
      ≡ some t)
    × IsMoved od new_name state d t
rename_entry-IsMoved_example =
    rename_entry-IsMoved insert_color erase (λ t h. refl) od new_name state old_dir-IsValid apart
      listed erases 0 empty_dir old_name new_dir-IsValid (omega arith) (omega arith) room fresh
      (λ e. ground (arith, e, next_slot)) missing

-- The journal of this rename, and after a crash nothing in the inode cache; the new directory has one
-- entry, with another name.
abbrev journaled : RenameState
journaled = record state {
  rjnl = record {
    valid = true;
    old_parent = 1;
    new_parent = 2;
    old_name = old_name;
    new_name = new_name;
  };
}

abbrev rebuilt_inode : ℕ → ℕ → VfsInode
rebuilt_inode ino slot =
    let d : Dirent = record { idx = slot; ts = 0; ino = 9; hash = 97 } in
    record {
      dir = record {
        i_ino = ino;
        ts = 0;
        entry_num = 1;
        log_head = slot;
        ghost_slot = 77;
        list = d ∷ [];
        rb_root = Tree.branch Tree.empty d Tree.empty;
      };
      i_size = 0;
      i_link = 1;
      i_mode = 16384;
      b_root = btree_create;
    }

abbrev sbi : Sbi
sbi = record {
  pm_inode = λ ino. record { i_size = 0; i_link = 1; i_mode = 16384; log_head = 0; entry_num = 1 };
  entries = journaled.pm;
  data_pages = λ a. 0;
  root = rebuilt_inode 0 0;
  rb_insert_color = insert_color;
  pd = record { name = []; ino = 0; ts = 0; next = 77 };
  heap_alloc = λ n. true;
}

abbrev no_cache : VfsState
no_cache = record { inode_table = λ ino. none; held = []; inode_arena = 2 }

rebuilds_old : (iget (with_pm sbi journaled.pm) 1 no_cache).0 ≡ ok (rebuilt_inode 1 3)
unfolding iget inode_rebuild is_dir file_type read_inode dir_rebuild rebuild_loop dir_index_insert
    link_node bkdr_hash hash_loop signed_char inode_lock
rebuilds_old = refl

rebuilds_new :
    (iget (with_pm sbi journaled.pm) 2 (iget (with_pm sbi journaled.pm) 1 no_cache).1).0
    ≡ ok (rebuilt_inode 2 5)
unfolding iget inode_rebuild is_dir file_type read_inode dir_rebuild rebuild_loop dir_index_insert
    link_node bkdr_hash hash_loop signed_char inode_lock
rebuilds_new = refl

new_is_dir : is_dir (read_inode (with_pm sbi journaled.pm) 2) ≡ true
unfolding is_dir file_type read_inode
new_is_dir = refl

finds_old :
    dirent_lookup (rebuilt_inode 1 3).dir.rb_root (bkdr_hash old_name)
    ≡ some (record { idx = 3; ts = 0; ino = 9; hash = 97 })
unfolding dirent_lookup bkdr_hash hash_loop signed_char
finds_old = refl

misses_new : dirent_lookup (rebuilt_inode 2 5).dir.rb_root (bkdr_hash new_name) ≡ none
unfolding dirent_lookup bkdr_hash hash_loop signed_char
misses_new = refl

journal_replay_rename-name_example :
    (t : RenameState) × (journal_replay_rename insert_color erase sbi no_cache true 0 empty_dir
        journaled
      ≡ inl t)
    × ((t.pm.dirent 77).name ≡ new_name)
journal_replay_rename-name_example =
    journal_replay_rename-name insert_color erase sbi no_cache 0 empty_dir journaled (omega arith)
      refl new_is_dir (omega arith) rebuilds_old rebuilds_new finds_old misses_new (omega arith)
      room
