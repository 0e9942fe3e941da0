-- ===== src/Dir/Tests.antt =====
-- Witnesses of the directory's properties: a directory with an empty log, one entry appended, and
-- the entry removed.
use slotfs_eurosys.Base.{
  [], ◌∷◌, true, false, some, inl, refl, List, ◌≡◌, if◌then◌else◌, arith, ◌++◌, ◌==◌, ◌∙◌, ◌≢◌, ℕ,
}
use slotfs_eurosys.Dir.{
  signed_char, hash_loop, link_node, bkdr_hash, dir_index_insert, remove_at, DramBitmap, branch,
  dir_append_entry, dir_remove_entry, empty, rebuild_loop, DirState, Dirent, Inode, PmDirent, Tree,
  below_minus_one, dir_rebuild, slot_dirent_alloc,
}
use slotfs_eurosys.Dir.Log.{dir_append_entry-IsValid, dir_remove_entry-IsValid, IsValid}
use slotfs_eurosys.Dir.Chain.{distinct, Linked, has_idx}
use slotfs_eurosys.Dir.Rebuild.{dir_rebuild-ghost_slot}
use slotfs_eurosys.Slot.{DramBitmap}
use slotfs_eurosys.Bitmap.{Bytes}

abbrev no_slots : Bytes
no_slots i = 0

-- slots 0 and 1 are in use, the second as ghost slot
abbrev maps : List DramBitmap
maps =
    record {
      dram = λ i. if i == 0 then 3 else 0;
      bit_offset = 0;
      bit_num = 64;
      remain = 62;
      hint = 2;
    }
    ∷ []

abbrev new_dir : Inode
new_dir = record {
  i_ino = 0;
  ts = 0;
  entry_num = 0;
  log_head = 1;
  ghost_slot = 1;
  list = [];
  rb_root = empty;
}

abbrev no_entry : PmDirent
no_entry = record { name = []; ino = 0; ts = 0; next = 0 }

abbrev start : DirState
start = record {
  dir = new_dir;
  pm = record { dirent = λ i. no_entry; log_head = λ i. 1 };
  maps = maps;
}

start-IsValid : IsValid start
unfolding Linked has_idx distinct
start-IsValid = record { head = refl; chain = refl; apart = refl; ghost_apart = refl }

abbrev child : Inode
child = record new_dir { i_ino = 7; ts = 5; log_head = 9; ghost_slot = 9 }

abbrev keep : Tree → Tree
keep t = t

next_slot : (slot_dirent_alloc 0 maps).0 ≡ 2
unfolding slot_dirent_alloc slotfs_eurosys.Slot.do_slot_alloc slotfs_eurosys.Slot.rotate
    slotfs_eurosys.Slot.alloc_one slotfs_eurosys.Slot.find_bit slotfs_eurosys.Bitmap.next_zero_bit
    slotfs_eurosys.Bitmap.next_zero_loop
next_slot = refl

slot_ok : below_minus_one (slot_dirent_alloc 0 maps).0 ≡ false
unfolding below_minus_one
slot_ok = rw next_slot refl

slot_fresh : has_idx (slot_dirent_alloc 0 maps).0 [] ≡ false
unfolding has_idx
slot_fresh = refl

dir_append_entry-IsValid_example :
    (d : Dirent) × (s' : DirState) × (inode' : Inode) × (dir_append_entry keep true 0 child
        (97 ∷ 98 ∷ [])
        start
      ≡ (inl d, s', inode'))
    × IsValid s'
    × (s'.dir.list ≡ [] ++ (d ∷ []))
    × (d.ino ≡ 7)
    × (d.hash ≡ bkdr_hash (97 ∷ 98 ∷ []))
    × ((s'.pm.dirent d.idx).name ≡ 97 ∷ 98 ∷ [])
    × ((j : ℕ) → d.idx ≢ j → s'.pm.dirent j ≡ start.pm.dirent j)
dir_append_entry-IsValid_example =
    dir_append_entry-IsValid keep 0 child (97 ∷ 98 ∷ []) start-IsValid (omega arith) slot_ok
      slot_fresh (λ e. ground (arith, e ∙ next_slot))

abbrev entry : Dirent
entry = record { idx = 1; ts = 5; ino = 7; hash = 12805 }

abbrev one_entry : DirState
one_entry = record {
  dir = record new_dir { ghost_slot = 2; list = entry ∷ [] };
  pm = record {
    dirent =
        λ i. if i == 1 then record { name = 97 ∷ 98 ∷ []; ino = 7; ts = 5; next = 2 } else no_entry;
    log_head = λ i. 1;
  };
  maps = maps;
}

one_entry-IsValid : IsValid one_entry
unfolding Linked has_idx distinct bkdr_hash hash_loop signed_char
one_entry-IsValid = record {
  head = refl;
  chain = (refl, record { ino = refl; ts = refl; hash = refl }, refl);
  apart = refl;
  ghost_apart = refl;
}

abbrev erase_all : Dirent → Tree → Tree
erase_all d t = empty

dir_remove_entry-IsValid_example :
    IsValid (dir_remove_entry erase_all 0 one_entry)
    × ((dir_remove_entry erase_all 0 one_entry).dir.list ≡ remove_at (entry ∷ []) 0)
    × ((dir_remove_entry erase_all 0 one_entry).dir.ghost_slot ≡ 2)
dir_remove_entry-IsValid_example = dir_remove_entry-IsValid erase_all 0 one_entry-IsValid refl

-- the local variable holds 77 as `next`
abbrev stack : PmDirent
stack = record no_entry { next = 77 }

abbrev rebuilt : Inode
rebuilt = record new_dir {
  entry_num = 1;
  ghost_slot = 77;
  list = record { idx = 1; ts = 0; ino = 7; hash = 12805 } ∷ [];
  rb_root = branch empty (record { idx = 1; ts = 0; ino = 7; hash = 12805 }) empty;
}

rebuilt_run : dir_rebuild keep one_entry.pm stack (record new_dir { entry_num = 1 }) ≡ some rebuilt
unfolding dir_rebuild rebuild_loop dir_index_insert link_node bkdr_hash hash_loop signed_char
rebuilt_run = refl

dir_rebuild-ghost_slot_example : rebuilt.ghost_slot ≡ stack.next
dir_rebuild-ghost_slot_example =
    dir_rebuild-ghost_slot keep one_entry.pm stack (record new_dir { entry_num = 1 }) (omega arith)
      rebuilt_run
