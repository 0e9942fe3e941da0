-- ===== src/File/Tests.antt =====
-- Witnesses: a file of one entry, for the blocks 10 to 13.
use slotfs_eurosys.BTree.Place.{capacity}
use slotfs_eurosys.File.Remove.{contents-file_remove_entry}
use slotfs_eurosys.Base.{
  ltb, ◌&&◌, ◌≤◌, leb, if◌then◌else◌, arith, ◌≡◌, ◌<◌, [], ◌∷◌, none, some, refl,
}
use slotfs_eurosys.BTree.{
  max_keys, grow, btree_create, btree_set_range_callback, BTree, btree_set_range,
}
use slotfs_eurosys.File.{FileState, Filent, file_remove_entry}
use slotfs_eurosys.BTree.Grow.{contents}

abbrev entry : Filent
entry = record { idx = 3; ts = 1; l_idx = 10; p_idx = 70; blocks = 4; ref = 4 }

abbrev blank_tree : BTree Filent
blank_tree = btree_create

abbrev one_entry : FileState
one_entry = record {
  file = record {
    i_ino = 6;
    entry_num = 1;
    log_head = 3;
    ghost_slot = 4;
    list = entry ∷ [];
    b_root = (btree_set_range blank_tree 10 14 (some entry)).1;
  };
  pm = record {
    filent = λ i. record { l_idx = 10; p_idx = 70; blocks = 4; ts = 1; next = 4 };
    log_head = λ i. 3;
  };
  maps = [];
}

tree_low : one_entry.file.b_root.height ≤ 6
unfolding btree_set_range btree_set_range_callback grow max_keys btree_create
tree_low = omega arith

blocks_low : 14 < capacity 6
unfolding capacity
blocks_low = omega arith

contents-file_remove_entry_example :
    contents (file_remove_entry 0 one_entry).file.b_root 12
    ≡ (if leb 10 12 && ltb 12 14 then none else contents one_entry.file.b_root 12)
contents-file_remove_entry_example =
    contents-file_remove_entry 0 one_entry refl tree_low (omega arith) blocks_low 12
