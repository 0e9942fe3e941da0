-- ===== src/FileResize/Tests.antt =====
-- Witnesses of the changes of size, on a file whose blocks 0 and 1 are the pages 5 and 6.
use slotfs_eurosys.Base.{
  ltb, ◌==◌, arith, if◌then◌else◌, ◌%◌, ◌≡◌, [], ◌∷◌, true, false, none, some, refl,
}
use slotfs_eurosys.FileWrite.{Choices, WriteState, data_fields}
use slotfs_eurosys.FileData.{filent_lookup}
use slotfs_eurosys.Slot.{DramBitmap}
use slotfs_eurosys.BTree.{place_of, get_at, btree_get_node, BTree, btree_get, Node}
use slotfs_eurosys.Base.Int.{pos}
use slotfs_eurosys.File.{Filent}
use slotfs_eurosys.FileResize.{ResizeState, inode_resize, inode_shrink, endless, extend_loop}
use slotfs_eurosys.FileResize.Grow.{
  inode_resize-HasSize, extend_loop-UnitsBeginAt, HasSize, UnitsBeginAt, BeginAt,
}
use slotfs_eurosys.FileResize.Shrink.{inode_shrink-endless}

abbrev two_blocks : Filent
two_blocks = record { idx = 3; ts = 1; l_idx = 0; p_idx = 5; blocks = 2; ref = 2 }

unfoldable tree : BTree Filent
unfolding Node
tree = record { height = 0; root = λ i. if ltb i 2 then some two_blocks else none }

-- The pages up to 7 are in use, and of the others every second, of 64.
abbrev data_map : DramBitmap
data_map = record {
  dram = λ i. if i == 0 then 255 else 85;
  bit_offset = 0;
  bit_num = 64;
  remain = 28;
  hint = 8;
}

-- The size is 5 blocks, of which the last three are a hole.
abbrev file : WriteState
file = record {
  log = record {
    file = record {
      i_ino = 1;
      entry_num = 1;
      log_head = 3;
      ghost_slot = 5;
      list = two_blocks ∷ [];
      b_root = tree;
    };
    invalid = [];
    invalid_num = 0;
    refs = λ idx. 2;
    pm = record {
      filent = λ idx. record { l_idx = 0; p_idx = 5; blocks = 2; ts = 1; next = 5 };
      log_head = λ ino. 3;
    };
    maps = [];
    data_maps = data_map ∷ [];
  };
  i_size = 20480;
  pm_i_size = 20480;
  pm = record {
    byte = λ a. a % 251;
    wjnl = λ a. record { valid = false; kind = 0; ino = 0; begin = 0; len = 0 };
  };
  jnl_mgr = record { in_use = false ∷ false ∷ []; count = pos 0 };
  slot_table = 1048576;
  ts = 7;
}

abbrev state : ResizeState
state = record { file = file; tjnl = record { valid = false; ino = 0; size = 0 } }

abbrev choices : Choices
choices = record { few = λ i. true; memory = λ i. true; cpu = λ i. 0 }

inode_resize-HasSize_example : HasSize 20480 (inode_resize 10 choices 7 0 28672 state)
inode_resize-HasSize_example = inode_resize-HasSize 10 choices 7 0 28672 state

extend_loop-UnitsBeginAt_example : UnitsBeginAt 5 (extend_loop 10 0 5 2 [] file)
unfolding BeginAt
extend_loop-UnitsBeginAt_example = extend_loop-UnitsBeginAt 10 0 5 2 [] file tt

hole : filent_lookup (data_fields file) 3 ≡ none
unfolding filent_lookup tree Node btree_get btree_get_node get_at place_of
hole = refl

inode_shrink-endless_example : inode_shrink 1000000 12288 state ≡ endless
inode_shrink-endless_example = inode_shrink-endless 1000000 12288 state (omega arith) hole
