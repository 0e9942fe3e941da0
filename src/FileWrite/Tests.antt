-- ===== src/FileWrite/Tests.antt =====
-- Witnesses of the writes: a file of 8192 bytes whose blocks 0 and 1 are the pages 5 and 6.
use slotfs_eurosys.Base.{
  eq_of_some, Bool-cases, ltb, ◌+◌, ◌==◌, arith, if◌then◌else◌, ◌%◌, ◌/◌, ◌<◌, ℕ, ◌≡◌, [], ◌∷◌,
  true, false, none, some, inl, inr, refl, ◌*◌, ◌-◌, ◌^◌, ◌≤◌,
}
use slotfs_eurosys.FileWrite.Short.{inode_write_atomic_short}
use slotfs_eurosys.FileData.{read_length, data_address, filent_lookup}
use slotfs_eurosys.FileWrite.Full.{data_loop_full}
use slotfs_eurosys.FileWrite.{
  data_loop, data_pages, inode_write_atomic, is_journaled, is_small_append, data_fields, Choices,
  WriteState, blocks_of,
}
use slotfs_eurosys.FileWrite.Atomic.{inode_write_atomic-IsWritten}
use slotfs_eurosys.Bitmap.{next_zero_bit, next_set_bit}
use slotfs_eurosys.FileWrite.Stored.{IsWritten, IsFresh}
use slotfs_eurosys.Slot.{
  take_range, range_limit, find_bit, alloc_range_one, rotate, DramBitmap, do_slot_alloc_range,
}
use slotfs_eurosys.BTree.{place_of, get_at, btree_get_node, BTree, btree_get, Node}
use slotfs_eurosys.Base.Int.{pos}
use slotfs_eurosys.File.{Filent}
use slotfs_eurosys.BTree.Place.{capacity}
use slotfs_eurosys.BTree.Grow.{contents}

abbrev two_blocks : Filent
two_blocks = record { idx = 3; ts = 1; l_idx = 0; p_idx = 5; blocks = 2; ref = 2 }

unfoldable tree : BTree Filent
unfolding Node
tree = record { height = 0; root = λ i. if ltb i 2 then some two_blocks else none }

-- The pages up to 7 are in use, of 64.
abbrev data_map : DramBitmap
data_map = record {
  dram = λ i. if i == 0 then 255 else 0;
  bit_offset = 0;
  bit_num = 64;
  remain = 56;
  hint = 8;
}

abbrev state : WriteState
state = record {
  log = record {
    file = record {
      i_ino = 1;
      entry_num = 1;
      log_head = 3;
      ghost_slot = 5;
      list = two_blocks ∷ [];
      b_root = tree;
    };
    invalid = [];
    invalid_num = 0;
    refs = λ idx. 2;
    pm = record {
      filent = λ idx. record { l_idx = 0; p_idx = 5; blocks = 2; ts = 1; next = 5 };
      log_head = λ ino. 3;
    };
    maps = [];
    data_maps = data_map ∷ [];
  };
  i_size = 8192;
  pm_i_size = 8192;
  pm = record {
    byte = λ a. a % 251;
    wjnl = λ a. record { valid = false; kind = 0; ino = 0; begin = 0; len = 0 };
  };
  jnl_mgr = record { in_use = false ∷ false ∷ []; count = pos 0 };
  slot_table = 1048576;
  ts = 7;
}

abbrev choices : Choices
choices = record { few = λ i. true; memory = λ i. true; cpu = λ i. 0 }

abbrev buf : ℕ → ℕ
buf i = 7

lookup_two : (k : ℕ) (fe : Filent) → contents tree k ≡ some fe → (k < 2) × (two_blocks ≡ fe)
unfolding contents tree Node btree_get btree_get_node get_at place_of capacity
lookup_two k fe got = elim (Bool-cases (ltb k 256)) [
  | inl in_leaf ↦ (elim (Bool-cases (ltb k 2)) [
    | inl e ↦
        (let got' : some two_blocks ≡ some fe = rw (in_leaf, e) at got in
          (ground arith, eq_of_some got'))
    | inr e ↦ absurd (cc (rw (in_leaf, e) at got))
  ])
  | inr out ↦ absurd (cc (rw out at got))
]

fresh : IsFresh state 8 (blocks_of 5000 100)
unfolding IsFresh blocks_of
fresh k fe got = let (lt, e) = lookup_two k fe got in rw (← e) (inl (omega (arith, lt)))

lookups : (k : ℕ) → k < 2 → filent_lookup (data_fields state) k ≡ contents tree k
unfolding filent_lookup contents capacity tree
lookups k lt = let e : ltb k 256 ≡ true = ground arith in rw (contents, e) refl

tree-height : tree.height ≡ 0
unfolding tree
tree-height = refl

short_pages : 8 + blocks_of 5000 100 ≤ 2 ^ 32
unfolding blocks_of
short_pages = omega arith

short_blocks : 100 / 4096 + blocks_of 5000 100 < 2 ^ 32
unfolding blocks_of
short_blocks = omega arith

served :
    do_slot_alloc_range 0 (data_map ∷ []) (blocks_of 5000 100)
    ≡ (some (8, blocks_of 5000 100), take_range data_map 8 10 ∷ [])
unfolding do_slot_alloc_range rotate alloc_range_one find_bit range_limit blocks_of take_range
    next_set_bit next_zero_bit
served = refl

room : 1048576 + (8 + blocks_of 5000 100) * 4096 < 2 ^ 64
unfolding blocks_of
room = omega arith

last_lookup :
    filent_lookup (data_fields state) (100 / 4096 + blocks_of 5000 100 - 1)
    ≡ contents tree (100 / 4096 + blocks_of 5000 100 - 1)
unfolding blocks_of
last_lookup = lookups 1 (omega arith)

not_journaled : is_journaled 5000 100 state ≡ false
unfolding is_journaled blocks_of
not_journaled = refl

not_small : is_small_append state 100 (blocks_of 5000 100) ≡ false
unfolding is_small_append blocks_of
not_small = refl

inode_write_atomic-IsWritten_example :
    IsWritten buf 5000 100 state (inode_write_atomic choices 0 buf 5000 100 state)
inode_write_atomic-IsWritten_example =
    inode_write_atomic-IsWritten choices 0 state buf 5000 100 8 (take_range data_map 8 10 ∷ [])
      (omega arith) room (omega arith) fresh (lookups 0 (omega arith)) last_lookup
      (omega (arith, tree-height)) short_pages short_blocks not_journaled not_small served

abbrev short_file : WriteState
short_file = record state { i_size = 5000 }

one_block : blocks_of 200 4900 ≡ 1
unfolding blocks_of
one_block = refl

in_block_one : filent_lookup (data_fields short_file) (4900 / 4096) ≡ some two_blocks
unfolding filent_lookup tree Node btree_get btree_get_node get_at place_of
in_block_one = refl

inode_write_atomic_short_example :
    (s' : WriteState) × (inode_write_atomic choices 0 buf 200 4900 short_file ≡ some (inl 200, s'))
    × ((i : ℕ)
        → i < 200
        → data_pages s' (data_address two_blocks (4900 / 4096) (4900 % 4096) + i) ≡ buf i)
    × (read_length (data_fields s') 200 4900 ≡ 5000 - 4900)
inode_write_atomic_short_example =
    inode_write_atomic_short choices 0 buf 200 4900 short_file (omega arith) (omega arith) one_block
      (omega arith) (omega arith) (omega arith) in_block_one

abbrev full_map : DramBitmap
full_map = record data_map { dram = λ i. 255; remain = 0 }

abbrev full_disk : WriteState
full_disk = record state { log = record state.log { data_maps = full_map ∷ [] } }

no_pages : do_slot_alloc_range 0 (full_map ∷ []) 2 ≡ (none, full_map ∷ [])
unfolding do_slot_alloc_range rotate alloc_range_one
no_pages = refl

data_loop_full_example : data_loop 1000000 0 16384 buf 8192 8192 2 [] full_disk ≡ none
data_loop_full_example =
    data_loop_full 1000000 0 16384 buf 8192 8192 2 [] full_disk refl (omega arith) no_pages
