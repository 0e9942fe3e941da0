-- ===== src/Recovery/Tests.antt =====
-- Witnesses of the recovery: a root directory whose log has an entry in slot 1 and the ghost slot 2,
-- and a file's entry in slot 4.
use slotfs_eurosys.Dir.{Dirent, bkdr_hash, hash_loop}
use slotfs_eurosys.Base.{
  [], ◌∷◌, true, false, none, some, inl, refl, ◌<◌, arith, length, ◌+◌, ◌^◌, ◌%◌, ◌||◌, ℕ, ◌==◌,
  if◌then◌else◌, ◌≡◌,
}
use slotfs_eurosys.Recovery.Scan.{rc_handle_inode-Linked}
use slotfs_eurosys.Bitmap.Bits.{bit}
use slotfs_eurosys.Bitmap.{set_bit}
use slotfs_eurosys.Recovery.{
  set_bit, rc_handle_inode, rc_iget, rc_map_filent, store, RcInode, RcMalloc, RcMgr, RcPm,
  has_dir_bit, rc_handle_filent, rc_init,
}
use slotfs_eurosys.Base.Memory.{store}
use slotfs_eurosys.Recovery.DataPages.{recover-HasNoPages, HasNoPages}
use slotfs_eurosys.Mkfs.{PmSlot, PmSlots}
use slotfs_eurosys.Recovery.Flush.{rc_flush, rc_flush-HasMap, HasMap}
use slotfs_eurosys.Dir.Chain.{Linked, has_idx}
use slotfs_eurosys.Recovery.Links.{HasMemory}
use slotfs_eurosys.Recovery.Steps.{RcReach, RcStep}
use slotfs_eurosys.Queue.{Queue, queue_init}

abbrev block : RcInode
block = record {
  log_head = 0;
  entry_num = 0;
  link = 0;
  mode = 0;
  btree = λ i. none;
  hint = none;
  list = [];
}

abbrev blocks : RcMalloc
blocks = record { inode = λ ino. some block; filent = λ id. some 0 }

abbrev pm : RcPm
pm = record {
  i_mode = λ ino. if ino == 0 then 16877 else 33188;
  log_head = λ ino. if ino == 0 then 1 else 4;
  dirent = λ idx.
      if idx == 1
      then record { name = []; ino = 3; ts = 1; next = 2 }
      else record { name = []; ino = 0; ts = 0; next = 0 };
  filent = λ idx.
      if idx == 4
      then record { l_idx = 0; p_idx = 5; blocks = 2; ts = 1; next = 7 }
      else record { l_idx = 0; p_idx = 0; blocks = 0; ts = 0; next = 0 };
}

abbrev queue : Queue
queue = record { front = 0; rear = 0; cells = 0 ∷ 0 ∷ 0 ∷ []; capacity = 3 }

abbrev rc : RcMgr
rc = record {
  inode_map = λ i. 0;
  dir_map = λ i. 0;
  file_map = λ i. 0;
  data_map = λ i. 0;
  inode_table = store (store (λ i. none) 0 (some block)) 0 (some (record block { link = 1 }));
  queue = queue;
  refs = λ i. 0;
  next_id = 0;
}

rc-init : rc_init blocks (some (0 ∷ 0 ∷ 0 ∷ [])) 3 ≡ some rc
unfolding rc_init rc_iget queue_init
rc-init = refl

entry : Dirent
entry = record { idx = 1; ts = 1; ino = 3; hash = 0 }

memory : HasMemory blocks
unfolding HasMemory
memory ino = (block, refl)

is_dir : has_dir_bit (pm.i_mode 0) ≡ true
unfolding has_dir_bit
is_dir = refl

linked : Linked pm.dirent 1 (entry ∷ []) 2
unfolding Linked bkdr_hash hash_loop entry
linked = (refl, record { ino = refl; ts = refl; hash = refl }, refl)

above : has_idx 0 (entry ∷ []) ≡ false
unfolding has_idx entry
above = refl

rc_handle_inode-Linked_example :
    (s' : RcMgr) × (rc_handle_inode blocks pm 2 0 rc ≡ some (inl s'))
    × ((k : ℕ) → bit s'.inode_map k ≡ ((0 == k) || bit rc.inode_map k))
    × ((k : ℕ) → bit s'.dir_map k ≡ ((has_idx k (entry ∷ []) || (2 == k)) || bit rc.dir_map k))
    × (s'.file_map ≡ rc.file_map)
    × ((inode : RcInode)
        → rc.inode_table 0 ≡ some inode
        → (inode' : RcInode) × (s'.inode_table 0 ≡ some inode')
          × (inode'.entry_num % 2 ^ 64 ≡ (inode.entry_num + length (entry ∷ []) + 1) % 2 ^ 64))
rc_handle_inode-Linked_example =
    rc_handle_inode-Linked blocks pm 0 2 (entry ∷ []) 2 rc memory is_dir
      (record { order = omega arith; count = omega arith; array = omega arith }) (omega arith)
      linked above (omega arith) refl

abbrev mapped : RcMgr
mapped =
    rc_map_filent (record { id = 0; ts = 1; p_idx = 5; l_idx = 0; blocks = 2 }) 0
      (record block { link = 1 })
      (record rc { file_map = set_bit 4 rc.file_map; refs = store rc.refs 0 0; next_id = 1 })

handled : rc_handle_filent blocks pm 0 4 rc ≡ inl (7, mapped)
unfolding rc_handle_filent
handled = refl

recover-HasNoPages_example : HasNoPages mapped
recover-HasNoPages_example =
    recover-HasNoPages blocks pm (some (0 ∷ 0 ∷ 0 ∷ [])) 3 rc mapped rc-init
      (RcReach.next RcReach.here (RcStep.filent 0 4 handled))

abbrev slot_at : ℕ → ℕ → PmSlot
slot_at bitmap num = record {
  slot_table = 65536;
  slot_num = num;
  slot_size = 64;
  slot_pages = 1;
  bitmap = bitmap;
  bitmap_pages = 1;
}

abbrev slots : PmSlots
slots = record {
  inode = slot_at 4096 10;
  dir = slot_at 8192 64;
  file = slot_at 12288 64;
  data_slot = slot_at 16384 100;
}

abbrev found : RcMgr
found = record {
  inode_map = λ i. 3;
  dir_map = λ i. 7;
  file_map = λ i. 1;
  data_map = λ i. i;
  inode_table = λ ino. if ino == 1 then some (record block { entry_num = 5 }) else none;
  queue = queue;
  refs = λ i. 0;
  next_id = 0;
}

rc_flush-HasMap_example :
    (let (byte, entry_num) = rc_flush slots found (λ a. 0, λ ino. 0) in
      HasMap slots.inode found.inode_map byte
      × HasMap slots.dir found.dir_map byte
      × HasMap slots.file found.file_map byte
      × HasMap slots.data_slot found.data_map byte
      × ((ino : ℕ) (inode : RcInode)
          → ino < slots.inode.slot_num
          → found.inode_table ino ≡ some inode
          → entry_num ino ≡ inode.entry_num)
      × ((ino : ℕ) → found.inode_table ino ≡ none → entry_num ino ≡ 0))
rc_flush-HasMap_example =
    rc_flush-HasMap slots found (λ a. 0) (λ ino. 0) (omega arith) (omega arith) (omega arith)
