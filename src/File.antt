-- ===== src/File.antt =====
-- slotfs/inode.c and entry.h: the log of a regular file. Its entries, each for a run of blocks, are
-- linked in slots as those of a directory are, and the radix tree has the entry of every block. This
-- is the removal of an entry; the calls run under the inode's lock.
pub mod Remove
mod Tests
use slotfs_eurosys.Base.{
  [], ◌∷◌, zero, suc, true, false, none, some, inl, inr, refl, List, ℕ, get_elem?, if◌then◌else◌,
  ◌+◌, ◌==◌,
}
use slotfs_eurosys.Slot.{do_slot_free, DramBitmap}
use slotfs_eurosys.Base.Word.{sub64}
use slotfs_eurosys.BTree.{btree_set_range, BTree}
use slotfs_eurosys.Base.Memory.{store}

pub record Filent : Type 0 where
  pub idx : ℕ
  pub ts : ℕ
  pub l_idx : ℕ
  pub p_idx : ℕ
  pub blocks : ℕ
  pub ref : ℕ

-- `l_idx`, `p_idx` and `blocks` are `uint32_t`: who fills them in takes them modulo 2 ^ 32.
pub record PmFilent : Type 0 where
  pub l_idx : ℕ
  pub p_idx : ℕ
  pub blocks : ℕ
  pub ts : ℕ
  pub next : ℕ

-- The fields of `struct dram_inode` that the log of a file uses.
pub record FileInode : Type 0 where
  pub i_ino : ℕ
  pub entry_num : ℕ
  pub log_head : ℕ
  pub ghost_slot : ℕ
  pub list : List Filent
  pub b_root : BTree Filent

-- The entries and the inodes' `log_head`.
pub record FilePm : Type 0 where
  pub filent : ℕ → PmFilent
  pub log_head : ℕ → ℕ

-- A file, persistent memory and the bitmaps of SLOT_FILE.
pub record FileState : Type 0 where
  pub file : FileInode
  pub pm : FilePm
  pub maps : List DramBitmap

-- `list_del` of the element at a position
unfoldable pub list_del : List Filent → ℕ → List Filent
list_del [] i = []
list_del (f ∷ fs) zero = fs
list_del (f ∷ fs) (suc i) = f ∷ list_del fs i

-- The `next` of one entry.
unfoldable pub link_next : (ℕ → PmFilent) → ℕ → ℕ → ℕ → PmFilent
link_next filents idx next = store filents idx (record (filents idx) { next = next })

-- `next_ptr`: the ghost slot if the entry at `i` is the last.
unfoldable pub next_ptr : FileInode → ℕ → ℕ
next_ptr file i = elim (get_elem? file.list (i + 1)) [ none ↦ file.ghost_slot | some n ↦ n.idx ]

-- `*prev_ptr = next_ptr` at an entry. Without a previous entry `prev_fe` would be the list's head
-- itself; then nothing is written here.
unfoldable pub link_prev : FileInode → ℕ → ℕ → FilePm → FilePm
link_prev file zero next pm = pm
link_prev file (suc i) next pm = elim (get_elem? file.list i) [
  | none ↦ pm
  | some prev ↦ record pm { filent = link_next pm.filent prev.idx next }
]

-- The entry at position `i` of the list is removed. `log_head` is written in persistent memory only.
unfoldable pub file_remove_entry : ℕ → FileState → FileState
file_remove_entry i s = elim (get_elem? s.file.list i) [
  | none ↦ s
  | some fe ↦
      let next = next_ptr s.file i in
      let linked =
        if s.file.log_head == fe.idx
        then record s.pm { log_head = store s.pm.log_head s.file.i_ino next }
        else link_prev s.file i next s.pm in
      let (ok, tree) = btree_set_range s.file.b_root fe.l_idx (fe.l_idx + fe.blocks) none in
      record {
        file = record s.file {
          list = list_del s.file.list i;
          b_root = tree;
          entry_num = sub64 s.file.entry_num 1;
        };
        pm = record linked { filent = link_next linked.filent fe.idx 0 };
        maps = do_slot_free s.maps fe.idx;
      }
]
