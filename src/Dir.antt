-- ===== src/Dir.antt =====
-- slotfs/inode.c and entry.h: directories. A directory is a log of entries in slots of persistent
-- memory, linked by `next` from `log_head` to an empty slot, the ghost slot; a list and a tree of them
-- are in DRAM. An `index_t` is a 64-bit word, -1 as two's complement; an entry is written at its slot,
-- so persistent memory is a function of the slot. The tree's rotations are those of the kernel's
-- rbtree: `rb_insert_color` and `rb_erase` are arguments. Calls run under the inode's lock.
pub mod Chain
pub mod Unlink
pub mod Log
pub mod Rebuild
mod Tests
use slotfs_eurosys.Base.{
  [], ◌∷◌, zero, suc, true, false, none, some, inl, inr, refl, Bool, List, Option, ℕ, get_elem?,
  if◌then◌else◌, leb, ◌*◌, ◌++◌, ◌^◌, ◌⊎◌, ltb, not, ◌&&◌, ◌+◌, ◌-◌, ◌==◌, ◌%◌, length,
}
use slotfs_eurosys.Slot.{do_slot_free, do_slot_alloc, DramBitmap}
use slotfs_eurosys.Base.Word.{sub64}
use slotfs_eurosys.Base.Memory.{store}

abbrev pub minus_one : ℕ
minus_one = 2 ^ 64 - 1

pub record Dirent : Type 0 where
  pub idx : ℕ
  pub ts : ℕ
  pub ino : ℕ
  pub hash : ℕ

-- `name` has `name_len` characters, which the array `char name[MAX_NAME_LEN]` holds.
pub record PmDirent : Type 0 where
  pub name : List ℕ
  pub ino : ℕ
  pub ts : ℕ
  pub next : ℕ

-- The tree of `rb_node`s.
pub data Tree : Type 0 where
  empty : Tree
  branch : Tree → Dirent → Tree → Tree

-- The fields of `struct dram_inode` that directories use.
pub record Inode : Type 0 where
  pub i_ino : ℕ
  pub ts : ℕ
  pub entry_num : ℕ
  pub log_head : ℕ
  pub ghost_slot : ℕ
  pub list : List Dirent
  pub rb_root : Tree

-- The entries and the inodes' `log_head`.
pub record Pm : Type 0 where
  pub dirent : ℕ → PmDirent
  pub log_head : ℕ → ℕ

-- A directory, persistent memory and the bitmaps of SLOT_DIR.
pub record DirState : Type 0 where
  pub dir : Inode
  pub pm : Pm
  pub maps : List DramBitmap

-- `overflow` is no error that the code returns: there it would write behind the end of an array, and
-- the model goes no further.
pub data Error : Type 0 where
  enomem : Error
  enospc : Error
  eexist : Error
  overflow : Error

-- MAX_NAME_LEN
abbrev pub max_name_len : ℕ
max_name_len = 64

-- `*str++` is a signed character, as 64-bit word.
unfoldable pub signed_char : ℕ → ℕ
signed_char c = if ltb c 128 then c else c + 2 ^ 64 - 256

unfoldable pub hash_loop : ℕ → List ℕ → ℕ
hash_loop hash [] = hash
hash_loop hash (c ∷ name) = hash_loop ((hash * 131 + signed_char c) % 2 ^ 64) name

unfoldable pub bkdr_hash : List ℕ → ℕ
bkdr_hash name = hash_loop 0 name

unfoldable pub dirent_lookup : Tree → ℕ → Option Dirent
dirent_lookup empty hash = none
dirent_lookup (branch left curr right) hash =
    let rest_left = dirent_lookup left hash in
    let rest_right = dirent_lookup right hash in
    if ltb hash curr.hash then rest_left else if ltb curr.hash hash then rest_right else some curr

-- The way down of `dir_index_insert`, with `rb_link_node` at its end; `none` is -EEXIST.
unfoldable pub link_node : Dirent → Tree → Option Tree
link_node d empty = some (branch empty d empty)
link_node d (branch left curr right) =
    let in_left = link_node d left in
    let in_right = link_node d right in
    if ltb d.hash curr.hash
    then elim in_left [ none ↦ none | some t ↦ some (branch t curr right) ]
    else if ltb curr.hash d.hash
    then elim in_right [ none ↦ none | some t ↦ some (branch left curr t) ]
    else none

-- `slot_dirent_alloc`
unfoldable pub slot_dirent_alloc : ℕ → List DramBitmap → ℕ × List DramBitmap
slot_dirent_alloc cpu maps =
    let (index, maps') = do_slot_alloc cpu maps in
    (elim index [ none ↦ minus_one | some i ↦ i ], maps')

-- `< -1`, signed
unfoldable pub below_minus_one : ℕ → Bool
below_minus_one i = leb (2 ^ 63) i && ltb i minus_one

-- `list_del` of the element at a position
unfoldable pub remove_at : List Dirent → ℕ → List Dirent
remove_at [] i = []
remove_at (d ∷ ds) zero = ds
remove_at (d ∷ ds) (suc i) = d ∷ remove_at ds i

-- The `next` of one entry.
unfoldable pub set_next : (ℕ → PmDirent) → ℕ → ℕ → ℕ → PmDirent
set_next dirents idx next = store dirents idx (record (dirents idx) { next = next })

module _ (rb_insert_color : Tree → Tree) where
  unfoldable pub dir_index_insert : Tree → Dirent → Option Tree
  dir_index_insert tree d = elim (link_node d tree) [
    | none ↦ none
    | some t ↦ some (rb_insert_color t)
  ]

  -- The tree after the call; on -EEXIST it is as before.
  unfoldable pub inserted : Tree → Dirent → Tree
  inserted tree d = elim (dir_index_insert tree d) [ none ↦ tree | some t ↦ t ]

  -- `memory`: whether `dirent_alloc` returned a block. `inode` is the one that the entry names; its
  -- `entry_num` goes up, not the directory's. The result of `dir_index_insert` is only asserted. The
  -- `memcpy` of the name has no check: `overflow` if the name is longer than its array.
  unfoldable pub dir_append_entry :
      Bool → ℕ → Inode → List ℕ → DirState → (Dirent ⊎ Error) × DirState × Inode
  dir_append_entry memory cpu inode name s =
      let dno = s.dir.ghost_slot in
      let (ghost, maps') = slot_dirent_alloc cpu s.maps in
      if not memory
      then (inr enomem, s, inode)
      else if below_minus_one ghost
      then (inr enospc, record s { maps = maps' }, inode)
      else if ltb max_name_len (length name)
      then (inr overflow, record s { maps = maps' }, inode)
      else (let d : Dirent = record {
        idx = dno;
        ts = inode.ts;
        ino = inode.i_ino;
        hash = bkdr_hash name;
      } in
          let pd : PmDirent = record {
            name = name;
            ino = inode.i_ino;
            ts = inode.ts;
            next = ghost;
          } in
          (
            inl d,
            record {
              dir = record s.dir {
                ghost_slot = ghost;
                list = s.dir.list ++ (d ∷ []);
                rb_root = inserted s.dir.rb_root d;
              };
              pm = record s.pm { dirent = store s.pm.dirent dno pd };
              maps = maps';
            },
            record inode { entry_num = inode.entry_num + 1 },
          ))

-- `next_ptr`: the ghost slot if the entry at `i` is the last.
unfoldable pub next_index : Inode → ℕ → ℕ
next_index dir i = elim (get_elem? dir.list (i + 1)) [ none ↦ dir.ghost_slot | some n ↦ n.idx ]

-- `*prev_ptr = next_ptr`. Without a previous entry `prev_d` would be the list's head itself; then
-- nothing is written here.
unfoldable pub write_prev : Inode → ℕ → ℕ → Pm → Pm
write_prev dir zero next_ptr pm = pm
write_prev dir (suc i) next_ptr pm = elim (get_elem? dir.list i) [
  | none ↦ pm
  | some prev ↦ record pm { dirent = set_next pm.dirent prev.idx next_ptr }
]

module _ (rb_erase : Dirent → Tree → Tree) where
  -- The entry at position `i` of the list is removed.
  unfoldable pub dir_remove_entry : ℕ → DirState → DirState
  dir_remove_entry i s = elim (get_elem? s.dir.list i) [
    | none ↦ s
    | some d ↦
        let next_ptr = next_index s.dir i in
        let head = s.dir.log_head == d.idx in
        let linked =
          if head
          then record s.pm { log_head = store s.pm.log_head s.dir.i_ino next_ptr }
          else write_prev s.dir i next_ptr s.pm in
        record {
          dir = record s.dir {
            log_head = if head then next_ptr else s.dir.log_head;
            list = remove_at s.dir.list i;
            rb_root = rb_erase d s.dir.rb_root;
            entry_num = sub64 s.dir.entry_num 1;
          };
          pm = record linked { dirent = set_next linked.dirent d.idx 0 };
          maps = do_slot_free s.maps d.idx;
        }
  ]

module _ (rb_insert_color : Tree → Tree) where
  -- The loop of `dir_rebuild` from slot `curr`, with the entries that are left; `none` is the error
  -- of `dir_rebuild_insert`. `dirent_alloc` returns a block. `pd` is the local variable. The `memcpy`
  -- copies `sizeof(dirent_t)` bytes, 80: the name and `ino` are in them, `ts` and `next`, at 80 and
  -- 88, are not.
  unfoldable pub rebuild_loop : Pm → PmDirent → ℕ → ℕ → Inode → Option Inode
  rebuild_loop pm pd zero curr inode = some inode
  rebuild_loop pm pd (suc left) curr inode =
      let copied = record pd { name = (pm.dirent curr).name; ino = (pm.dirent curr).ino } in
      let d : Dirent = record {
        idx = curr;
        ts = copied.ts;
        ino = copied.ino;
        hash = bkdr_hash copied.name;
      } in
      elim (dir_index_insert rb_insert_color inode.rb_root d) [
        | none ↦ none
        | some tree ↦ rebuild_loop pm copied left copied.next (record inode {
          ghost_slot = copied.next;
          list = inode.list ++ (d ∷ []);
          rb_root = tree;
        })
      ]

  -- `pd` holds what is on the stack.
  unfoldable pub dir_rebuild : Pm → PmDirent → Inode → Option Inode
  dir_rebuild pm pd inode =
      rebuild_loop pm pd inode.entry_num inode.log_head
        (record inode { ghost_slot = inode.log_head })
