-- ===== src/Vfs.antt =====
-- slotfs/slot_vfs.c and slot_vfs.h: the cache of inodes and the lookup of paths. A path is the list
-- of its characters, without the final 0. A lookup changes no inode, so a pointer to one is the inode
-- itself, `none` for NULL. `held` has the inode locks of the calling thread, the last one first;
-- waiting for another thread is no step of the model.
pub mod Paths
pub mod Lookup
mod Tests
use slotfs_eurosys.Base.{
  [], ◌∷◌, zero, suc, true, false, none, some, Bool, List, Option, ℕ, if◌then◌else◌, length, ◌+◌,
  ◌*◌, ◌/◌, ◌%◌, ◌==◌, ltb, not, inl, inr, refl, ◌&&◌, ◌^◌, ◌-◌,
}
use slotfs_eurosys.Base.Memory.{bytes_at, store}
use slotfs_eurosys.Dir.{Tree, Inode, Pm, Dirent, PmDirent, dirent_lookup, bkdr_hash, dir_rebuild}
use slotfs_eurosys.File.{Filent}
use slotfs_eurosys.BTree.{BTree, btree_create, btree_get}

pub data LookupError : Type 0 where
  enoent enomem enotdir eloop eexist : LookupError

-- `fault` is the use of a pointer that points to nothing.
pub data Result (A : Type 0) : Type 0 where
  ok : A → Result A
  err : LookupError → Result A
  fault : Result A

pub record PmInode : Type 0 where
  pub i_size : ℕ
  pub i_link : ℕ
  pub i_mode : ℕ
  pub log_head : ℕ
  pub entry_num : ℕ

-- The fields of `struct dram_inode`: those of directories, and those of files.
pub record VfsInode : Type 0 where
  pub dir : Inode
  pub i_size : ℕ
  pub i_link : ℕ
  pub i_mode : ℕ
  pub b_root : BTree Filent

-- What a lookup reads and does not change: the inodes and entries of persistent memory, the bytes
-- of the data pages, the root, the rotations of the tree, the uninitialised variable of
-- `dir_rebuild`, and the sizes for which `heap_alloc` returns a block.
pub record Sbi : Type 0 where
  pub pm_inode : ℕ → PmInode
  pub entries : Pm
  pub data_pages : ℕ → ℕ
  pub root : VfsInode
  pub rb_insert_color : Tree → Tree
  pub pd : PmDirent
  pub heap_alloc : ℕ → Bool

-- `inode_table[ino].inode`, the locks that are held, and the free items of `inode_arena`.
pub record VfsState : Type 0 where
  pub inode_table : ℕ → Option VfsInode
  pub held : List ℕ
  pub inode_arena : ℕ

-- The flags ND_PARENT and ND_NOFOLLOW are `nd_parent` and `nd_nofollow`.
pub record NameiData : Type 0 where
  pub path : List ℕ
  pub start : Option VfsInode
  pub current : Option VfsInode
  pub parent : Option VfsInode
  pub depth : ℕ
  pub nd_parent : Bool
  pub nd_nofollow : Bool
  pub last : List ℕ
  pub last_len : ℕ

abbrev pub slash : ℕ
slash = 47

abbrev pub max_loop : ℕ
max_loop = 10

-- `i_mode & S_IFMT`
unfoldable pub file_type : VfsInode → ℕ
file_type inode = (inode.i_mode / 2 ^ 12) % 2 ^ 4 * 2 ^ 12

-- S_IFDIR is 040000, S_IFLNK 0120000.
unfoldable pub is_dir : VfsInode → Bool
is_dir inode = file_type inode == 16384

unfoldable pub is_symlink : VfsInode → Bool
is_symlink inode = file_type inode == 40960

unfoldable pub inode_lock : ℕ → VfsState → VfsState
inode_lock ino s = record s { held = ino ∷ s.held }

-- The locks without one of `ino`.
unfoldable pub drop_lock : ℕ → List ℕ → List ℕ
drop_lock ino [] = []
drop_lock ino (i ∷ is) = let rest = drop_lock ino is in if i == ino then is else i ∷ rest

unfoldable pub inode_unlock : ℕ → VfsState → VfsState
inode_unlock ino s = record s { held = drop_lock ino s.held }

-- `inode_init_header` and the copy of the fields.
unfoldable pub read_inode : Sbi → ℕ → VfsInode
read_inode sbi ino = record {
  dir = record {
    i_ino = ino;
    ts = 0;
    entry_num = (sbi.pm_inode ino).entry_num;
    log_head = (sbi.pm_inode ino).log_head;
    ghost_slot = 0;
    list = [];
    rb_root = Tree.empty;
  };
  i_size = (sbi.pm_inode ino).i_size;
  i_link = (sbi.pm_inode ino).i_link;
  i_mode = (sbi.pm_inode ino).i_mode;
  b_root = btree_create;
}

-- `file_rebuild` does nothing.
unfoldable pub inode_rebuild : Sbi → ℕ → Result VfsInode
inode_rebuild sbi ino =
    let inode = read_inode sbi ino in
    if is_dir inode
    then elim (dir_rebuild sbi.rb_insert_color sbi.entries sbi.pd inode.dir) [
      | none ↦ err eexist
      | some rebuilt ↦ ok (record inode { dir = rebuilt })
    ]
    else ok inode

-- On success the inode's lock is held.
unfoldable pub iget : Sbi → ℕ → VfsState → Result VfsInode × VfsState
iget sbi ino s =
    let locked = inode_lock ino s in
    elim (s.inode_table ino) [
      | some inode ↦ (ok inode, locked)
      | none ↦
          if s.inode_arena == 0
          then (err enomem, inode_unlock ino locked)
          else elim (inode_rebuild sbi ino) [
            | err e ↦ (err e, inode_unlock ino locked)
            | fault ↦ (fault, locked)
            | ok inode ↦ (
              ok inode,
              record locked {
                inode_table = store locked.inode_table ino (some inode);
                inode_arena = locked.inode_arena - 1;
              },
            )
          ]
    ]

unfoldable pub icache_install : VfsInode → VfsState → VfsState
icache_install inode s = inode_unlock inode.dir.i_ino (
    let locked = inode_lock inode.dir.i_ino s in
    record locked { inode_table = store locked.inode_table inode.dir.i_ino (some inode) })

-- What `inode_lookup` returns: NULL, ERR_PTR(ENOTDIR), or an entry.
pub data DirentPtr : Type 0 where
  null : DirentPtr
  err_ptr : DirentPtr
  at : Dirent → DirentPtr

unfoldable pub inode_lookup : VfsInode → List ℕ → DirentPtr
inode_lookup dir name =
    if not (is_dir dir)
    then err_ptr
    else elim (dirent_lookup dir.dir.rb_root (bkdr_hash name)) [ none ↦ null | some d ↦ at d ]

-- `none` if block 0 has no entry, which is only asserted.
unfoldable pub inode_readlink : Sbi → VfsInode → Option (List ℕ)
inode_readlink sbi inode = elim (btree_get inode.b_root 0) [
  | none ↦ none
  | some fe ↦ some (bytes_at sbi.data_pages (fe.p_idx * 4096) inode.i_size)
]

-- The string in a buffer that ends with 0.
unfoldable pub c_string : List ℕ → List ℕ
c_string [] = []
c_string (c ∷ cs) = let rest = c_string cs in if c == 0 then [] else c ∷ rest

unfoldable pub skip_slashes : List ℕ → List ℕ
skip_slashes [] = []
skip_slashes (c ∷ cs) = let rest = skip_slashes cs in if c == slash then rest else c ∷ cs

-- The characters up to the next slash, and the rest from it on.
unfoldable pub span_name : List ℕ → List ℕ × List ℕ
span_name [] = ([], [])
span_name (c ∷ cs) =
    let (this, rest) = span_name cs in if c == slash then ([], c ∷ cs) else (c ∷ this, rest)

unfoldable pub is_absolute : List ℕ → Bool
is_absolute [] = false
is_absolute (c ∷ cs) = c == slash

-- The result of a lookup, with what it leaves in `*nd`.
abbrev pub Outcome : Type 0
Outcome = Result (Unit {0}) × NameiData × VfsState

abbrev pub link_start : Sbi → List ℕ → NameiData → Option VfsInode
link_start sbi path nd = if is_absolute path then some sbi.root else nd.current

-- The end of `handle_symlink`: what the nested lookup leaves, and `*nd = save_nd`.
unfoldable pub after_link : VfsInode → NameiData → Outcome → Outcome
after_link inode nd (ok done, found, s) = (ok tt, record nd { current = found.current }, s)
after_link inode nd (err e, found, s) = (err e, nd, inode_lock inode.dir.i_ino s)
after_link inode nd (fault, found, s) = (fault, nd, s)

-- `lookup` is `path_lookup`, one level deeper.
unfoldable pub handle_symlink :
    Sbi → (NameiData → VfsState → Outcome) → VfsInode → NameiData → VfsState → Outcome
handle_symlink sbi lookup inode nd s =
    if nd.nd_nofollow
    then (err eloop, nd, s)
    else if ltb max_loop nd.depth
    then (err eloop, nd, s)
    else if not (sbi.heap_alloc (inode.i_size + 1))
    then (err enomem, nd, s)
    else elim (inode_readlink sbi inode) [
      | none ↦ (fault, nd, s)
      | some link ↦
          let path = c_string link in
          let inner = record nd {
            path = path;
            depth = nd.depth + 1;
            start = link_start sbi path nd;
          } in
          after_link inode nd (lookup inner (inode_unlock inode.dir.i_ino s))
    ]

-- The entry of a name and its inode.
unfoldable pub lookup_child : Sbi → VfsInode → List ℕ → VfsState → Result VfsInode × VfsState
lookup_child sbi cur name s = elim (inode_lookup cur name) [
  | null ↦ (err enoent, s)
  | err_ptr ↦ (fault, s)
  | at d ↦ iget sbi d.ino s
]

-- What follows on the lookup of a name in `cur`. `is_last` drops the test for a directory; `break`
-- unlocks the current inode.
unfoldable pub after_child :
    Sbi
    → (NameiData → VfsState → Outcome)
    → Bool
    → VfsInode
    → NameiData
    → Result VfsInode × VfsState
    → Outcome
after_child sbi lookup is_last cur nd (fault, s) = (fault, nd, s)
after_child sbi lookup is_last cur nd (err e, s) = (err e, nd, inode_unlock cur.dir.i_ino s)
after_child sbi lookup is_last cur nd (ok inode, s) =
    let (ret, nd', s') = handle_symlink sbi lookup inode nd (inode_unlock cur.dir.i_ino s) in
    if is_symlink inode
    then elim ret [
      | ok done ↦ (ok tt, nd', s')
      | err e ↦ (err e, nd', inode_unlock inode.dir.i_ino s')
      | fault ↦ (fault, nd', s')
    ]
    else if not is_last && not (is_dir inode)
    then (err enotdir, nd, inode_unlock cur.dir.i_ino (inode_unlock inode.dir.i_ino s))
    else (ok tt, record nd { current = some inode }, inode_unlock cur.dir.i_ino s)

-- One component, in the middle or the last one.
unfoldable pub path_step :
    Sbi → (NameiData → VfsState → Outcome) → Bool → List ℕ → NameiData → VfsState → Outcome
path_step sbi lookup is_last name nd s = elim nd.current [
  | none ↦ (fault, nd, s)
  | some cur ↦ after_child sbi lookup is_last cur nd (lookup_child sbi cur name s)
]

-- The loop at `c`, which is not at a slash, for as many rounds as are given.
unfoldable pub path_loop :
    Sbi → (NameiData → VfsState → Outcome) → ℕ → List ℕ → NameiData → VfsState → Outcome
path_loop sbi lookup zero c nd s = (fault, nd, s)
path_loop sbi lookup (suc rounds) c nd s =
    let (this, rest) = span_name c in
    let noted = record nd { last = c; last_len = length this } in
    let (ret, nd1, s1) = path_step sbi lookup false this nd s in
    elim (skip_slashes rest) [
      | [] ↦
          if nd.nd_parent
          then (ok tt, record noted { parent = nd.current; current = none }, s)
          else path_step sbi lookup true this noted s
      | x ∷ next ↦
          let continued = path_loop sbi lookup rounds (x ∷ next) nd1 s1 in
          elim ret [ ok done ↦ continued | err e ↦ (err e, nd1, s1) | fault ↦ (fault, nd1, s1) ]
    ]

-- `levels` counts the nested calls that are left.
unfoldable pub path_lookup : Sbi → ℕ → NameiData → VfsState → Outcome
path_lookup sbi zero nd s = (fault, nd, s)
path_lookup sbi (suc levels) nd s =
    let nd0 = record nd { current = nd.start } in
    let c = skip_slashes nd.path in
    elim c [
      | [] ↦ if nd.nd_parent then (ok tt, nd0, s) else elim nd.start [
        | none ↦ (fault, nd0, s)
        | some cur ↦ (ok tt, nd0, inode_lock cur.dir.i_ino s)
      ]
      | x ∷ next ↦ elim nd.start [
        | none ↦ (fault, nd0, s)
        | some cur ↦
            path_loop sbi (path_lookup sbi levels) (length (x ∷ next)) (x ∷ next) nd0
              (inode_lock cur.dir.i_ino s)
      ]
    ]
