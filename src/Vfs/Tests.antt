-- ===== src/Vfs/Tests.antt =====
-- Witnesses of the lookup's properties: the root directory with a link `a` to `b` and a file `b`.
use slotfs_eurosys.Base.{
  [], ◌∷◌, true, false, none, some, refl, ◌≡◌, if◌then◌else◌, arith, ◌==◌, ℕ, Bool-cases, inl, inr,
  ap, sym, eq_of_some, ◌∙◌,
}
use slotfs_eurosys.Base.Memory.{bytes_at}
use slotfs_eurosys.Vfs.{
  bytes_at, ok, inode_rebuild, drop_lock, inode_unlock, inode_lock, is_absolute, c_string,
  span_name, skip_slashes, file_type, is_symlink, is_dir, inode_readlink, inode_lookup, iget,
  lookup_child, after_link, handle_symlink, after_child, path_step, path_loop, VfsInode, Sbi,
  VfsState, NameiData, path_lookup,
}
use slotfs_eurosys.BTree.{get_at, place_of, btree_get_node, btree_get, BTree, Node}
use slotfs_eurosys.Dir.{signed_char, hash_loop, dirent_lookup, Dirent, Tree, bkdr_hash}
use slotfs_eurosys.File.{Filent}
use slotfs_eurosys.Vfs.Lookup.Parent.{handle_symlink-nd_parent}
use slotfs_eurosys.Vfs.Lookup.Found.{path_lookup-resolve}
use slotfs_eurosys.Vfs.Lookup.Resolve.{known, resolve}
use slotfs_eurosys.Vfs.Lookup.Steps.{Ends}
use slotfs_eurosys.Vfs.Paths.{components}

unfoldable one_block : BTree Filent
unfolding Node
one_block = record {
  height = 0;
  root = λ i. some (record { idx = 0; ts = 0; l_idx = 0; p_idx = 0; blocks = 1; ref = 1 });
}

abbrev inode_of : ℕ → Tree → VfsInode
inode_of ino tree = record {
  dir = record {
    i_ino = ino;
    ts = 0;
    entry_num = 0;
    log_head = 0;
    ghost_slot = 0;
    list = [];
    rb_root = tree;
  };
  i_size = 1;
  i_link = 1;
  i_mode = if ino == 1 then 16384 else if ino == 2 then 40960 else 32768;
  b_root = one_block;
}

abbrev entry_of : ℕ → ℕ → Dirent
entry_of name ino = record { idx = 0; ts = 0; ino = ino; hash = name }

abbrev root : VfsInode
root =
    inode_of 1
      (Tree.branch Tree.empty (entry_of 97 2) (Tree.branch Tree.empty (entry_of 98 3) Tree.empty))

abbrev sbi : Sbi
sbi = record {
  pm_inode = λ ino. record { i_size = 0; i_link = 0; i_mode = 0; log_head = 0; entry_num = 0 };
  entries = record {
    dirent = λ i. record { name = []; ino = 0; ts = 0; next = 0 };
    log_head = λ i. 0;
  };
  data_pages = λ i. 98;
  root = root;
  rb_insert_color = λ t. t;
  pd = record { name = []; ino = 0; ts = 0; next = 0 };
  heap_alloc = λ size. true;
}

abbrev state : VfsState
state = record {
  inode_table = λ ino.
      if ino == 1
      then some root
      else if ino == 2
      then some (inode_of 2 Tree.empty)
      else if ino == 3
      then some (inode_of 3 Tree.empty)
      else none;
  held = [];
  inode_arena = 4;
}

-- the path `/a`
abbrev nd : NameiData
nd = record {
  path = 47 ∷ 97 ∷ [];
  start = some root;
  current = none;
  parent = none;
  depth = 0;
  nd_parent = false;
  nd_nofollow = false;
  last = [];
  last_len = 0;
}

path_lookup_link : (path_lookup sbi 12 nd state).1.current ≡ some (inode_of 3 Tree.empty)
unfolding path_lookup path_loop path_step after_child handle_symlink after_link lookup_child iget
    inode_lookup inode_readlink is_dir is_symlink file_type dirent_lookup bkdr_hash hash_loop
    signed_char skip_slashes span_name c_string bytes_at is_absolute inode_lock inode_unlock
    drop_lock btree_get btree_get_node one_block Node place_of get_at inode_rebuild
path_lookup_link = refl

numbered :
    (held : VfsInode) (ino : ℕ) (inode : VfsInode)
    → some held ≡ some inode
    → held.dir.i_ino ≡ ino
    → inode.dir.i_ino ≡ ino
numbered held ino inode h e = ap (λ (x : VfsInode). x.dir.i_ino) (sym (eq_of_some h)) ∙ e

cached : (ino : ℕ) (inode : VfsInode) → state.inode_table ino ≡ some inode → inode.dir.i_ino ≡ ino
cached ino inode h = elim (Bool-cases (ino == 1)) [
  | inl first ↦ numbered root ino inode (rw first at h) (ground arith)
  | inr other ↦ elim (Bool-cases (ino == 2)) [
    | inl second ↦
        numbered (inode_of 2 Tree.empty) ino inode (rw (other, second) at h) (ground arith)
    | inr another ↦ elim (Bool-cases (ino == 3)) [
      | inl third ↦
          numbered (inode_of 3 Tree.empty) ino inode (rw (other, another, third) at h)
            (ground arith)
      | inr out ↦ absurd (cc (rw (other, another, out) at h))
    ]
  ]
]

path_lookup-resolve_example :
    let (ret, nd', s') = path_lookup sbi 12 nd state in
    Ends sbi
      (known sbi state)
      []
      []
      (resolve sbi (known sbi state) false 11 root (components (47 ∷ 97 ∷ [])))
      (λ found. nd'.current ≡ some found)
      s'
      ret
path_lookup-resolve_example = path_lookup-resolve sbi nd state root cached refl refl refl

-- the same with ND_PARENT, at the link
abbrev nd_of_parent : NameiData
nd_of_parent = record nd { nd_parent = true; current = some root }

link_read : inode_readlink sbi (inode_of 2 Tree.empty) ≡ some (98 ∷ [])
unfolding inode_readlink btree_get btree_get_node one_block Node place_of get_at bytes_at
link_read = refl

link_target : skip_slashes (c_string (98 ∷ [])) ≡ 98 ∷ []
unfolding skip_slashes c_string
link_target = refl

link_succeeds :
    (handle_symlink sbi (path_lookup sbi 2) (inode_of 2 Tree.empty) nd_of_parent state).0 ≡ ok tt
unfolding path_lookup path_loop path_step after_child handle_symlink after_link lookup_child iget
    inode_lookup inode_readlink is_dir is_symlink file_type dirent_lookup bkdr_hash hash_loop
    signed_char skip_slashes span_name c_string bytes_at is_absolute inode_lock inode_unlock
    drop_lock btree_get btree_get_node one_block Node place_of get_at inode_rebuild
link_succeeds = refl

handle_symlink-nd_parent_example :
    (handle_symlink sbi (path_lookup sbi 2) (inode_of 2 Tree.empty) nd_of_parent state).1.current
    ≡ none
handle_symlink-nd_parent_example =
    handle_symlink-nd_parent sbi 1 (inode_of 2 Tree.empty) nd_of_parent state refl link_read
      link_target link_succeeds
