-- ===== src/Vfs/Lookup/Resolve.antt =====
-- What a path stands for: its components are followed from directory to directory, a symbolic link
-- by those of its target, without strings, locks and the cache.
use slotfs_eurosys.Base.{[], ◌∷◌, zero, suc, none, some, Bool, List, ℕ, if◌then◌else◌, not}
use slotfs_eurosys.Vfs.{
  enoent, fault, eloop, enotdir, err, ok, VfsInode, Result, Sbi, VfsState, is_dir, is_symlink,
  is_absolute, inode_readlink, c_string, inode_rebuild,
}
use slotfs_eurosys.Vfs.Paths.{components}
use slotfs_eurosys.Dir.{dirent_lookup, bkdr_hash}

-- The inode of a number: the one in the cache, or else the one that is rebuilt.
unfoldable pub known : Sbi → VfsState → ℕ → Result VfsInode
known sbi s ino = elim (s.inode_table ino) [ some inode ↦ ok inode | none ↦ inode_rebuild sbi ino ]

-- The inode that `name` has in the directory `cur`.
unfoldable pub child_of : (ℕ → Result VfsInode) → VfsInode → List ℕ → Result VfsInode
child_of node cur name =
    if not (is_dir cur)
    then err enotdir
    else elim (dirent_lookup cur.dir.rb_root (bkdr_hash name)) [
      | none ↦ err enoent
      | some d ↦ node d.ino
    ]

module _ (node : ℕ → Result VfsInode) where
  -- That inode, or what it leads to.
  unfoldable pub resolve_name :
      (VfsInode → VfsInode → Result VfsInode) → VfsInode → List ℕ → Result VfsInode
  resolve_name follow cur name = elim (child_of node cur name) [
    | err e ↦ err e
    | fault ↦ fault
    | ok inode ↦ if is_symlink inode then follow cur inode else ok inode
  ]

  unfoldable pub walk :
      (VfsInode → VfsInode → Result VfsInode) → VfsInode → List (List ℕ) → Result VfsInode
  walk follow cur [] = ok cur
  walk follow cur (name ∷ names) = elim (resolve_name follow cur name) [
    | ok inode ↦ walk follow inode names
    | err e ↦ err e
    | fault ↦ fault
  ]

module _ (sbi : Sbi) (node : ℕ → Result VfsInode) (nofollow : Bool) where
  -- The target of a link in the directory `cur`, with at most `levels` links in links.
  unfoldable pub follow_link : ℕ → VfsInode → VfsInode → Result VfsInode
  follow_link zero cur inode = err eloop
  follow_link (suc levels) cur inode =
      if nofollow then err eloop else elim (inode_readlink sbi inode) [
        | none ↦ fault
        | some link ↦
            let from = if is_absolute (c_string link) then sbi.root else cur in
            walk node (follow_link levels) from (components (c_string link))
      ]

  unfoldable pub resolve : ℕ → VfsInode → List (List ℕ) → Result VfsInode
  resolve levels cur names = walk node (follow_link levels) cur names
