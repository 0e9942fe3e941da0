-- ===== src/Vfs/Lookup/Numbers.antt =====
-- An inode that is rebuilt has the number it is asked for.
use slotfs_eurosys.Base.{
  zero, suc, some, inl, inr, ◌≡◌, ℕ, Option-cases, Bool-cases, [], ◌∷◌, ◌++◌, eq_of_some, ap, sym,
  ◌∙◌,
}
use slotfs_eurosys.Vfs.{read_inode, Sbi, VfsState, VfsInode, ok, inode_rebuild, is_dir}
use slotfs_eurosys.Dir.{
  Inode, Pm, PmDirent, Dirent, Tree, dir_index_insert, rebuild_loop, dir_rebuild, bkdr_hash,
}
use slotfs_eurosys.Vfs.Lookup.Resolve.{known}
use slotfs_eurosys.Vfs.Lookup.Steps.{IsNumbered}

rebuild_loop-i_ino :
    (rb_insert_color : Tree → Tree) (pm : Pm) (left : ℕ) (pd : PmDirent) (curr : ℕ) (inode : Inode)
    {inode' : Inode}
    → rebuild_loop rb_insert_color pm pd left curr inode ≡ some inode'
    → inode'.i_ino ≡ inode.i_ino
unfolding rebuild_loop
rebuild_loop-i_ino rb_insert_color pm zero pd curr inode h =
    ap (λ (x : Inode). x.i_ino) (sym (eq_of_some h))
rebuild_loop-i_ino rb_insert_color pm (suc left) pd curr inode h =
    let copied = record pd { name = (pm.dirent curr).name; ino = (pm.dirent curr).ino } in
    let d : Dirent = record {
      idx = curr;
      ts = copied.ts;
      ino = copied.ino;
      hash = bkdr_hash copied.name;
    } in
    elim (Option-cases (dir_index_insert rb_insert_color inode.rb_root d)) [
      | inl out ↦ absurd (cc (sym (rw (out, rebuild_loop) at h)))
      | inr (tree, got) ↦
          rebuild_loop-i_ino rb_insert_color pm left copied copied.next
            (record inode {
              ghost_slot = copied.next;
              list = inode.list ++ (d ∷ []);
              rb_root = tree;
            })
            (rw (got, rebuild_loop) at h)
    ]

inode_rebuild-i_ino :
    (sbi : Sbi) (ino : ℕ) {inode : VfsInode}
    → inode_rebuild sbi ino ≡ ok inode
    → inode.dir.i_ino ≡ ino
unfolding inode_rebuild dir_rebuild read_inode
inode_rebuild-i_ino sbi ino {inode} h =
    let read = read_inode sbi ino in
    let start = record read.dir { ghost_slot = read.dir.log_head } in
    elim (Bool-cases (is_dir read)) [
      | inr plain ↦
          let e : ok read ≡ ok inode = rw (inode_rebuild, plain) at h in
          let q : read ≡ inode = cc in ap (λ (x : VfsInode). x.dir.i_ino) (sym q)
      | inl dir ↦
          elim (Option-cases (dir_rebuild sbi.rb_insert_color sbi.entries sbi.pd read.dir)) [
            | inl failed ↦ absurd (cc (sym (rw (inode_rebuild, dir, failed) at h)))
            | inr (rebuilt, got) ↦
                let e : ok (record read { dir = rebuilt }) ≡ ok inode =
                  rw (inode_rebuild, dir, got) at h in
                let q : record read { dir = rebuilt } ≡ inode = cc in
                ap (λ (x : VfsInode). x.dir.i_ino) (sym q)
                ∙ rebuild_loop-i_ino sbi.rb_insert_color sbi.entries read.dir.entry_num sbi.pd
                    read.dir.log_head start got
          ]
    ]

-- It is enough that the cached inodes have their numbers.
pub known-IsNumbered :
    (sbi : Sbi) (s : VfsState)
    → ((ino : ℕ) (inode : VfsInode) → s.inode_table ino ≡ some inode → inode.dir.i_ino ≡ ino)
    → IsNumbered sbi (known sbi s)
unfolding known IsNumbered
known-IsNumbered sbi s cached ino inode h = elim (Option-cases (s.inode_table ino)) [
  | inl absent ↦ inode_rebuild-i_ino sbi ino (rw (known, absent) at h)
  | inr (held, got) ↦
      (let e : ok held ≡ ok inode = rw (known, got) at h in
        let q : held ≡ inode = cc in rw (← q) (cached ino held got))
]
