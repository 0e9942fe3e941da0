-- ===== src/Dir/Rebuild.antt =====
-- What `dir_rebuild` reads of the log.
use slotfs_eurosys.Base.{
  arith, [], ◌∷◌, zero, suc, some, inl, inr, refl, ℕ, ◌<◌, ◌≡◌, ◌⊎◌, Option-cases, ◌++◌, Bool-cases,
  ◌==◌, ap, sym, eq_of_some, ◌∙◌,
}
use slotfs_eurosys.Dir.{
  dir_index_insert, bkdr_hash, Dirent, Inode, PmDirent, Pm, Tree, dir_rebuild, rebuild_loop,
}

ghost_of_loop :
    (rb_insert_color : Tree → Tree) (pm : Pm) (left : ℕ) (pd : PmDirent) (curr : ℕ) (inode : Inode)
    {inode' : Inode}
    → (left ≡ 0) × (inode.ghost_slot ≡ pd.next) ⊎ (0 < left)
    → rebuild_loop rb_insert_color pm pd left curr inode ≡ some inode'
    → inode'.ghost_slot ≡ pd.next
unfolding rebuild_loop
ghost_of_loop rb_insert_color pm zero pd curr inode start h = elim start [
  | inl (z, g) ↦ ap (λ (x : Inode). x.ghost_slot) (sym (eq_of_some h)) ∙ g
  | inr pos ↦ absurd (omega (arith, pos))
]
ghost_of_loop rb_insert_color pm (suc left) pd curr inode {inode'} start h =
    let copied = record pd { name = (pm.dirent curr).name; ino = (pm.dirent curr).ino } in
    let d : Dirent = record {
      idx = curr;
      ts = copied.ts;
      ino = copied.ino;
      hash = bkdr_hash copied.name;
    } in
    elim (Option-cases (dir_index_insert rb_insert_color inode.rb_root d)) [
      | inl out ↦ absurd (cc (sym (rw (out, rebuild_loop) at h)))
      | inr (tree, got) ↦
          let next : Inode = record inode {
            ghost_slot = copied.next;
            list = inode.list ++ (d ∷ []);
            rb_root = tree;
          } in
          ghost_of_loop rb_insert_color pm left copied copied.next next
            (elim (Bool-cases (left == 0)) [
              | inl e ↦ inl (ground arith, refl)
              | inr e ↦ inr (ground arith)
            ])
            (rw (got, rebuild_loop) at h)
    ]

-- If `dir_rebuild` succeeds with at least one entry, the ghost slot is what the local variable
-- `pd` held before the call, whatever the log in persistent memory has: the `memcpy` is too short
-- for `next`.
pub dir_rebuild-ghost_slot :
    (rb_insert_color : Tree → Tree) (pm : Pm) (pd : PmDirent) (inode : Inode) {inode' : Inode}
    → 0 < inode.entry_num
    → dir_rebuild rb_insert_color pm pd inode ≡ some inode'
    → inode'.ghost_slot ≡ pd.next
unfolding dir_rebuild
dir_rebuild-ghost_slot rb_insert_color pm pd inode some_entry h =
    ghost_of_loop rb_insert_color pm inode.entry_num pd inode.log_head
      (record inode { ghost_slot = inode.log_head }) (inr some_entry) h
