-- ===== src/Vfs/Lookup/Components.antt =====
-- The lookup of one component of a path, and of all of them.
use slotfs_eurosys.Base.{
  ◌∷◌, true, false, some, Bool, List, ℕ, not, ◌≡◌, refl, ◌⊎◌, inl, inr, ◌+◌, Bool-cases, ◌∙◌, sym,
  ◌&&◌, arith,
}
use slotfs_eurosys.Vfs.{
  VfsInode, Result, ok, err, fault, enotdir, Sbi, VfsState, NameiData, Outcome, is_dir, is_symlink,
  inode_unlock, handle_symlink, after_child,
}
use slotfs_eurosys.Vfs.Lookup.Resolve.{resolve_name, follow_link, child_of}
use slotfs_eurosys.Vfs.Lookup.Steps.{Sees, Ends, Sees-table, drop_lock-first, drop_lock-second}
use slotfs_eurosys.Vfs.Lookup.Links.{Keeps, NestedFinds, handle_symlink-Ends, handle_symlink-Keeps}

module _ (sbi : Sbi) (node : ℕ → Result VfsInode) (nofollow : Bool) where
  -- How a step may end: as `resolve_name` says, or early with ENOTDIR in the middle of a path.
  unfoldable pub StepEnds :
      (held : List ℕ) → (is_last : Bool) → Result VfsInode → NameiData → Outcome → Type 0
  StepEnds held is_last r nd (ret, nd', s') =
      (Ends sbi node held held r (λ inode. nd'.current ≡ some inode) s' ret
        ⊎ ((is_last ≡ false)
            × (ret ≡ err enotdir)
            × (s'.held ≡ held)
            × Sees sbi node s'
            × ((inode : VfsInode) × (r ≡ ok inode) × (is_dir inode ≡ false))))
      × Keeps nd nd'

  -- After a link's lookup.
  linked :
      (inode : VfsInode) (held : List ℕ) (r : Result VfsInode) (nd nd' : NameiData) (s' : VfsState)
      → (is_last : Bool) → (ret : Result (Unit {0}))
      → Ends sbi node held (inode.dir.i_ino ∷ held) r (λ found. nd'.current ≡ some found) s' ret
      → Keeps nd nd'
      → StepEnds held is_last r nd (elim ret [
        | ok done ↦ (ok tt, nd', s')
        | err e ↦ (err e, nd', inode_unlock inode.dir.i_ino s')
        | fault ↦ (fault, nd', s')
      ])
  unfolding StepEnds Ends inode_unlock
  linked inode held r nd nd' s' is_last (ok done) h keeps = (inl h, keeps)
  linked inode held r nd nd' s' is_last (err e) (why, locks, sees) keeps = (
    inl (why, rw locks (drop_lock-first inode.dir.i_ino held), Sees-table sbi node s' _ sees refl),
    keeps,
  )
  linked inode held r nd nd' s' is_last fault h keeps = (inl h, keeps)

  name_found :
      (follow : VfsInode → VfsInode → Result VfsInode) (cur inode : VfsInode) (name : List ℕ)
      → child_of node cur name ≡ ok inode
      → is_symlink inode ≡ false
      → resolve_name node follow cur name ≡ ok inode
  unfolding resolve_name
  name_found follow cur inode name r plain = rw (resolve_name, r, plain) refl

  link_found :
      (follow : VfsInode → VfsInode → Result VfsInode) (cur inode : VfsInode) (name : List ℕ)
      → child_of node cur name ≡ ok inode
      → is_symlink inode ≡ true
      → resolve_name node follow cur name ≡ follow cur inode
  unfolding resolve_name
  link_found follow cur inode name r link = rw (resolve_name, r, link) refl

  found :
      (lookup : NameiData → VfsState → Outcome) (levels : ℕ)
      → NestedFinds sbi node nofollow lookup levels
      → (is_last : Bool) (cur : VfsInode) (name : List ℕ) (nd : NameiData) (held : List ℕ)
      → nd.nd_parent ≡ false
      → nd.nd_nofollow ≡ nofollow
      → nd.current ≡ some cur
      → levels + nd.depth ≡ 11
      → (inode : VfsInode) (s : VfsState) → child_of node cur name ≡ ok inode
      → s.held ≡ inode.dir.i_ino ∷ cur.dir.i_ino ∷ held
      → Sees sbi node s
      → StepEnds held is_last
          (resolve_name node (follow_link sbi node nofollow levels) cur name)
          nd
          (after_child sbi lookup is_last cur nd (ok inode, s))
  unfolding after_child StepEnds Ends Keeps inode_unlock
  found lookup levels nested is_last cur name nd held no_parent flag at deep inode s r locks sees =
      let follow = follow_link sbi node nofollow levels in
      let cur_free : (inode_unlock cur.dir.i_ino s).held ≡ inode.dir.i_ino ∷ held =
        rw locks (drop_lock-second cur.dir.i_ino inode.dir.i_ino held) in
      let both_free : (inode_unlock cur.dir.i_ino (inode_unlock inode.dir.i_ino s)).held ≡ held =
        rw (locks, drop_lock-first inode.dir.i_ino (cur.dir.i_ino ∷ held))
          (drop_lock-first cur.dir.i_ino held) in
      elim (Bool-cases (is_symlink inode)) [
        | inl link ↦
            let t = inode_unlock cur.dir.i_ino s in
            let (ret, nd', s') = handle_symlink sbi lookup inode nd t in
            rw (link_found follow cur inode name r link, after_child, link)
              (linked inode held (follow cur inode) nd nd' s' is_last ret
                (handle_symlink-Ends sbi node nofollow lookup levels nested cur inode nd t held
                  no_parent flag at (Sees-table sbi node s t sees refl) cur_free deep)
                (handle_symlink-Keeps sbi lookup inode nd t))
        | inr plain ↦
            let e = name_found follow cur inode name r plain in
            elim (Bool-cases (not is_last && not (is_dir inode))) [
              | inl file ↦
                  rw (e, after_child, plain, file)
                    (
                      inr (
                        ground arith,
                        refl,
                        both_free,
                        Sees-table sbi node s _ sees refl,
                        (inode, refl, ground arith),
                      ),
                      (refl, refl, refl),
                    )
              | inr fine ↦
                  rw (e, after_child, plain, fine)
                    (
                      inl (inode, refl, refl, cur_free, Sees-table sbi node s _ sees refl),
                      (refl, refl, refl),
                    )
            ]
      ]

  pub after_child-StepEnds :
      (lookup : NameiData → VfsState → Outcome) (levels : ℕ)
      → NestedFinds sbi node nofollow lookup levels
      → (is_last : Bool) (cur : VfsInode) (name : List ℕ) (nd : NameiData) (held : List ℕ)
      → nd.nd_parent ≡ false
      → nd.nd_nofollow ≡ nofollow
      → nd.current ≡ some cur
      → levels + nd.depth ≡ 11
      → (child : Result VfsInode) (s : VfsState)
      → Ends sbi node
          (cur.dir.i_ino ∷ held)
          (cur.dir.i_ino ∷ held)
          (child_of node cur name)
          (λ inode. child ≡ ok inode)
          s
          child
      → StepEnds held is_last
          (resolve_name node (follow_link sbi node nofollow levels) cur name)
          nd
          (after_child sbi lookup is_last cur nd (child, s))
  unfolding after_child StepEnds Ends resolve_name Keeps inode_unlock
  after_child-StepEnds lookup levels nested is_last cur name nd held no_parent flag at deep fault s
        (inl h) =
      (inl (inl (rw (resolve_name, h) refl)), (refl, refl, refl))
  after_child-StepEnds lookup levels nested is_last cur name nd held no_parent flag at deep fault s
        (inr h) =
      (inl (inr (rw (resolve_name, h) refl)), (refl, refl, refl))
  after_child-StepEnds lookup levels nested is_last cur name nd held no_parent flag at deep (err e)
        s (why, locks, sees) =
      (
        inl (
          elim why [ inl m ↦ inl m | inr h ↦ inr (rw (resolve_name, h) refl) ],
          rw locks (drop_lock-first cur.dir.i_ino held),
          Sees-table sbi node s _ sees refl,
        ),
        (refl, refl, refl),
      )
  after_child-StepEnds lookup levels nested is_last cur name nd held no_parent flag at deep
        (ok inode) s (inode', r, same, locks, sees) =
      (let e : inode ≡ inode' = cc in
        found lookup levels nested is_last cur name nd held no_parent flag at deep inode s
          (r ∙ sym same) (rw e locks) sees)
