-- ===== src/Vfs/Lookup/Links.antt =====
-- The lookup of a name, and of the target of a symbolic link.
use slotfs_eurosys.Base.{
  ◌∷◌, zero, suc, true, false, some, Bool, List, ℕ, if◌then◌else◌, ◌≡◌, refl, inl, inr, ◌+◌, arith,
  ltb, Bool-cases, Option-cases, sym, ◌∙◌, ap, not, none,
}
use slotfs_eurosys.Dir.{bkdr_hash, dirent_lookup}
use slotfs_eurosys.Vfs.{
  dirent_lookup, after_link, ok, VfsInode, Result, err, fault, eloop, Sbi, VfsState, NameiData,
  Outcome, is_dir, inode_readlink, c_string, inode_lock, inode_unlock, lookup_child, inode_lookup,
  handle_symlink, max_loop, is_absolute, link_start,
}
use slotfs_eurosys.Vfs.Paths.{components}
use slotfs_eurosys.Vfs.Lookup.Resolve.{follow_link, child_of, resolve}
use slotfs_eurosys.Vfs.Lookup.Steps.{Sees, Ends, IsNumbered, iget-Ends, Sees-table, drop_lock-first}

-- The flags and the depth stay.
unfoldable pub Keeps : NameiData → NameiData → Type 0
Keeps nd nd' =
    (nd'.depth ≡ nd.depth) × (nd'.nd_parent ≡ nd.nd_parent) × (nd'.nd_nofollow ≡ nd.nd_nofollow)

pub Keeps-fields :
    (nd nd' : NameiData)
    → Keeps nd nd'
    → (nd'.depth ≡ nd.depth) × (nd'.nd_parent ≡ nd.nd_parent) × (nd'.nd_nofollow ≡ nd.nd_nofollow)
unfolding Keeps
Keeps-fields nd nd' keeps = keeps

-- What both branches of a test have.
pub if_both :
    {A : Type 0} (P : A → Type 0) (b : Bool) {x y : A} → P x → P y → P (if b then x else y)
if_both P true px py = px
if_both P false px py = py

module _ (sbi : Sbi) where
  after_link-Keeps :
      (inode : VfsInode) (nd : NameiData) (out : Outcome) → Keeps nd (after_link inode nd out).1
  unfolding after_link Keeps
  after_link-Keeps inode nd (ok done, found, s) = (refl, refl, refl)
  after_link-Keeps inode nd (err e, found, s) = (refl, refl, refl)
  after_link-Keeps inode nd (fault, found, s) = (refl, refl, refl)

  pub handle_symlink-Keeps :
      (lookup : NameiData → VfsState → Outcome) (inode : VfsInode) (nd : NameiData) (s : VfsState)
      → Keeps nd (handle_symlink sbi lookup inode nd s).1
  unfolding handle_symlink Keeps
  handle_symlink-Keeps lookup inode nd s =
      let kept : Keeps nd nd = (refl, refl, refl) in
      let P : Outcome → Type 0 = λ out. Keeps nd out.1 in
      if_both P nd.nd_nofollow kept (
        if_both P (ltb max_loop nd.depth) kept (
          if_both P (not (sbi.heap_alloc (inode.i_size + 1))) kept
            (elim (Option-cases (inode_readlink sbi inode)) [
              | inl lost ↦ rw lost kept
              | inr (link, got) ↦ rw got (after_link-Keeps inode nd _)
            ])))

module _ (sbi : Sbi) (node : ℕ → Result VfsInode) where
  pub lookup_child-Ends :
      (cur : VfsInode) (name : List ℕ) (s : VfsState)
      → IsNumbered sbi node
      → Sees sbi node s
      → let (r, s') = lookup_child sbi cur name s in
        Ends sbi node s.held s.held (child_of node cur name) (λ inode. r ≡ ok inode) s' r
  unfolding lookup_child inode_lookup child_of Ends
  lookup_child-Ends cur name s numbered sees = elim (Bool-cases (is_dir cur)) [
    | inr file ↦ rw (lookup_child, inode_lookup, child_of, file) (inr refl)
    | inl dir ↦ elim (Option-cases (dirent_lookup cur.dir.rb_root (bkdr_hash name))) [
      | inl absent ↦ rw (lookup_child, inode_lookup, child_of, dir, absent) (inr refl, refl, sees)
      | inr (d, got) ↦
          rw (lookup_child, inode_lookup, child_of, dir, got)
            (iget-Ends sbi node d.ino s numbered sees)
    ]
  ]

  module _ (nofollow : Bool) where
    -- `lookup` finds what `resolve` says, with `levels` more links in links allowed.
    unfoldable pub Finds : (NameiData → VfsState → Outcome) → ℕ → Type 0
    Finds lookup levels =
        (nd : NameiData) (s : VfsState) (start : VfsInode)
        → nd.nd_parent ≡ false
        → nd.nd_nofollow ≡ nofollow
        → nd.start ≡ some start
        → Sees sbi node s
        → levels + nd.depth ≡ 11
        → let (ret, nd', s') = lookup nd s in
          Ends sbi node s.held s.held (resolve sbi node nofollow levels start (components nd.path))
            (λ inode. nd'.current ≡ some inode) s' ret

    -- The calls inside do.
    unfoldable pub NestedFinds : (NameiData → VfsState → Outcome) → ℕ → Type 0
    NestedFinds lookup zero = Unit {0}
    NestedFinds lookup (suc levels) = Finds lookup levels

    follow_link_nofollow :
        (levels : ℕ) (cur inode : VfsInode)
        → nofollow ≡ true
        → follow_link sbi node nofollow levels cur inode ≡ err eloop
    unfolding follow_link
    follow_link_nofollow zero cur inode set = refl
    follow_link_nofollow (suc levels) cur inode set = rw (follow_link, set) refl

    follow_link_zero :
        (cur inode : VfsInode) → follow_link sbi node nofollow 0 cur inode ≡ err eloop
    unfolding follow_link
    follow_link_zero cur inode = refl

    follow_link-none :
        (levels : ℕ) (cur inode : VfsInode)
        → nofollow ≡ false
        → inode_readlink sbi inode ≡ none
        → follow_link sbi node nofollow (suc levels) cur inode ≡ fault
    unfolding follow_link
    follow_link-none levels cur inode clear lost = rw (follow_link, clear, lost) refl

    follow_link-some :
        (levels : ℕ) (cur inode : VfsInode) {link : List ℕ}
        → nofollow ≡ false
        → inode_readlink sbi inode ≡ some link
        → follow_link sbi node nofollow (suc levels) cur inode
          ≡ resolve sbi node nofollow levels
              (if is_absolute (c_string link) then sbi.root else cur)
              (components (c_string link))
    unfolding follow_link resolve
    follow_link-some levels cur inode clear got = rw (follow_link, clear, got) refl

    link_start-some :
        (path : List ℕ) (nd : NameiData) (cur : VfsInode)
        → nd.current ≡ some cur
        → link_start sbi path nd ≡ some (if is_absolute path then sbi.root else cur)
    link_start-some path nd cur at = elim (Bool-cases (is_absolute path)) [
      | inl absolute ↦ rw absolute refl
      | inr relative ↦ rw relative at
    ]

    -- What becomes of a nested call's end.
    link-Ends :
        (inode : VfsInode) (held : List ℕ) (r : Result VfsInode) (nd nd' : NameiData)
        (s' : VfsState)
        → (ret : Result (Unit {0}))
        → Ends sbi node held held r (λ found. nd'.current ≡ some found) s' ret
        → let (ret2, nd2, s2) = after_link inode nd (ret, nd', s') in
          Ends sbi node held (inode.dir.i_ino ∷ held) r (λ found. nd2.current ≡ some found) s2 ret2
    unfolding after_link Ends inode_lock
    link-Ends inode held r nd nd' s' (ok done) h = h
    link-Ends inode held r nd nd' s' (err e) (why, locks, sees) =
        (why, ap (λ is. inode.dir.i_ino ∷ is) locks, Sees-table sbi node s' _ sees refl)
    link-Ends inode held r nd nd' s' fault h = h

    pub handle_symlink-Ends :
        (lookup : NameiData → VfsState → Outcome) (levels : ℕ)
        → NestedFinds lookup levels
        → (cur inode : VfsInode) (nd : NameiData) (s : VfsState) (held : List ℕ)
        → nd.nd_parent ≡ false
        → nd.nd_nofollow ≡ nofollow
        → nd.current ≡ some cur
        → Sees sbi node s
        → s.held ≡ inode.dir.i_ino ∷ held
        → levels + nd.depth ≡ 11
        → let (ret, nd', s') = handle_symlink sbi lookup inode nd s in
          Ends sbi node held
            (inode.dir.i_ino ∷ held)
            (follow_link sbi node nofollow levels cur inode)
            (λ found. nd'.current ≡ some found)
            s'
            ret
    unfolding handle_symlink NestedFinds Finds Ends inode_unlock
    handle_symlink-Ends lookup levels nested cur inode nd s held no_parent flag at sees locks deep =
        elim (Bool-cases nd.nd_nofollow) [
          | inl set ↦
              rw (handle_symlink, set)
                (inr (follow_link_nofollow levels cur inode (sym flag ∙ set)), locks, sees)
          | inr clear ↦ follows levels nested clear deep
        ]
      where
        follows :
            (l : ℕ)
            → NestedFinds lookup l
            → nd.nd_nofollow ≡ false
            → l + nd.depth ≡ 11
            → let (ret, nd', s') = handle_symlink sbi lookup inode nd s in
              Ends sbi node held
                (inode.dir.i_ino ∷ held)
                (follow_link sbi node nofollow l cur inode)
                (λ found. nd'.current ≡ some found)
                s'
                ret
        follows zero inner clear d =
            let deepest : ltb max_loop nd.depth ≡ true = ground arith in
            rw (handle_symlink, clear, deepest) (inr (follow_link_zero cur inode), locks, sees)
        follows (suc l) inner clear d =
            let shallow : ltb max_loop nd.depth ≡ false = ground arith in
            elim (Bool-cases (sbi.heap_alloc (inode.i_size + 1))) [
              | inr full ↦ rw (handle_symlink, clear, shallow, full) (inl refl, locks, sees)
              | inl memory ↦ elim (Option-cases (inode_readlink sbi inode)) [
                | inl lost ↦
                    rw (handle_symlink, clear, shallow, memory, lost)
                      (inl (follow_link-none l cur inode (sym flag ∙ clear) lost))
                | inr (link, got) ↦
                    rw
                      (
                        handle_symlink,
                        clear,
                        shallow,
                        memory,
                        got,
                        follow_link-some l cur inode (sym flag ∙ clear) got,
                      )
                      (let path = c_string link in
                        let inside = record nd {
                          path = path;
                          depth = nd.depth + 1;
                          start = link_start sbi path nd;
                        } in
                        let unlocked = inode_unlock inode.dir.i_ino s in
                        let free : unlocked.held ≡ held =
                          rw locks (drop_lock-first inode.dir.i_ino held) in
                        let (ret, nd', s') = lookup inside unlocked in
                        let found =
                          inner inside unlocked (if is_absolute path then sbi.root else cur)
                            no_parent flag (link_start-some path nd cur at)
                            (Sees-table sbi node s unlocked sees refl) (omega (arith, d)) in
                        link-Ends inode held _ nd nd' s' ret (rw (← free) found))
              ]
            ]
