-- ===== src/Vfs/Lookup/Found.antt =====
-- The loop of `path_lookup`, and all of it.
use mathlib.Core.Path.{subst}
use slotfs_eurosys.Base.{
  [], ◌∷◌, zero, suc, true, false, none, some, inl, inr, refl, Bool, List, ℕ, ◌≡◌, ◌+◌, ◌≤◌, length,
  ◌==◌, arith, sym, ◌∙◌, ap,
}
use slotfs_eurosys.Vfs.Lookup.Resolve.{known, resolve_name, follow_link, child_of, resolve, walk}
use slotfs_eurosys.Vfs.{
  VfsInode, Result, ok, fault, Sbi, VfsState, NameiData, Outcome, inode_lock, lookup_child,
  path_step, after_child, path_loop, path_lookup, slash, span_name, skip_slashes,
}
use slotfs_eurosys.Vfs.Paths.{
  components, components_empty, components-span_name, components-skip_slashes, skip_slashes-length,
  skip_slashes-head,
}
use slotfs_eurosys.Vfs.Lookup.Steps.{Sees, Ends, IsNumbered, Sees-table}
use slotfs_eurosys.Vfs.Lookup.Links.{Keeps-fields, lookup_child-Ends, Keeps, Finds, NestedFinds}
use slotfs_eurosys.Vfs.Lookup.Components.{StepEnds, after_child-StepEnds}
use slotfs_eurosys.Vfs.Lookup.Walks.{walk-one, continued-Ends, List-cases}
use slotfs_eurosys.Vfs.Lookup.Numbers.{known-IsNumbered}
use slotfs_eurosys.Vfs.Lookup.Rounds.{
  path_loop_last, path_loop_more, path_lookup_root, path_lookup_loop,
}

module _ (sbi : Sbi) (node : ℕ → Result VfsInode) (numbered : IsNumbered sbi node)
    (nofollow : Bool) where
  path_step-StepEnds :
      (lookup : NameiData → VfsState → Outcome) (levels : ℕ)
      → NestedFinds sbi node nofollow lookup levels
      → (is_last : Bool) (cur : VfsInode) (name : List ℕ) (nd : NameiData) (s : VfsState)
        (held : List ℕ)
      → nd.nd_parent ≡ false
      → nd.nd_nofollow ≡ nofollow
      → nd.current ≡ some cur
      → levels + nd.depth ≡ 11
      → s.held ≡ cur.dir.i_ino ∷ held
      → Sees sbi node s
      → StepEnds sbi node nofollow held is_last
          (resolve_name node (follow_link sbi node nofollow levels) cur name)
          nd
          (path_step sbi lookup is_last name nd s)
  unfolding path_step
  path_step-StepEnds lookup levels nested is_last cur name nd s held no_parent flag at deep locks
        sees =
      let (child, s1) = lookup_child sbi cur name s in
      let ends = lookup_child-Ends sbi node cur name s numbered sees in
      let whole =
        after_child-StepEnds sbi node nofollow lookup levels nested is_last cur name nd held
          no_parent flag at deep child s1
          (subst
            (λ l. Ends sbi node l l (child_of node cur name) (λ inode. child ≡ ok inode) s1 child)
            locks ends) in
      subst
        (λ c.
          StepEnds sbi node nofollow held is_last
            (resolve_name node (follow_link sbi node nofollow levels) cur name) nd
            (elim c [
              | none ↦ (fault, nd, s)
              | some cur ↦ after_child sbi lookup is_last cur nd (lookup_child sbi cur name s)
            ]))
        (sym at) whole

  last-Ends :
      (cur : VfsInode) (name : List ℕ) (held : List ℕ) (r : Result VfsInode) (nd : NameiData)
      (out : Outcome)
      → StepEnds sbi node nofollow held true r nd out
      → Ends sbi node held held r (λ found. out.1.current ≡ some found) out.2 out.0
  unfolding StepEnds
  last-Ends cur name held r nd out (inl h, keeps) = h
  last-Ends cur name held r nd out (inr (n, a, b, l, d), keeps) = absurd cc

  kept :
      (is_last : Bool) (held : List ℕ) (r : Result VfsInode) (nd : NameiData) (out : Outcome)
      → StepEnds sbi node nofollow held is_last r nd out
      → Keeps nd out.1
  unfolding StepEnds
  kept is_last held r nd out (how, keeps) = keeps

  path_loop-Ends :
      (lookup : NameiData → VfsState → Outcome) (levels : ℕ)
      → NestedFinds sbi node nofollow lookup levels
      → (rounds c : ℕ) (cs : List ℕ) (nd : NameiData) (s : VfsState) (cur : VfsInode)
        (held : List ℕ)
      → length (c ∷ cs) ≤ rounds
      → (c == slash) ≡ false
      → nd.nd_parent ≡ false
      → nd.nd_nofollow ≡ nofollow
      → nd.current ≡ some cur
      → levels + nd.depth ≡ 11
      → s.held ≡ cur.dir.i_ino ∷ held
      → Sees sbi node s
      → let (ret, nd', s') = path_loop sbi lookup rounds (c ∷ cs) nd s in
        Ends sbi node held held
          (walk node (follow_link sbi node nofollow levels) cur (components (c ∷ cs)))
          (λ found. nd'.current ≡ some found)
          s'
          ret
  path_loop-Ends lookup levels nested zero c cs nd s cur held enough head no_parent flag at deep
        locks sees =
      absurd (omega (arith, enough))
  path_loop-Ends lookup levels nested (suc rounds) c cs nd s cur held enough head no_parent flag at
        deep locks sees =
      let (this, rest) = span_name (c ∷ cs) in
      let (parts, shorter) = components-span_name c cs head in
      let noted = record nd { last = c ∷ cs; last_len = length this } in
      let skipped = components-skip_slashes rest in
      elim (List-cases (skip_slashes rest)) [
        | inl e ↦
            let no_more : components rest ≡ [] = sym skipped ∙ ap components e ∙ components_empty in
            rw
              (
                path_loop_last sbi lookup rounds (c ∷ cs) nd s no_parent e,
                parts,
                no_more,
                walk-one node (follow_link sbi node nofollow levels) cur this,
              )
              (last-Ends cur this held _ noted (path_step sbi lookup true this noted s) (
                path_step-StepEnds lookup levels nested true cur this noted s held no_parent flag at
                  deep locks sees))
        | inr (x, (next, e)) ↦
            let (parts2, shorter2) = components-span_name x next (skip_slashes-head rest e) in
            let names : components rest
                ≡ (span_name (x ∷ next)).0 ∷ components (span_name (x ∷ next)).1 =
              sym skipped ∙ ap components e ∙ parts2 in
            let (ret, nd1, s1) = path_step sbi lookup false this nd s in
            let step =
              path_step-StepEnds lookup levels nested false cur this nd s held no_parent flag at
                deep locks sees in
            let (same_depth, same_parent, same_flag) =
              Keeps-fields nd nd1 (kept false held _ nd (ret, nd1, s1) step) in
            let small : length (x ∷ next) ≤ rounds =
              omega (arith, enough, shorter, skip_slashes-length rest, ap length e) in
            rw (path_loop_more sbi lookup rounds (c ∷ cs) nd s e, parts, names)
              (continued-Ends sbi node nofollow (follow_link sbi node nofollow levels) cur this
                (span_name (x ∷ next)).0 (components (span_name (x ∷ next)).1) held nd nd1 s1
                (path_loop sbi lookup rounds (x ∷ next) nd1 s1) ret step
                (λ inode at1 locks1 sees1. rw (← parts2) (
                  path_loop-Ends lookup levels nested rounds x next nd1 s1 inode held small
                    (skip_slashes-head rest e) (same_parent ∙ no_parent) (same_flag ∙ flag) at1
                    (rw same_depth deep) locks1 sees1)))
      ]

  one_level :
      (levels : ℕ)
      → NestedFinds sbi node nofollow (path_lookup sbi levels) levels
      → Finds sbi node nofollow (path_lookup sbi (suc levels)) levels
  unfolding Finds resolve NestedFinds inode_lock Ends walk
  one_level levels nested nd s start no_parent flag begin sees deep =
      elim (List-cases (skip_slashes nd.path)) [
        | inl e ↦
            let none_left : components nd.path ≡ [] =
              sym (components-skip_slashes nd.path) ∙ ap components e ∙ components_empty in
            rw (path_lookup_root sbi levels nd s no_parent begin e, none_left)
              (start, refl, begin, refl, Sees-table sbi node s _ sees refl)
        | inr (x, (next, e)) ↦
            let all : components nd.path ≡ components (x ∷ next) =
              sym (components-skip_slashes nd.path) ∙ ap components e in
            rw (path_lookup_loop sbi levels nd s begin e, all)
              (path_loop-Ends (path_lookup sbi levels) levels nested (length (x ∷ next)) x next
                (record nd { current = nd.start }) (inode_lock start.dir.i_ino s) start s.held
                (omega arith) (skip_slashes-head nd.path e) no_parent flag begin deep refl
                (Sees-table sbi node s _ sees refl))
      ]

  -- With `levels` such that the depth may grow to 11.
  pub path_lookup-Finds :
      (levels : ℕ) → Finds sbi node nofollow (path_lookup sbi (suc levels)) levels
  unfolding NestedFinds
  path_lookup-Finds zero = one_level zero tt
  path_lookup-Finds (suc levels) = one_level (suc levels) (path_lookup-Finds levels)

-- Let every cached inode be at its number's place in the cache, and let a lookup without
-- ND_PARENT begin at an inode and at depth 0, with calls for 11 levels of links. If it succeeds, it
-- has found the inode that following the components of the path leads to, and holds that inode's lock
-- besides those held before. If it fails, then with the error that following the components ends
-- with, or with -ENOMEM, and holds no other locks than before. It uses a bad pointer only if a link
-- on the way cannot be read or if what is searched is no directory. It changes nothing in what inode
-- a number stands for.
pub path_lookup-resolve :
    (sbi : Sbi) (nd : NameiData) (s : VfsState) (start : VfsInode)
    → ((ino : ℕ) (inode : VfsInode) → s.inode_table ino ≡ some inode → inode.dir.i_ino ≡ ino)
    → nd.nd_parent ≡ false
    → nd.start ≡ some start
    → nd.depth ≡ 0
    → let (ret, nd', s') = path_lookup sbi 12 nd s in
      Ends sbi
        (known sbi s)
        s.held
        s.held
        (resolve sbi (known sbi s) nd.nd_nofollow 11 start (components nd.path))
        (λ found. nd'.current ≡ some found)
        s'
        ret
unfolding Finds Sees
path_lookup-resolve sbi nd s start cached no_parent begin top =
    path_lookup-Finds sbi (known sbi s) (known-IsNumbered sbi s cached) nd.nd_nofollow 11 nd s start
      no_parent refl begin (λ ino. refl) (omega (arith, top))
