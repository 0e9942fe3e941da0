-- ===== src/Vfs/Lookup/Walks.antt =====
-- The lookup of a whole path.
use slotfs_eurosys.Base.{[], ◌∷◌, false, some, Bool, List, ℕ, ◌≡◌, refl, ◌⊎◌, inl, inr, ◌∙◌, ap}
use slotfs_eurosys.Vfs.{
  VfsInode, Result, ok, err, fault, enotdir, LookupError, Sbi, VfsState, NameiData, Outcome, is_dir,
}
use slotfs_eurosys.Vfs.Lookup.Resolve.{resolve_name, child_of, walk}
use slotfs_eurosys.Vfs.Lookup.Steps.{Sees, Ends, Result-cases}
use slotfs_eurosys.Vfs.Lookup.Components.{StepEnds}

pub List-cases :
    {A : Type 0} (xs : List A) → (xs ≡ []) ⊎ ((x : A) × ((ys : List A) × (xs ≡ x ∷ ys)))
List-cases [] = inl refl
List-cases (x ∷ xs) = inr (x, (xs, refl))

module _ (node : ℕ → Result VfsInode) where
  walk-ok :
      (follow : VfsInode → VfsInode → Result VfsInode) (cur inode : VfsInode) (name : List ℕ)
      (names : List (List ℕ))
      → resolve_name node follow cur name ≡ ok inode
      → walk node follow cur (name ∷ names) ≡ walk node follow inode names
  unfolding walk
  walk-ok follow cur inode name names r = rw (walk, r) refl

  walk-err :
      (follow : VfsInode → VfsInode → Result VfsInode) (cur : VfsInode) (name : List ℕ)
      (names : List (List ℕ)) {e : LookupError}
      → resolve_name node follow cur name ≡ err e
      → walk node follow cur (name ∷ names) ≡ err e
  unfolding walk
  walk-err follow cur name names r = rw (walk, r) refl

  walk-fault :
      (follow : VfsInode → VfsInode → Result VfsInode) (cur : VfsInode) (name : List ℕ)
      (names : List (List ℕ))
      → resolve_name node follow cur name ≡ fault
      → walk node follow cur (name ∷ names) ≡ fault
  unfolding walk
  walk-fault follow cur name names r = rw (walk, r) refl

  pub walk-one :
      (follow : VfsInode → VfsInode → Result VfsInode) (cur : VfsInode) (name : List ℕ)
      → walk node follow cur (name ∷ []) ≡ resolve_name node follow cur name
  unfolding walk
  walk-one follow cur name = elim (Result-cases (resolve_name node follow cur name)) [
    | inl (inode, e) ↦ rw (walk, e) refl
    | inr (inl (x, e)) ↦ rw (walk, e) refl
    | inr (inr e) ↦ rw (walk, e) refl
  ]

  walk-file :
      (follow : VfsInode → VfsInode → Result VfsInode) (cur : VfsInode) (name : List ℕ)
      (names : List (List ℕ))
      → is_dir cur ≡ false
      → walk node follow cur (name ∷ names) ≡ err enotdir
  unfolding resolve_name child_of
  walk-file follow cur name names file =
      walk-err follow cur name names (rw (resolve_name, child_of, file) refl)

module _ (sbi : Sbi) (node : ℕ → Result VfsInode) (nofollow : Bool) where
  -- After the step for `name`, the others follow.
  pub continued-Ends :
      (follow : VfsInode → VfsInode → Result VfsInode) (cur : VfsInode) (name next : List ℕ)
      (names : List (List ℕ)) (held : List ℕ) (nd nd1 : NameiData) (s1 : VfsState) (cont : Outcome)
      (ret : Result (Unit {0}))
      → StepEnds sbi node nofollow held false (resolve_name node follow cur name) nd (ret, nd1, s1)
      → ((inode : VfsInode)
          → nd1.current ≡ some inode
          → s1.held ≡ inode.dir.i_ino ∷ held
          → Sees sbi node s1
          → Ends sbi node held held
              (walk node follow inode (next ∷ names))
              (λ found. cont.1.current ≡ some found)
              cont.2
              cont.0)
      → let (ret2, nd2, s2) : Outcome = elim ret [
        | ok done ↦ cont
        | err e ↦ (err e, nd1, s1)
        | fault ↦ (fault, nd1, s1)
      ] in
        Ends sbi node held held
          (walk node follow cur (name ∷ next ∷ names))
          (λ found. nd2.current ≡ some found)
          s2
          ret2
  unfolding StepEnds Ends
  continued-Ends follow cur name next names held nd nd1 s1 cont (ok done)
        (inl (inode, r, at, locks, sees), keeps) more =
      rw (walk-ok node follow cur inode name (next ∷ names) r) (more inode at locks sees)
  continued-Ends follow cur name next names held nd nd1 s1 cont (err e)
        (inl (why, locks, sees), keeps) more =
      (
        elim why [ inl m ↦ inl m | inr r ↦ inr (walk-err node follow cur name (next ∷ names) r) ],
        locks,
        sees,
      )
  continued-Ends follow cur name next names held nd nd1 s1 cont fault (inl why, keeps) more =
      elim why [
        | inl r ↦ inl (walk-fault node follow cur name (next ∷ names) r)
        | inr r ↦ inr (walk-err node follow cur name (next ∷ names) r)
      ]
  continued-Ends follow cur name next names held nd nd1 s1 cont (ok done)
        (inr (middle, r, l, t, w), keeps) more =
      absurd cc
  continued-Ends follow cur name next names held nd nd1 s1 cont fault
        (inr (middle, r, l, t, w), keeps) more =
      absurd cc
  continued-Ends follow cur name next names held nd nd1 s1 cont (err e)
        (inr (middle, e_is, locks, sees, (inode, r, file)), keeps) more =
      (
        inr (
            walk-ok node follow cur inode name (next ∷ names) r
            ∙ walk-file node follow inode next names file
            ∙ (let q : enotdir ≡ e = cc in ap err q)),
        locks,
        sees,
      )
