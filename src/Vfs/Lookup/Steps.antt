-- ===== src/Vfs/Lookup/Steps.antt =====
-- One step of a lookup.
use slotfs_eurosys.Base.{
  ◌∷◌, none, some, List, ℕ, ◌≡◌, refl, ◌⊎◌, inl, inr, arith, Option-cases, sym, Bool-cases, ◌∙◌,
  ◌==◌, ◌≢◌,
}
use slotfs_eurosys.Base.Memory.{store_other, store_same, store}
use slotfs_eurosys.Vfs.{
  store, enotdir, enomem, fault, err, ok, VfsInode, Result, LookupError, Sbi, VfsState,
  inode_rebuild, iget, drop_lock, inode_lock, inode_unlock,
}
use slotfs_eurosys.Vfs.Lookup.Resolve.{known}

pub Result-cases :
    {A : Type 0} (r : Result A)
    → ((a : A) × (r ≡ ok a)) ⊎ (((e : LookupError) × (r ≡ err e)) ⊎ (r ≡ fault))
Result-cases (ok a) = inl (a, refl)
Result-cases (err e) = inr (inl (e, refl))
Result-cases fault = inr (inr refl)

pub drop_lock-first : (i : ℕ) (is : List ℕ) → drop_lock i (i ∷ is) ≡ is
unfolding drop_lock
drop_lock-first i is = ground arith

-- The lock below the last one.
pub drop_lock-second : (i j : ℕ) (is : List ℕ) → drop_lock i (j ∷ i ∷ is) ≡ j ∷ is
unfolding drop_lock
drop_lock-second i j is = ground arith

module _ (sbi : Sbi) (node : ℕ → Result VfsInode) where
  -- The cache and persistent memory say what `node` says.
  unfoldable pub Sees : VfsState → Type 0
  Sees s = (ino : ℕ) → known sbi s ino ≡ node ino

  -- Each inode has its number.
  unfoldable pub IsNumbered : Type 0
  IsNumbered = (ino : ℕ) (inode : VfsInode) → node ino ≡ ok inode → inode.dir.i_ino ≡ ino

  -- How a call that looks for `r` may end: with the inode's lock held and those of `held`; with an
  -- error, of `r` or for want of memory, and the locks of `failed`; or in a fault.
  unfoldable pub Ends :
      (held failed : List ℕ)
      → Result VfsInode
      → (VfsInode → Type 0)
      → VfsState
      → {A : Type 0} → Result A
      → Type 0
  Ends held failed r Found s (ok a) =
      (inode : VfsInode) × (r ≡ ok inode) × Found inode × (s.held ≡ inode.dir.i_ino ∷ held) × Sees s
  Ends held failed r Found s (err e) = ((e ≡ enomem) ⊎ (r ≡ err e)) × (s.held ≡ failed) × Sees s
  Ends held failed r Found s fault = (r ≡ fault) ⊎ (r ≡ err enotdir)

  from_cache :
      (s : VfsState) {ino : ℕ} {inode : VfsInode}
      → Sees s
      → s.inode_table ino ≡ some inode
      → node ino ≡ ok inode
  unfolding Sees known
  from_cache s {ino} {inode} sees got = sym (sees ino) ∙ (rw (known, got) refl)

  rebuilt :
      (s : VfsState) {ino : ℕ}
      → Sees s
      → s.inode_table ino ≡ none
      → node ino ≡ inode_rebuild sbi ino
  unfolding Sees known
  rebuilt s {ino} sees got = sym (sees ino) ∙ (rw (known, got) refl)

  -- Only the table matters.
  pub Sees-table : (s t : VfsState) → Sees s → t.inode_table ≡ s.inode_table → Sees t
  unfolding Sees known
  Sees-table s t sees same ino = rw (known, same) (sees ino)

  -- The cache with the rebuilt inode.
  Sees-store :
      (s : VfsState) {ino : ℕ} {inode : VfsInode}
      → Sees s
      → node ino ≡ ok inode
      → (t : VfsState) → t.inode_table ≡ store s.inode_table ino (some inode)
      → Sees t
  unfolding Sees known
  Sees-store s {ino} {inode} sees is t table k = elim (Bool-cases (k == ino)) [
    | inl e ↦
        (let q : k ≡ ino = ground arith in
          rw (q, known, table, store_same s.inode_table ino (some inode)) (sym is))
    | inr e ↦
        (let ne : ino ≢ k = ground arith in
          rw (known, table, store_other s.inode_table (some inode) ne) (sees k))
  ]

  pub iget-Ends :
      (ino : ℕ) (s : VfsState)
      → IsNumbered
      → Sees s
      → let (r, s') = iget sbi ino s in Ends s.held s.held (node ino) (λ inode. r ≡ ok inode) s' r
  unfolding iget Ends Sees IsNumbered inode_lock inode_unlock
  iget-Ends ino s numbered sees = elim (Option-cases (s.inode_table ino)) [
    | inr (inode, got) ↦
        let is = from_cache s sees got in
        rw (iget, got) (inode, is, refl, rw (numbered ino inode is) refl, Sees-table s _ sees refl)
    | inl absent ↦ elim (Bool-cases (s.inode_arena == 0)) [
      | inl full ↦
          rw (iget, absent, full) (inl refl, drop_lock-first ino s.held, Sees-table s _ sees refl)
      | inr free ↦ elim (Result-cases (inode_rebuild sbi ino)) [
        | inl (inode, e) ↦
            let is = rebuilt s sees absent ∙ e in
            rw (iget, absent, free, e)
              (inode, is, refl, rw (numbered ino inode is) refl, Sees-store s sees is _ refl)
        | inr (inl (x, e)) ↦
            rw (iget, absent, free, e)
              (
                inr (rebuilt s sees absent ∙ e),
                drop_lock-first ino s.held,
                Sees-table s _ sees refl,
              )
        | inr (inr e) ↦ rw (iget, absent, free, e) (inl (rebuilt s sees absent ∙ e))
      ]
    ]
  ]
