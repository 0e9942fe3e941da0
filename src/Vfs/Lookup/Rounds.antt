-- ===== src/Vfs/Lookup/Rounds.antt =====
-- What one round of `path_loop` is, and how `path_lookup` begins.
use slotfs_eurosys.Base.{
  [], ◌∷◌, suc, true, false, none, some, refl, Option, Bool, List, ℕ, if◌then◌else◌, ◌≡◌, length,
  ◌∙◌, ap,
}
use slotfs_eurosys.Vfs.{
  VfsInode, ok, err, fault, Sbi, VfsState, NameiData, Outcome, inode_lock, path_step, path_loop,
  path_lookup, span_name, skip_slashes,
}

if_false : {A : Type 0} {b : Bool} (x y : A) → b ≡ false → (if b then x else y) ≡ y
if_false x y e = ap (λ c. if c then x else y) e

on_some :
    {A B : Type 0} {o : Option A} {a : A} (b : B) (f : A → B)
    → o ≡ some a
    → elim o [ none ↦ b | some x ↦ f x ] ≡ f a
on_some b f e = ap (λ o. elim o [ none ↦ b | some x ↦ f x ]) e

pub path_loop_last :
    (sbi : Sbi) (lookup : NameiData → VfsState → Outcome) (rounds : ℕ) (c : List ℕ) (nd : NameiData)
    (s : VfsState)
    → nd.nd_parent ≡ false
    → skip_slashes (span_name c).1 ≡ []
    → path_loop sbi lookup (suc rounds) c nd s
      ≡ path_step sbi lookup true
          (span_name c).0
          (record nd { last = c; last_len = length (span_name c).0 })
          s
unfolding path_loop
path_loop_last sbi lookup rounds c nd s no_parent e = rw (path_loop, e) (if_false _ _ no_parent)

if_true : {A : Type 0} {b : Bool} (x y : A) → b ≡ true → (if b then x else y) ≡ x
if_true x y e = ap (λ c. if c then x else y) e

pub path_loop_parent :
    (sbi : Sbi) (lookup : NameiData → VfsState → Outcome) (rounds : ℕ) (c : List ℕ) (nd : NameiData)
    (s : VfsState)
    → nd.nd_parent ≡ true
    → skip_slashes (span_name c).1 ≡ []
    → path_loop sbi lookup (suc rounds) c nd s ≡ (
      ok tt,
      record nd {
        last = c;
        last_len = length (span_name c).0;
        parent = nd.current;
        current = none;
      },
      s,
    )
unfolding path_loop
path_loop_parent sbi lookup rounds c nd s parent e = rw (path_loop, e) (if_true _ _ parent)

pub path_loop_more :
    (sbi : Sbi) (lookup : NameiData → VfsState → Outcome) (rounds : ℕ) (c : List ℕ) (nd : NameiData)
    (s : VfsState) {x : ℕ} {next : List ℕ}
    → skip_slashes (span_name c).1 ≡ x ∷ next
    → path_loop sbi lookup (suc rounds) c nd s ≡ (
        let (ret, nd1, s1) = path_step sbi lookup false (span_name c).0 nd s in
        elim ret [
          | ok done ↦ path_loop sbi lookup rounds (x ∷ next) nd1 s1
          | err e ↦ (err e, nd1, s1)
          | fault ↦ (fault, nd1, s1)
        ])
unfolding path_loop
path_loop_more sbi lookup rounds c nd s e = rw (path_loop, e) refl

pub path_lookup_root :
    (sbi : Sbi) (levels : ℕ) (nd : NameiData) (s : VfsState) {start : VfsInode}
    → nd.nd_parent ≡ false
    → nd.start ≡ some start
    → skip_slashes nd.path ≡ []
    → path_lookup sbi (suc levels) nd s
      ≡ (ok tt, record nd { current = nd.start }, inode_lock start.dir.i_ino s)
unfolding path_lookup
path_lookup_root sbi levels nd s no_parent begin e =
    rw (path_lookup, e) (if_false _ _ no_parent ∙ on_some _ _ begin)

pub path_lookup_loop :
    (sbi : Sbi) (levels : ℕ) (nd : NameiData) (s : VfsState) {start : VfsInode} {x : ℕ}
    {next : List ℕ}
    → nd.start ≡ some start
    → skip_slashes nd.path ≡ x ∷ next
    → path_lookup sbi (suc levels) nd s
      ≡ path_loop sbi
          (path_lookup sbi levels)
          (length (x ∷ next))
          (x ∷ next)
          (record nd { current = nd.start })
          (inode_lock start.dir.i_ino s)
unfolding path_lookup
path_lookup_loop sbi levels nd s {start} {x} {next} begin e =
    rw (path_lookup, e) (on_some _ _ begin)

pub path_lookup_parent :
    (sbi : Sbi) (levels : ℕ) (nd : NameiData) (s : VfsState)
    → nd.nd_parent ≡ true
    → skip_slashes nd.path ≡ []
    → path_lookup sbi (suc levels) nd s ≡ (ok tt, record nd { current = nd.start }, s)
unfolding path_lookup
path_lookup_parent sbi levels nd s parent e = rw (path_lookup, e) (if_true _ _ parent)
