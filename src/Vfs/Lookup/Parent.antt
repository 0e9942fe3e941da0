-- ===== src/Vfs/Lookup/Parent.antt =====
-- Lookups with ND_PARENT and symbolic links.
use slotfs_eurosys.Base.{
  ◌∷◌, zero, suc, true, false, none, some, Bool, List, ℕ, not, ◌≡◌, refl, inl, inr, Option, ap,
  ◌&&◌, ◌∙◌, sym, length, ltb, ◌+◌,
}
use slotfs_eurosys.Vfs.{
  inode_unlock, link_start, max_loop, c_string, inode_lock, inode_readlink, after_link,
  handle_symlink, path_lookup, VfsInode, Result, ok, err, fault, Sbi, VfsState, NameiData, Outcome,
  is_dir, is_symlink, lookup_child, path_step, after_child, path_loop, span_name, skip_slashes,
}
use slotfs_eurosys.Vfs.Lookup.Steps.{Result-cases}
use slotfs_eurosys.Vfs.Lookup.Links.{Keeps, Keeps-fields, handle_symlink-Keeps, if_both}
use slotfs_eurosys.Vfs.Lookup.Rounds.{path_loop_more, path_loop_parent}
use slotfs_eurosys.Vfs.Lookup.Walks.{List-cases}

-- What both cases of an option have.
option_both :
    {A B : Type 0} (P : B → Type 0) (o : Option A) (b : B) (f : A → B)
    → P b
    → ((a : A) → P (f a))
    → P (elim o [ none ↦ b | some a ↦ f a ])
option_both P none b f at_none at_some = at_none
option_both P (some a) b f at_none at_some = at_some a

-- What follows on a step's result.
abbrev after_step : Outcome → NameiData → VfsState → Result (Unit {0}) → Outcome
after_step more nd s (ok done) = more
after_step more nd s (err e) = (err e, nd, s)
after_step more nd s fault = (fault, nd, s)

module _ (sbi : Sbi) (lookup : NameiData → VfsState → Outcome) where
  ending-Keeps :
      (nd nd' : NameiData) (s' s2 : VfsState) (ret : Result (Unit {0}))
      → Keeps nd nd'
      → let out : Outcome = elim ret [
        | ok done ↦ (ok tt, nd', s')
        | err e ↦ (err e, nd', s2)
        | fault ↦ (fault, nd', s')
      ] in
        Keeps nd out.1
  ending-Keeps nd nd' s' s2 (ok done) keeps = keeps
  ending-Keeps nd nd' s' s2 (err e) keeps = keeps
  ending-Keeps nd nd' s' s2 fault keeps = keeps

  after_child-Keeps :
      (is_last : Bool) (cur : VfsInode) (nd : NameiData) (child : Result VfsInode) (s : VfsState)
      → Keeps nd (after_child sbi lookup is_last cur nd (child, s)).1
  unfolding after_child Keeps
  after_child-Keeps is_last cur nd fault s = (refl, refl, refl)
  after_child-Keeps is_last cur nd (err e) s = (refl, refl, refl)
  after_child-Keeps is_last cur nd (ok inode) s =
      let P : Outcome → Type 0 = λ out. Keeps nd out.1 in
      if_both P (is_symlink inode)
        (ending-Keeps nd _ _ _ _ (handle_symlink-Keeps sbi lookup inode nd _))
        (if_both P (not is_last && not (is_dir inode)) (refl, refl, refl) (refl, refl, refl))

  path_step-Keeps :
      (is_last : Bool) (name : List ℕ) (nd : NameiData) (s : VfsState)
      → Keeps nd (path_step sbi lookup is_last name nd s).1
  unfolding path_step Keeps
  path_step-Keeps is_last name nd s =
      option_both (λ (out : Outcome). Keeps nd out.1) nd.current (fault, nd, s)
        (λ cur. after_child sbi lookup is_last cur nd (lookup_child sbi cur name s))
        (refl, refl, refl) (λ cur. after_child-Keeps is_last cur nd _ _)

  path_loop_zero :
      (c : List ℕ) (nd : NameiData) (s : VfsState)
      → (path_loop sbi lookup 0 c nd s).0 ≡ ok tt
      → fault ≡ ok tt
  unfolding path_loop
  path_loop_zero c nd s done = done

  path_loop-nd_parent :
      (rounds : ℕ) (c : List ℕ) (nd : NameiData) (s : VfsState)
      → nd.nd_parent ≡ true
      → let (ret, nd', s') = path_loop sbi lookup rounds c nd s in ret ≡ ok tt → nd'.current ≡ none
  path_loop-nd_parent zero c nd s parent done = absurd (cc (path_loop_zero c nd s done))
  path_loop-nd_parent (suc rounds) c nd s parent done =
      elim (List-cases (skip_slashes (span_name c).1)) [
        | inl e ↦
            ap (λ (out : Outcome). out.1.current)
              (path_loop_parent sbi lookup rounds c nd s parent e)
        | inr (x, (next, e)) ↦
            let (ret1, nd1, s1) = path_step sbi lookup false (span_name c).0 nd s in
            let more = path_loop_more sbi lookup rounds c nd s e in
            let (d, same_parent, f) =
              Keeps-fields nd nd1 (path_step-Keeps false (span_name c).0 nd s) in
            elim (Result-cases ret1) [
              | inl (u, r) ↦
                  let step =
                    more
                    ∙ ap (after_step (path_loop sbi lookup rounds (x ∷ next) nd1 s1) nd1 s1) r in
                  ap (λ (out : Outcome). out.1.current) step
                  ∙ path_loop-nd_parent rounds (x ∷ next) nd1 s1 (same_parent ∙ parent)
                      (ap (λ (out : Outcome). out.0) (sym step) ∙ done)
              | inr (inl (e2, r)) ↦
                  let step =
                    more
                    ∙ ap (after_step (path_loop sbi lookup rounds (x ∷ next) nd1 s1) nd1 s1) r in
                  absurd (cc (ap (λ (out : Outcome). out.0) (sym step) ∙ done))
              | inr (inr r) ↦
                  let step =
                    more
                    ∙ ap (after_step (path_loop sbi lookup rounds (x ∷ next) nd1 s1) nd1 s1) r in
                  absurd (cc (ap (λ (out : Outcome). out.0) (sym step) ∙ done))
            ]
      ]

-- A call that, if it succeeds, leaves no current inode.
abbrev LosesCurrent : Outcome → Type 0
LosesCurrent out = out.0 ≡ ok tt → out.1.current ≡ none

path_lookup-nd_parent :
    (sbi : Sbi) (levels : ℕ) (nd : NameiData) (s : VfsState) {x : ℕ} {next : List ℕ}
    → nd.nd_parent ≡ true
    → skip_slashes nd.path ≡ x ∷ next
    → LosesCurrent (path_lookup sbi (suc levels) nd s)
unfolding path_lookup
path_lookup-nd_parent sbi levels nd s {x} {next} parent e =
    rw (path_lookup, e)
      (option_both LosesCurrent nd.start _
        (λ cur.
          path_loop sbi (path_lookup sbi levels) (length (x ∷ next)) (x ∷ next)
            (record nd { current = nd.start }) (inode_lock cur.dir.i_ino s))
        (λ done. absurd cc)
        (λ cur.
          path_loop-nd_parent sbi (path_lookup sbi levels) (length (x ∷ next)) (x ∷ next) _ _
            parent))

after_link-LosesCurrent :
    (inode : VfsInode) (nd : NameiData) (out : Outcome)
    → LosesCurrent out
    → LosesCurrent (after_link inode nd out)
unfolding after_link
after_link-LosesCurrent inode nd (ok tt, found, s) loses done = loses refl
after_link-LosesCurrent inode nd (err e, found, s) loses done = absurd cc
after_link-LosesCurrent inode nd (fault, found, s) loses done = absurd cc

-- If a lookup with ND_PARENT meets a symbolic link whose target is more than slashes, and
-- `handle_symlink` succeeds, then `nd->current` is NULL, with which the lookup goes on.
pub handle_symlink-nd_parent :
    (sbi : Sbi) (levels : ℕ) (inode : VfsInode) (nd : NameiData) (s : VfsState) {x : ℕ}
    {link next : List ℕ}
    → nd.nd_parent ≡ true
    → inode_readlink sbi inode ≡ some link
    → skip_slashes (c_string link) ≡ x ∷ next
    → (handle_symlink sbi (path_lookup sbi (suc levels)) inode nd s).0 ≡ ok tt
    → (handle_symlink sbi (path_lookup sbi (suc levels)) inode nd s).1.current ≡ none
unfolding handle_symlink
handle_symlink-nd_parent sbi levels inode nd s {x} {link} parent got e =
    if_both LosesCurrent nd.nd_nofollow (λ done. absurd cc)
      (if_both LosesCurrent (ltb max_loop nd.depth) (λ done. absurd cc)
        (if_both LosesCurrent (not (sbi.heap_alloc (inode.i_size + 1))) (λ done. absurd cc)
          (rw got (
            after_link-LosesCurrent inode nd _ (
              path_lookup-nd_parent sbi levels
                (record nd {
                  path = c_string link;
                  depth = nd.depth + 1;
                  start = link_start sbi (c_string link) nd;
                })
                (inode_unlock inode.dir.i_ino s) parent e)))))
