-- ===== src/Dir/Chain.antt =====
-- The chain of a directory's entries in persistent memory, and what one write to it does.
use slotfs_eurosys.Base.{
  [], ◌∷◌, zero, suc, true, false, some, refl, List, ℕ, Bool, get_elem?, ◌++◌, ◌≡◌, arith,
  eq_of_some, not, ◌==◌, ◌||◌, ◌&&◌,
}
use slotfs_eurosys.Dir.{bkdr_hash, Dirent, PmDirent, remove_at}

-- Is one of the entries at this slot?
unfoldable pub has_idx : ℕ → List Dirent → Bool
has_idx i [] = false
has_idx i (d ∷ ds) = (d.idx == i) || has_idx i ds

unfoldable pub distinct : List Dirent → Bool
distinct [] = true
distinct (d ∷ ds) = not (has_idx d.idx ds) && distinct ds

-- The entry at the slot of `d` says what `d` says.
pub record Mirrors (pd : PmDirent) (d : Dirent) : Type 0 where
  pub ino : pd.ino ≡ d.ino
  pub ts : pd.ts ≡ d.ts
  pub hash : bkdr_hash pd.name ≡ d.hash

-- From slot `from`, following `next`, come the entries of the list, and then slot `to`.
unfoldable pub Linked : (ℕ → PmDirent) → ℕ → List Dirent → ℕ → Type 0
Linked m from [] to = from ≡ to
Linked m from (d ∷ ds) to = (from ≡ d.idx) × Mirrors (m d.idx) d × Linked m (m d.idx).next ds to

-- writes at slots that no entry has
pub Linked-frame :
    (m n : ℕ → PmDirent) (from to : ℕ) (ds : List Dirent)
    → ((j : ℕ) → has_idx j ds ≡ true → n j ≡ m j)
    → Linked m from ds to
    → Linked n from ds to
unfolding Linked has_idx
Linked-frame m n from to [] same h = h
Linked-frame m n from to (d ∷ ds) same (e, mirrors, rest) =
    let here : n d.idx ≡ m d.idx = same d.idx (ground arith) in
    (
      e,
      rw here mirrors,
      rw here (Linked-frame m n (m d.idx).next to ds (λ j k. same j (rw k (ground arith))) rest),
    )

pub Linked-append :
    (m : ℕ → PmDirent) (from to : ℕ) (ds : List Dirent) (d : Dirent)
    → Linked m from ds d.idx
    → Mirrors (m d.idx) d
    → (m d.idx).next ≡ to
    → Linked m from (ds ++ (d ∷ [])) to
unfolding Linked
Linked-append m from to [] d e mirrors last = (e, mirrors, last)
Linked-append m from to (x ∷ ds) d (e, mx, rest) mirrors last =
    (e, mx, Linked-append m (m x.idx).next to ds d rest mirrors last)

pub has_idx-append :
    (i : ℕ) (ds : List Dirent) (d : Dirent)
    → has_idx i (ds ++ (d ∷ [])) ≡ (has_idx i ds || (d.idx == i))
unfolding has_idx
has_idx-append i [] d = ground arith
has_idx-append i (x ∷ ds) d = ground (arith, has_idx-append i ds d)

pub distinct-append :
    (ds : List Dirent) (d : Dirent)
    → distinct ds ≡ true
    → has_idx d.idx ds ≡ false
    → distinct (ds ++ (d ∷ [])) ≡ true
unfolding distinct has_idx
distinct-append [] d h n = refl
distinct-append (x ∷ ds) d h n = ground (arith, distinct-append ds d, has_idx-append x.idx ds d)

pub has_idx-remove_at :
    (j : ℕ) (ds : List Dirent) (i : ℕ) → has_idx j (remove_at ds i) ≡ true → has_idx j ds ≡ true
unfolding has_idx remove_at
has_idx-remove_at j [] i h = h
has_idx-remove_at j (x ∷ ds) zero h = ground arith
has_idx-remove_at j (x ∷ ds) (suc i) h = ground (arith, has_idx-remove_at j ds i)

pub distinct-remove_at :
    (ds : List Dirent) (i : ℕ) → distinct ds ≡ true → distinct (remove_at ds i) ≡ true
unfolding distinct remove_at
distinct-remove_at [] i h = h
distinct-remove_at (x ∷ ds) zero h = ground arith
distinct-remove_at (x ∷ ds) (suc i) h =
    ground (arith, distinct-remove_at ds i, has_idx-remove_at x.idx ds i)

pub has_idx-get :
    (ds : List Dirent) (i : ℕ) {d : Dirent} → get_elem? ds i ≡ some d → has_idx d.idx ds ≡ true
unfolding has_idx
has_idx-get [] i h = absurd (cc)
has_idx-get (x ∷ ds) zero h = let e : x ≡ _ = eq_of_some h in rw e (ground arith)
has_idx-get (x ∷ ds) (suc i) h = ground (arith, has_idx-get ds i h)
