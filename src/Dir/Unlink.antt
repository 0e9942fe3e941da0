-- ===== src/Dir/Unlink.antt =====
-- Cutting an entry out of a directory's chain.
use mathlib.Core.Path.{subst, sym, ap}
use slotfs_eurosys.Base.{
  [], ◌∷◌, zero, suc, true, false, none, some, refl, ap, sym, arith, eq_of_some, ◌+◌, ◌∙◌,
  get_elem?, ◌≡◌, ◌≢◌, List, ℕ,
}
use slotfs_eurosys.Dir.Chain.{Mirrors, has_idx-get, Linked-frame, has_idx, Linked, distinct}
use slotfs_eurosys.Base.Memory.{store, store_other, store_same}
use slotfs_eurosys.Dir.{Dirent, Inode, PmDirent, remove_at, next_index, set_next}

-- Where the list starts, or `to` if it is empty.
unfoldable first_or : List Dirent → ℕ → ℕ
first_or [] to = to
first_or (d ∷ ds) to = d.idx

from-first_or :
    (m : ℕ → PmDirent) (from to : ℕ) (ds : List Dirent)
    → Linked m from ds to
    → from ≡ first_or ds to
unfolding Linked first_or
from-first_or m from to [] e = e
from-first_or m from to (d ∷ ds) (e, m_d, rest) = e

set_next_same : (m : ℕ → PmDirent) (i next : ℕ) → set_next m i next i ≡ record (m i) { next = next }
unfolding set_next
set_next_same m i next = store_same m i (record (m i) { next = next })

set_next_other : (m : ℕ → PmDirent) {i j : ℕ} (next : ℕ) → i ≢ j → set_next m i next j ≡ m j
unfolding set_next
set_next_other m {i} next ne = store_other m (record (m i) { next = next }) ne

-- a write of the `next` of an entry that the list does not have
pub frame_next :
    (m : ℕ → PmDirent) (idx next from to : ℕ) (ds : List Dirent)
    → has_idx idx ds ≡ false
    → Linked m from ds to
    → Linked (set_next m idx next) from ds to
unfolding set_next
frame_next m idx next from to ds out =
    Linked-frame m (store m idx (record (m idx) { next = next })) from to ds (λ j k.
      store_other m (record (m idx) { next = next })
        (λ q. ground (arith, ap (λ x. has_idx x ds) q)))

-- `next_index` on a list
unfoldable pub next_or : List Dirent → ℕ → ℕ → ℕ
next_or [] i to = to
next_or (d ∷ ds) zero to = d.idx
next_or (d ∷ ds) (suc i) to = next_or ds i to

next_or-first : (ds : List Dirent) (to : ℕ) → next_or ds 0 to ≡ first_or ds to
unfolding next_or first_or
next_or-first [] to = refl
next_or-first (d ∷ ds) to = refl

-- The entry behind `prev` is cut out of the chain by the write to the `next` of `prev`.
pub unlink :
    (m : ℕ → PmDirent) (to : ℕ) (ds : List Dirent) (i : ℕ) (prev : Dirent) (from : ℕ)
    → distinct ds ≡ true
    → get_elem? ds i ≡ some prev
    → Linked m from ds to
    → {d : Dirent} → get_elem? ds (suc i) ≡ some d
    → Linked (set_next m prev.idx (next_or ds (suc (suc i)) to)) from (remove_at ds (suc i)) to
unfolding Linked distinct remove_at has_idx next_or
unlink m to [] i prev from h got link {d} next = absurd (cc)
unlink m to (x ∷ []) zero prev from h got (e, mx, rest) {d} next = absurd (cc)
unlink m to (x ∷ y ∷ ds) zero prev from h got (e, mx, (ey, my, tail)) {d} next =
    let nx = next_or ds 0 to in
    let start : (m y.idx).next ≡ nx =
      from-first_or m (m y.idx).next to ds tail ∙ sym (next_or-first ds to) in
    let here = set_next_same m x.idx nx in
    let linked : Linked (set_next m x.idx nx) nx ds to =
      subst (λ f. Linked (set_next m x.idx nx) f ds to) start
        (frame_next m x.idx nx (m y.idx).next to ds (ground arith) tail) in
    subst
      (λ (p : Dirent).
        (from ≡ x.idx)
        × Mirrors (set_next m p.idx nx x.idx) x
        × Linked (set_next m p.idx nx) (set_next m p.idx nx x.idx).next ds to)
      (eq_of_some got)
      (e, rw here (record { ino = mx.ino; ts = mx.ts; hash = mx.hash }), rw here linked)
unlink m to (x ∷ ds) (suc i) prev from h got (e, mx, rest) {d} next =
    let ne : prev.idx ≢ x.idx =
      λ q. ground (arith, has_idx-get ds i got, ap (λ k. has_idx k ds) q) in
    let nx = next_or ds (suc (suc i)) to in
    let here : set_next m prev.idx nx x.idx ≡ m x.idx = set_next_other m nx ne in
    (e, rw here mx, rw here (unlink m to ds i prev (m x.idx).next (ground arith) got rest next))

pub unlink_first :
    (m : ℕ → PmDirent) (from to : ℕ) (ds : List Dirent) {d : Dirent}
    → get_elem? ds 0 ≡ some d
    → Linked m from ds to
    → (from ≡ d.idx) × Linked m (next_or ds 1 to) (remove_at ds 0) to
unfolding Linked remove_at next_or
unlink_first m from to [] got link = absurd (cc)
unlink_first m from to (x ∷ ds) got (e, mx, rest) =
    let start : (m x.idx).next ≡ next_or ds 0 to =
      from-first_or m (m x.idx).next to ds rest ∙ sym (next_or-first ds to) in
    let same = eq_of_some got in (e ∙ ap (λ (y : Dirent). y.idx) same, rw (← start) rest)

-- an entry that is not the first is not at `log_head`
pub head_other :
    (m : ℕ → PmDirent) (from to : ℕ) (ds : List Dirent) (k : ℕ) {d : Dirent}
    → distinct ds ≡ true
    → get_elem? ds (suc k) ≡ some d
    → Linked m from ds to
    → from ≢ d.idx
unfolding Linked distinct
head_other m from to [] k h got link = absurd (cc)
head_other m from to (x ∷ ds) k {d} h got (e, mx, rest) =
    λ q. ground (arith, has_idx-get ds k got, ap (λ j. has_idx j ds) (sym e ∙ q))

pub has_idx-removed :
    (ds : List Dirent) (i : ℕ) {d : Dirent}
    → distinct ds ≡ true
    → get_elem? ds i ≡ some d
    → has_idx d.idx (remove_at ds i) ≡ false
unfolding distinct remove_at has_idx
has_idx-removed [] i h got = absurd (cc)
has_idx-removed (x ∷ ds) zero h got = rw (← (eq_of_some got)) (ground arith)
has_idx-removed (x ∷ ds) (suc i) {d} h got =
    let out = has_idx-removed ds i (ground arith) got in
    ground (arith, out, has_idx-get ds i got, λ (q : x.idx ≡ d.idx). ap (λ j. has_idx j ds) q)

next_or-get :
    (ds : List Dirent) (j to : ℕ)
    → (elim (get_elem? ds j) [ none ↦ to | some n ↦ n.idx ]) ≡ next_or ds j to
unfolding next_or
next_or-get [] j to = refl
next_or-get (d ∷ ds) zero to = refl
next_or-get (d ∷ ds) (suc j) to = next_or-get ds j to

pub next_index-next_or :
    (dir : Inode) (i : ℕ) → next_index dir i ≡ next_or dir.list (i + 1) dir.ghost_slot
unfolding next_index
next_index-next_or dir i = next_or-get dir.list (i + 1) dir.ghost_slot
