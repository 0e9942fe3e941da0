-- ===== src/Calls/Counts.antt =====
-- The reference counts of the inodes and the descriptors that are open.
use slotfs_eurosys.Base.{
  [], ◌∷◌, zero, suc, true, false, none, some, List, ℕ, if◌then◌else◌, get_elem?, set, length, ◌+◌,
  ◌==◌, ◌&&◌, ◌≡◌, ◌≤◌, arith, refl, inl, inr, Option-cases, ap, ◌≢◌, eq_of_some,
}
use slotfs_eurosys.Runtime.{FHeader}
use slotfs_eurosys.Calls.{CallState}

-- 1 for a header in use whose file is the inode, 0 for any other.
unfoldable pub weight : ℕ → FHeader → ℕ
weight ino fh = elim fh.file [ none ↦ 0 | some i ↦ if fh.valid && (i == ino) then 1 else 0 ]

-- How many descriptors in use have the inode.
unfoldable pub opens : ℕ → List FHeader → ℕ
opens ino [] = 0
opens ino (fh ∷ fhs) = weight ino fh + opens ino fhs

-- Each inode counts the descriptors that have it.
unfoldable pub IsCounted : CallState → Type 0
IsCounted s = (ino : ℕ) → s.refs ino ≡ opens ino s.rt.f_table

pub weight_le : (ino : ℕ) (fh : FHeader) → weight ino fh ≤ 1
unfolding weight
weight_le ino fh = elim (Option-cases fh.file) [
  | inl e ↦ rw (weight, e) (omega arith)
  | inr (i, e) ↦ rw (weight, e) (ground arith)
]

pub opens-length : (ino : ℕ) (fhs : List FHeader) → opens ino fhs ≤ length fhs
unfolding opens
opens-length ino [] = omega arith
opens-length ino (fh ∷ fhs) = omega (arith, weight_le ino fh, opens-length ino fhs)

pub opens-set :
    (ino : ℕ) (fhs : List FHeader) (i : ℕ) (new : FHeader) {old : FHeader}
    → get_elem? fhs i ≡ some old
    → opens ino (set fhs i new) + weight ino old ≡ opens ino fhs + weight ino new
unfolding opens
opens-set ino [] i new got = absurd cc
opens-set ino (fh ∷ fhs) zero new got = let e = ap (weight ino) (eq_of_some got) in omega (arith, e)
opens-set ino (fh ∷ fhs) (suc i) new got = omega (arith, opens-set ino fhs i new got)

pub weight_held :
    (ino : ℕ) (fh : FHeader) → fh.valid ≡ true → fh.file ≡ some ino → weight ino fh ≡ 1
unfolding weight
weight_held ino fh used file = rw (weight, file, used) (ground arith)

pub weight_other : (ino i : ℕ) (fh : FHeader) → fh.file ≡ some i → i ≢ ino → weight ino fh ≡ 0
unfolding weight
weight_other ino i fh file ne = rw (weight, file) (ground (arith, ne))

pub weight-none : (ino : ℕ) (fh : FHeader) → fh.file ≡ none → weight ino fh ≡ 0
unfolding weight
weight-none ino fh file = rw (weight, file) refl

pub weight_closed : (ino : ℕ) (fh : FHeader) → fh.valid ≡ false → weight ino fh ≡ 0
unfolding weight
weight_closed ino fh closed = elim (Option-cases fh.file) [
  | inl e ↦ rw (weight, e) refl
  | inr (i, e) ↦ rw (weight, e, closed) refl
]
