-- ===== src/RangeLock.antt =====
-- slotfs/lock.c and lock.h: the range lock. `global_lock` makes each attempt of `range_lock`, and
-- `range_unlock`, one step; between two attempts other threads run.
pub mod Nodes
pub mod Exclusion
mod Tests
use slotfs_eurosys.Base.{
  ℕ, zero, suc, Bool, true, false, ◌&&◌, ◌||◌, ◌==◌, ltb, if◌then◌else◌, Option, none, some, List,
  [], ◌∷◌, set, onto, inl, inr, refl,
}
use slotfs_eurosys.Base.Int.{ℤ, pos, inc, dec, is_zero}

pub record RlockNode : Type 0 where
  pub start : ℕ
  pub end : ℕ
  pub valid : Bool

-- `rlock` has RLOCK_NUM elements.
pub record RangeLock : Type 0 where
  pub rlock : List RlockNode
  pub lock_count : ℤ

abbrev pub rlock_num : ℕ
rlock_num = 20

abbrev pub node : ℕ → ℕ → RlockNode
node s e = record { start = s; end = e; valid = true }

unfoldable pub is_overlap : ℕ → ℕ → ℕ → ℕ → Bool
is_overlap start1 end1 start2 end2 = ltb start1 end2 && ltb start2 end1

-- `range_lock_init`: the fields `start` and `end` keep what they hold.
unfoldable pub invalidate : List RlockNode → List RlockNode
invalidate [] = []
invalidate (n ∷ ns) = record n { valid = false } ∷ invalidate ns

unfoldable pub range_lock_init : RangeLock → RangeLock
range_lock_init lock = record { rlock = invalidate lock.rlock; lock_count = pos 0 }

-- The first loop: is there a valid node that overlaps?
unfoldable pub any_overlap : ℕ → ℕ → List RlockNode → Bool
any_overlap s e [] = false
any_overlap s e (n ∷ ns) = (n.valid && is_overlap s e n.start n.end) || any_overlap s e ns

-- The second loop: the first node that is not valid is taken; `none` if all are valid.
unfoldable pub claim : ℕ → ℕ → List RlockNode → Option (List RlockNode)
claim s e [] = none
claim s e (n ∷ ns) = if n.valid then onto n (claim s e ns) else some (node s e ∷ ns)

-- One turn of the loop of `range_lock`: `none` goes round again.
unfoldable pub try_lock : ℕ → ℕ → RangeLock → Option RangeLock
try_lock s e lock =
    if is_zero lock.lock_count
    then some (record { rlock = set lock.rlock 0 (node s e); lock_count = inc lock.lock_count })
    else if any_overlap s e lock.rlock
    then none
    else elim (claim s e lock.rlock) [
      | none ↦ none
      | some ns ↦ some (record { rlock = ns; lock_count = inc lock.lock_count })
    ]

-- The loop of `range_unlock`; `none` if no valid node has this range.
unfoldable pub release : ℕ → ℕ → List RlockNode → Option (List RlockNode)
release s e [] = none
release s e (n ∷ ns) =
    if n.valid && (n.start == s) && (n.end == e)
    then some (record n { valid = false } ∷ ns)
    else onto n (release s e ns)

-- `none` is the `assert(0)` at the end.
unfoldable pub range_unlock : ℕ → ℕ → RangeLock → Option RangeLock
range_unlock s e lock = elim (release s e lock.rlock) [
  | none ↦ none
  | some ns ↦ some (record { rlock = ns; lock_count = dec lock.lock_count })
]
