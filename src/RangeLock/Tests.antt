-- ===== src/RangeLock/Tests.antt =====
-- Witnesses and runs of the range lock.
use slotfs_eurosys.Base.{[], ◌∷◌, zero, suc, true, none, some, refl, ℕ, List, set, ◌≡◌, ◌+◌}
use slotfs_eurosys.RangeLock.Exclusion.{
  locks, here, next, range_unlock-try_lock, Reach-IsValid, range_lock_init-IsValid, IsValid,
}
use slotfs_eurosys.RangeLock.{
  node, RlockNode, invalidate, pos, is_overlap, range_lock_init, range_unlock, RangeLock,
  any_overlap, try_lock,
}
use slotfs_eurosys.RangeLock.Nodes.{held}
use slotfs_eurosys.Base.Int.{pos}

-- the nodes as allocated, holding anything
abbrev nodes : ℕ → List RlockNode
nodes zero = []
nodes (suc n) = record { start = n; end = n + 9; valid = true } ∷ nodes n

abbrev fresh_lock : RangeLock
fresh_lock = range_lock_init (record { rlock = nodes 20; lock_count = pos 7 })

abbrev locked : RangeLock
locked = record { rlock = set (invalidate (nodes 20)) 0 (node 3 5); lock_count = pos 1 }

fresh_lock-IsValid : IsValid fresh_lock
fresh_lock-IsValid = range_lock_init-IsValid (record { rlock = nodes 20; lock_count = pos 7 }) refl

try_fresh : try_lock 3 5 fresh_lock ≡ some locked
unfolding try_lock range_lock_init
try_fresh = refl

try_second : try_lock 4 9 locked ≡ none
unfolding try_lock any_overlap is_overlap invalidate
try_second = refl

Reach-IsValid_example : IsValid locked
Reach-IsValid_example =
    Reach-IsValid (record { rlock = nodes 20; lock_count = pos 7 }) refl
      (next here (locks 3 5 try_fresh))

range_unlock-try_lock_example :
    (lock'' : RangeLock) × (range_unlock 3 5 locked ≡ some lock'')
    × ((t u : ℕ) → held t u lock''.rlock ≡ held t u fresh_lock.rlock)
range_unlock-try_lock_example = range_unlock-try_lock fresh_lock-IsValid 3 5 try_fresh
