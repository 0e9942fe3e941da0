-- ===== src/RangeLock/Exclusion.antt =====
-- Mutual exclusion: ranges held at the same time never overlap, and a lock is refused only for cause.
use slotfs_eurosys.RangeLock.{
  rlock_num, set, RangeLock, claim, invalidate, range_lock_init, List, ℕ, RlockNode, range_unlock,
  try_lock, pos, any_overlap, node, release,
}
use slotfs_eurosys.Base.{
  [], ◌∷◌, true, false, none, some, inl, inr, refl, ◌+◌, sym, ◌⊎◌, Option-cases, ap, arith, ◌<◌,
  ◌∙◌, length, ◌≡◌,
}
use slotfs_eurosys.RangeLock.Nodes.{
  apart-release, held-release, apart-claim, count_valid-release, release-none, count_valid-claim,
  held-claim, length-release, claim-none, count_valid-zero-any_overlap, length-claim, held, apart,
  count_valid,
}
use slotfs_eurosys.Base.Int.{dec, inc, pos}

pub record IsValid (lock : RangeLock) : Type 0 where
  pub full_array : length lock.rlock ≡ rlock_num
  pub counted : lock.lock_count ≡ pos (count_valid lock.rlock)
  pub exclusive : apart lock.rlock ≡ true

-- `range_lock_init` gives a valid lock that holds nothing.
count_valid-invalidate : (ns : List RlockNode) → count_valid (invalidate ns) ≡ 0
unfolding count_valid invalidate
count_valid-invalidate [] = refl
count_valid-invalidate (n ∷ ns) = omega (arith, count_valid-invalidate ns)

apart-invalidate : (ns : List RlockNode) → apart (invalidate ns) ≡ true
unfolding apart invalidate
apart-invalidate [] = refl
apart-invalidate (n ∷ ns) = apart-invalidate ns

length-invalidate : (ns : List RlockNode) → length (invalidate ns) ≡ length ns
unfolding invalidate
length-invalidate [] = refl
length-invalidate (n ∷ ns) = omega (arith, length-invalidate ns)

pub range_lock_init-IsValid :
    (lock : RangeLock) → length lock.rlock ≡ rlock_num → IsValid (range_lock_init lock)
unfolding range_lock_init
range_lock_init-IsValid lock h = record {
  full_array = length-invalidate lock.rlock ∙ h;
  counted = ap pos (sym (count_valid-invalidate lock.rlock));
  exclusive = apart-invalidate lock.rlock;
}

-- the fast path: nothing is held, and the first node is taken
first_node :
    (s e : ℕ) (ns : List RlockNode)
    → 0 < length ns
    → count_valid ns ≡ 0
    → claim s e ns ≡ some (set ns 0 (node s e))
unfolding claim count_valid
first_node s e [] h z = absurd (omega arith)
first_node s e (n ∷ ns) h z = ground arith

module _ {lock : RangeLock} (valid : IsValid lock) (s e : ℕ) where
  -- On a valid lock the fast path agrees with the general one.
  try_lock-claim :
      {lock' : RangeLock}
      → try_lock s e lock ≡ some lock'
      → (any_overlap s e lock.rlock ≡ false)
        × (claim s e lock.rlock ≡ some lock'.rlock)
        × (lock'.lock_count ≡ inc lock.lock_count)
  unfolding try_lock
  try_lock-claim h = ground (
    arith,
    first_node s e lock.rlock,
    count_valid-zero-any_overlap s e lock.rlock,
    valid.counted,
    valid.full_array,
  )

  -- `range_lock` keeps the lock valid.
  pub try_lock-IsValid : {lock' : RangeLock} → try_lock s e lock ≡ some lock' → IsValid lock'
  try_lock-IsValid {lock'} h =
      let (free, got, counter) = try_lock-claim h in
      record {
        full_array = length-claim s e lock.rlock got ∙ valid.full_array;
        counted =
            rw (counter, valid.counted)
              (ap pos (omega (arith, count_valid-claim s e lock.rlock got)));
        exclusive = apart-claim s e lock.rlock got free valid.exclusive;
      }

  -- On a valid lock, a range is refused only if it overlaps one that is held, or every node is in
  -- use.
  pub try_lock-none :
      try_lock s e lock ≡ none
      → (any_overlap s e lock.rlock ≡ true) ⊎ (count_valid lock.rlock ≡ rlock_num)
  unfolding try_lock
  try_lock-none h = elim (Option-cases (claim s e lock.rlock)) [
    | inl full ↦ ground (arith, claim-none s e lock.rlock full, valid.full_array)
    | inr (ns, got) ↦ ground arith
  ]

  -- `range_unlock` keeps the lock valid.
  pub range_unlock-IsValid :
      {lock' : RangeLock} → range_unlock s e lock ≡ some lock' → IsValid lock'
  unfolding range_unlock
  range_unlock-IsValid {lock'} h = elim (Option-cases (release s e lock.rlock)) [
    | inl e0 ↦ ground arith
    | inr (ns, e0) ↦
        let same : record { rlock = ns; lock_count = dec lock.lock_count } ≡ lock' = ground arith in
        rw (← same) (record {
          full_array = length-release s e lock.rlock e0 ∙ valid.full_array;
          counted = rw (valid.counted, ← (count_valid-release s e lock.rlock e0)) (ground arith);
          exclusive = apart-release s e lock.rlock e0 valid.exclusive;
        })
  ]

  -- On a valid lock, unlocking a range that was just locked succeeds, and leaves every range held
  -- as often as before.
  pub range_unlock-try_lock :
      {lock' : RangeLock}
      → try_lock s e lock ≡ some lock'
      → (lock'' : RangeLock) × (range_unlock s e lock' ≡ some lock'')
        × ((t u : ℕ) → held t u lock''.rlock ≡ held t u lock.rlock)
  unfolding range_unlock
  range_unlock-try_lock {lock'} h =
      let (free, got, counter) = try_lock-claim h in
      elim (Option-cases (release s e lock'.rlock)) [
        | inl out ↦ absurd (omega (arith, release-none s e lock'.rlock out, new got))
        | inr (ns, e0) ↦ (
          record { rlock = ns; lock_count = dec lock'.lock_count },
          rw (e0, range_unlock),
          λ t u.
              omega (arith, held-release s e t u lock'.rlock e0, held-claim s e t u lock.rlock got),
        )
      ]
    where
      new :
          {ms : List RlockNode}
          → claim s e lock.rlock ≡ some ms
          → held s e ms ≡ held s e lock.rlock + 1
      new got = ground (arith, held-claim s e s e lock.rlock got)

-- The lock of a running system: threads lock and unlock in any order.
pub data Step : RangeLock → RangeLock → Type 0 where
  locks : {lock lock' : RangeLock} (s e : ℕ) → try_lock s e lock ≡ some lock' → Step lock lock'
  unlocks :
      {lock lock' : RangeLock} (s e : ℕ) → range_unlock s e lock ≡ some lock' → Step lock lock'

pub data Reach (from : RangeLock) : RangeLock → Type 0 where
  here : Reach from from
  next : {lock lock' : RangeLock} → Reach from lock → Step lock lock' → Reach from lock'

Step-IsValid : {lock lock' : RangeLock} → Step lock lock' → IsValid lock → IsValid lock'
Step-IsValid (locks s e h) v = try_lock-IsValid v s e h
Step-IsValid (unlocks s e h) v = range_unlock-IsValid v s e h

-- In every state that a system reaches from an initialised lock of RLOCK_NUM nodes, no two held
-- ranges overlap, and `lock_count` is the number of ranges held.
pub Reach-IsValid :
    (lock : RangeLock)
    → length lock.rlock ≡ rlock_num
    → {lock' : RangeLock} → Reach (range_lock_init lock) lock'
    → IsValid lock'
Reach-IsValid lock h here = range_lock_init-IsValid lock h
Reach-IsValid lock h (next r st) = Step-IsValid st (Reach-IsValid lock h r)
