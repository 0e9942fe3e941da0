-- ===== src/Queue.antt =====
-- slotfs/recover.c and recover.h: the queue of inodes to replay. The indices only grow; `lock` makes
-- each operation one step.
pub mod Fifo
mod Tests
use slotfs_eurosys.Base.{
  [], ◌∷◌, zero, suc, true, false, none, some, inl, inr, refl, Option, ℕ, List, if◌then◌else◌, leb,
  get_elem?, ◌-◌, ltb, ◌+◌, length, set,
}

-- `data` (a reserved word) is `cells`, an array of `capacity` elements.
pub record Queue : Type 0 where
  pub front : ℕ
  pub rear : ℕ
  pub cells : List ℕ
  pub capacity : ℕ

-- `cells` is what `malloc` returned: NULL is -ENOMEM.
unfoldable pub queue_init : Option (List ℕ) → ℕ → Option Queue
queue_init none size = none
queue_init (some cells) size = some (record { front = 0; rear = 0; cells = cells; capacity = size })

-- What `queue_push` does: `full` is the assertion that fails, `overrun` the write behind the array.
pub data Push : Type 0 where
  pushed : Queue → Push
  full : Push
  overrun : Push

unfoldable pub queue_push : Queue → ℕ → Push
queue_push q val =
    if leb q.capacity (q.rear - q.front)
    then full
    else if ltb q.rear (length q.cells)
    then pushed (record q { cells = set q.cells q.rear val; rear = q.rear + 1 })
    else overrun

-- `none` is -1: the queue is empty.
unfoldable pub queue_pop : Queue → Option (ℕ × Queue)
queue_pop q = if leb q.rear q.front then none else elim (get_elem? q.cells q.front) [
  | none ↦ none
  | some val ↦ some (val, record q { front = q.front + 1 })
]
