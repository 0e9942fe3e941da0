-- ===== src/Queue/Tests.antt =====
-- Witnesses: a queue for three inodes.
use slotfs_eurosys.Base.{[], ◌∷◌, zero, suc, some, refl, List, ℕ, arith, get_elem?, ◌≡◌, ◌+◌}
use slotfs_eurosys.Queue.Fifo.{Represents}
use slotfs_eurosys.Queue.{Queue}

-- inode 7 is to be replayed, inode 5 was popped
abbrev one_left : Queue
one_left = record { front = 1; rear = 2; cells = 5 ∷ 7 ∷ 9 ∷ []; capacity = 3 }

abbrev one_item : List ℕ
one_item = 7 ∷ []

held : (i x : ℕ) → get_elem? one_item i ≡ some x → get_elem? one_left.cells (1 + i) ≡ some x
held zero x e = e
held (suc i) x e = absurd (cc)

one_left-Represents : Represents one_left one_item
one_left-Represents = record { count = refl; room = omega arith; array = refl; elements = held }
