-- ===== src/Runtime/Tests.antt =====
-- Witnesses of the descriptor table's properties.
use slotfs_eurosys.Base.{[], ◌∷◌, zero, suc, false, none, some, refl, ℕ, List, length, ◌≡◌, arith}
use slotfs_eurosys.Runtime.{open_fd, fd_max, fd_scan, FHeader, RuntimeState, fd_alloc}

abbrev closed : FHeader
closed = record { fd = 0; file = none; offset = 0; flags = 0; valid = false; temp_dirent = none }

abbrev table : ℕ → List FHeader
table zero = []
table (suc n) = closed ∷ table n

length-table : (n : ℕ) → length (table n) ≡ n
length-table zero = refl
length-table (suc n) = omega (arith, length-table n)

abbrev empty_table : RuntimeState
empty_table = record { f_table = table fd_max; fd_hint = 3 }

first_fd : fd_alloc empty_table ≡ (some 3, open_fd 3 empty_table)
unfolding fd_alloc fd_scan
first_fd = refl
