-- ===== src/Arena/Tests.antt =====
-- Witnesses: an area of 64 bytes at address 4096 with items of 16 bytes.
use slotfs_eurosys.Base.{[], ◌∷◌, false, refl, ℕ, List, if◌then◌else◌, arith, ◌==◌, ◌≡◌, ◌<◌, ◌⊎◌}
use slotfs_eurosys.Arena.FreeList.{
  arena_alloc-IsFreeList, arena_init-IsFreeList, elem, items, IsFreeList,
}
use slotfs_eurosys.Arena.{arena_alloc, Arena, Memory, arena_init}

abbrev zeros : Memory
zeros a = 0

arena_init-IsFreeList_example :
    let (memory', a) = arena_init 4096 64 16 zeros in
    IsFreeList memory' a.free_list (items 4096 16 4)
arena_init-IsFreeList_example = arena_init-IsFreeList 4096 64 16 zeros (omega arith) (omega arith)

abbrev area : Arena
area = record { mem = 4096; size = 64; item_size = 16; free_list = 4112 }

abbrev two_items : List ℕ
two_items = 4112 ∷ 4096 ∷ []

-- 4112 and then 4096 are free
abbrev linked : Memory
linked a = if a == 4112 then 4096 else 0

linked-IsFreeList : IsFreeList linked 4112 two_items
unfolding IsFreeList elem
linked-IsFreeList = (refl, omega arith, refl, (refl, omega arith, refl, refl))

arena_alloc-IsFreeList_example :
    ((x : ℕ) × (rest : List ℕ) × (two_items ≡ x ∷ rest)
      × ((arena_alloc linked area).0 ≡ x)
      × (0 < x)
      × (elem x rest ≡ false)
      × IsFreeList linked (arena_alloc linked area).1.free_list rest)
    ⊎ ((two_items ≡ []) × (arena_alloc linked area ≡ (0, area)))
arena_alloc-IsFreeList_example = arena_alloc-IsFreeList linked area two_items linked-IsFreeList

out : elem 4128 two_items ≡ false
unfolding elem
out = refl
