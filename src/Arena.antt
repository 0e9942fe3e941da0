-- ===== src/Arena.antt =====
-- slotfs/arena.c and arena.h: items of one size from an area of memory; the free items are a list
-- linked through their first words. Memory is a function from address to word; NULL is 0. `lock` makes
-- `arena_alloc` and `arena_free` one step each. The count `used`, which only a debug build keeps, and
-- `type`, which is only printed, are left out.
pub mod FreeList
mod Tests
use slotfs_eurosys.Base.{
  [], ◌∷◌, zero, suc, true, false, none, some, inl, inr, refl, ℕ, if◌then◌else◌, ◌+◌, ◌/◌, ◌*◌,
  ◌==◌,
}
use slotfs_eurosys.Base.Memory.{store}

pub record Arena : Type 0 where
  pub mem : ℕ
  pub size : ℕ
  pub item_size : ℕ
  pub free_list : ℕ

abbrev pub Memory : Type 0
Memory = ℕ → ℕ

-- `ALIGN(x, 8)`, on numbers that do not come near 2 ^ 64.
unfoldable pub align8 : ℕ → ℕ
align8 x = (x + 7) / 8 * 8

-- An item becomes the first of the free list.
unfoldable pub push : ℕ → Memory × ℕ → Memory × ℕ
push item (memory, free_list) = (store memory item free_list, item)

-- The loop of `arena_init`, with the rounds that are left. The items lie `item_size` bytes apart, not
-- the aligned size that the arena records.
unfoldable pub init_loop : ℕ → ℕ → ℕ → ℕ → Memory × ℕ → Memory × ℕ
init_loop mem item_size zero i state = state
init_loop mem item_size (suc rounds) i state =
    init_loop mem item_size rounds (i + 1) (push (mem + i * item_size) state)

unfoldable pub arena_init : ℕ → ℕ → ℕ → Memory → Memory × Arena
arena_init mem size item_size memory =
    let (memory', free_list) = init_loop mem item_size (size / item_size) 0 (memory, 0) in
    (
      memory',
      record { mem = mem; size = align8 size; item_size = align8 item_size; free_list = free_list },
    )

-- The item, 0 if there is none.
unfoldable pub arena_alloc : Memory → Arena → ℕ × Arena
arena_alloc memory a =
    if a.free_list == 0 then (0, a) else (a.free_list, record a { free_list = memory a.free_list })

unfoldable pub arena_free : ℕ → Memory × Arena → Memory × Arena
arena_free ptr (memory, a) =
    let (memory', free_list) = push ptr (memory, a.free_list) in
    (memory', record a { free_list = free_list })
