-- ===== src/Arena/FreeList.antt =====
-- The free list as a list of items.
use mathlib.Core.Path.{subst}
use slotfs_eurosys.Base.{
  [], ◌∷◌, zero, suc, false, inl, inr, refl, ℕ, List, ◌+◌, ◌<◌, Bool, ◌*◌, ◌≡◌, ◌≤◌, arith, ◌/◌,
  ◌==◌, ◌⊎◌, ◌||◌,
}
use slotfs_eurosys.Base.Memory.{store_other, store, store_same}
use slotfs_eurosys.Arena.{
  store, Arena, push, Memory, arena_alloc, arena_free, arena_init, init_loop,
}

unfoldable pub elem : ℕ → List ℕ → Bool
elem x [] = false
elem x (y ∷ ys) = (y == x) || elem x ys

-- From `head` the words of memory lead through these items, none of them NULL or there twice, to NULL.
unfoldable pub IsFreeList : Memory → ℕ → List ℕ → Type 0
IsFreeList memory head [] = head ≡ 0
IsFreeList memory head (x ∷ xs) =
    (head ≡ x) × (0 < x) × (elem x xs ≡ false) × IsFreeList memory (memory x) xs

-- Items that are not the ones written are linked as before.
frame :
    (memory : Memory) (head item word : ℕ) (xs : List ℕ)
    → elem item xs ≡ false
    → IsFreeList memory head xs
    → IsFreeList (store memory item word) head xs
unfolding IsFreeList elem
frame memory head item word [] out h = h
frame memory head item word (x ∷ xs) out (e, pos, apart, rest) =
    let same : store memory item word x ≡ memory x = store_other memory word (λ q. ground arith) in
    (e, pos, apart, rw same (frame memory (memory x) item word xs (ground arith) rest))

-- The items of the area, the last one first.
unfoldable pub items : ℕ → ℕ → ℕ → List ℕ
items mem item_size zero = []
items mem item_size (suc n) = (mem + n * item_size) ∷ items mem item_size n

items_below :
    (mem item_size n x : ℕ)
    → mem + n * item_size ≤ x
    → 0 < item_size
    → elem x (items mem item_size n) ≡ false
unfolding elem items
items_below mem item_size zero x h pos = refl
items_below mem item_size (suc n) x h pos = ground (arith, items_below mem item_size n x)

init_loop-IsFreeList :
    (mem item_size n rounds i : ℕ) (memory : Memory) (head : ℕ)
    → 0 < mem
    → 0 < item_size
    → i + rounds ≡ n
    → IsFreeList memory head (items mem item_size i)
    → let (memory', head') = init_loop mem item_size rounds i (memory, head) in
      IsFreeList memory' head' (items mem item_size n)
unfolding init_loop push IsFreeList items
init_loop-IsFreeList mem item_size n zero i memory head nonnull pos e h =
    subst (λ k. IsFreeList memory head (items mem item_size k)) (omega arith) h
init_loop-IsFreeList mem item_size n (suc rounds) i memory head nonnull pos e h =
    let item = mem + i * item_size in
    let memory' = store memory item head in
    let out = items_below mem item_size i item (omega arith) pos in
    let linked = frame memory head item head (items mem item_size i) out h in
    let grown : IsFreeList memory' item (items mem item_size (suc i)) =
      (refl, omega arith, out, rw store_same linked) in
    let next : suc i ≡ i + 1 = omega arith in
    init_loop-IsFreeList mem item_size n rounds (i + 1) memory' item nonnull pos (omega arith)
      (subst (λ k. IsFreeList memory' item (items mem item_size k)) next grown)

-- For an area that is not at address 0 and items of at least 8 bytes, the free list after
-- `arena_init` has all the items that fit into the area, each once.
pub arena_init-IsFreeList :
    (mem size item_size : ℕ) (memory : Memory)
    → 0 < mem
    → 8 ≤ item_size
    → let (memory', a) = arena_init mem size item_size memory in
      IsFreeList memory' a.free_list (items mem item_size (size / item_size))
unfolding arena_init IsFreeList items
arena_init-IsFreeList mem size item_size memory nonnull pos =
    init_loop-IsFreeList mem item_size (size / item_size) (size / item_size) 0 memory 0 nonnull
      (omega arith) (omega arith) refl

-- `arena_alloc` takes the first free item; it returns NULL, and changes nothing, only if there is none.
pub arena_alloc-IsFreeList :
    (memory : Memory) (a : Arena) (xs : List ℕ)
    → IsFreeList memory a.free_list xs
    → ((x : ℕ) × (rest : List ℕ) × (xs ≡ x ∷ rest)
        × ((arena_alloc memory a).0 ≡ x)
        × (0 < x)
        × (elem x rest ≡ false)
        × IsFreeList memory (arena_alloc memory a).1.free_list rest)
      ⊎ ((xs ≡ []) × (arena_alloc memory a ≡ (0, a)))
unfolding arena_alloc IsFreeList
arena_alloc-IsFreeList memory a [] e = inr (refl, ground arith)
arena_alloc-IsFreeList memory a (x ∷ xs) (e, pos, apart, rest) =
    let test : (a.free_list == 0) ≡ false = ground arith in
    rw (test, arena_alloc) (inl (x, xs, refl, e, pos, apart, rw e rest))

-- `arena_free` puts an item that is neither NULL nor free at the front of the free list, which is
-- otherwise as it was.
pub arena_free-IsFreeList :
    (memory : Memory) (a : Arena) (xs : List ℕ) (ptr : ℕ)
    → IsFreeList memory a.free_list xs
    → 0 < ptr
    → elem ptr xs ≡ false
    → let (memory', a') = arena_free ptr (memory, a) in IsFreeList memory' a'.free_list (ptr ∷ xs)
unfolding arena_free push IsFreeList
arena_free-IsFreeList memory a xs ptr h pos out =
    (refl, pos, out, rw store_same (frame memory a.free_list ptr a.free_list xs out h))
