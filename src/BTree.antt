-- ===== src/BTree.antt =====
-- slotfs/btree.c and btree.h: the radix tree that maps the blocks of a file to its entries. A node of
-- height 0 has the pointers, a higher one has children; NULL is `none`. The height of a node is in
-- its type, and a place in the tree, a node and an index in it, is the branches that lead there from
-- the root. Nodes are always given out, so no operation returns -ENOMEM.
pub mod Place
pub mod Grow
pub mod Range
mod Tests
use slotfs_eurosys.Base.{
  [], ◌∷◌, zero, suc, true, false, none, some, inl, inr, refl, Option, ℕ, Bool, if◌then◌else◌, ◌*◌,
  ◌/◌, leb, ltb, ◌%◌, ◌+◌, ◌-◌, ◌^◌,
}
use slotfs_eurosys.Base.Memory.{store}

abbrev pub branch_num : ℕ
branch_num = 256

abbrev pub max_levels : ℕ
max_levels = 10

-- `max_keys[h]` after `init_max_keys`: a product of `size_t`.
unfoldable pub max_keys : ℕ → ℕ
max_keys zero = branch_num
max_keys (suc h) = max_keys h * branch_num % 2 ^ 64

module _ {ℓ} (A : Type ℓ) where
  -- `children` of a node
  unfoldable pub Node : ℕ → Type ℓ
  Node zero = ℕ → Option A
  Node (suc h) = ℕ → Option (Node h)

  pub record BTree : Type ℓ where
    pub height : ℕ
    pub root : Node height

  -- `btree_node_create`: `memset` to 0.
  unfoldable pub btree_node_create : (h : ℕ) → Node h
  unfolding Node
  btree_node_create zero = λ i. none
  btree_node_create (suc h) = λ i. none

  -- The child on a branch, made if it is missing.
  unfoldable pub child_or_new : (h : ℕ) → Option (Node h) → Node h
  child_or_new h none = btree_node_create h
  child_or_new h (some child) = child

unfoldable pub Place : ℕ → Type 0
Place zero = ℕ
Place (suc h) = ℕ × Place h

-- What a pointer leads to; nothing if it is NULL.
abbrev pub follow {ℓ ℓ'} : {X : Type ℓ} {A : Type ℓ'} → Option X → (X → Option A) → Option A
follow none f = none
follow (some x) f = f x

module _ {ℓ} {A : Type ℓ} where
  unfoldable pub btree_create : BTree A
  btree_create = record { height = 0; root = btree_node_create A 0 }

  -- The way down of `btree_pos` and `btree_next` with `create`, and what is done with the pointer at
  -- the end.
  unfoldable pub at_place : (Option A → Option A) → (h : ℕ) → Node A h → Place h → Node A h
  unfolding Node Place
  at_place f zero node i = store node i (f (node i))
  at_place f (suc h) node (branch, p) =
      store node branch (some (at_place f h (child_or_new A h (node branch)) p))

  -- `pos.node->children[pos.index]`
  unfoldable pub get_at : (h : ℕ) → Node A h → Place h → Option A
  unfolding Node Place
  get_at zero node i = node i
  get_at (suc h) node (branch, p) = follow (node branch) (λ child. get_at h child p)

  unfoldable pub btree_get_node : (h : ℕ) → Node A h → ℕ → Option A
  unfolding Node
  btree_get_node zero node key = node key
  btree_get_node (suc h) node key =
      follow (node (key / max_keys h)) (λ child. btree_get_node h child (key % max_keys h))

  unfoldable pub btree_get : BTree A → ℕ → Option A
  btree_get tree key = btree_get_node tree.height tree.root key

  unfoldable pub btree_expand : BTree A → BTree A
  unfolding Node
  btree_expand tree = record {
    height = suc tree.height;
    root = store (btree_node_create A (suc tree.height)) 0 (some tree.root);
  }

  -- `while (key >= max_keys[tree->height])`, for `rounds` rounds.
  unfoldable pub grow : ℕ → ℕ → BTree A → BTree A
  grow zero key tree = tree
  grow (suc rounds) key tree =
      let rest = grow rounds key (btree_expand tree) in
      if leb (max_keys tree.height) key then rest else tree

-- The place of `btree_pos`.
unfoldable pub place_of : (h : ℕ) → ℕ → Place h
unfolding Place
place_of zero key = key
place_of (suc h) key = (key / max_keys h, place_of h (key % max_keys h))

-- The leftmost place.
unfoldable pub leftmost : (h : ℕ) → Place h
unfolding Place
leftmost zero = 0
leftmost (suc h) = (0, leftmost h)

-- The way up and down of `btree_next`: the last branch that can go on does, and from there it is the
-- leftmost place; `none` if no branch can.
unfoldable pub next_place : (h : ℕ) → Place h → Option (Place h)
unfolding Place
next_place zero i = if ltb (i + 1) branch_num then some (i + 1) else none
next_place (suc h) (branch, p) = elim (next_place h p) [
  | some q ↦ some (branch, q)
  | none ↦ if ltb (branch + 1) branch_num then some (branch + 1, leftmost h) else none
]

-- `btree_next`. In a tree of one node, after the last index comes index 0: `parent_index` is the
-- root's `branch_index`, 0, and the test for the end fails.
unfoldable pub btree_next : (h : ℕ) → Place h → Option (Place h)
unfolding Place
btree_next zero i = if ltb (i + 1) branch_num then some (i + 1) else some 0
btree_next (suc h) p = next_place (suc h) p

module _ {ℓ} {A : Type ℓ} where
  unfoldable pub btree_set : BTree A → ℕ → Option A → BTree A
  btree_set tree key ptr =
      let t = grow max_levels key tree in
      record t { root = at_place (λ old. ptr) t.height t.root (place_of t.height key) }

  module _ {ℓs} {S : Type ℓs} (callback : A → ℕ → S → Option S) where
    -- The callback on an old pointer that is not NULL; `none` if it returns an error.
    unfoldable pub call : Option A → ℕ → S → Option S
    call none key s = some s
    call (some old) key s = callback old key s

    -- The do-while loop at `key`, with the rounds left after this one; the result is `false` for -1.
    -- `btree_next` makes the nodes of the place that it moves to. With rounds left and no next place
    -- the code would follow NULL; the result is `false` then too.
    unfoldable pub range_loop :
        (h : ℕ) → Option A → ℕ → ℕ → Place h → Node A h → S → Bool × Node A h × S
    range_loop h ptr zero key p node s = elim (call (get_at h node p) key s) [
      | none ↦ (false, node, s)
      | some s' ↦
          let written = at_place (λ old. ptr) h node p in
          elim (btree_next h p) [
            | none ↦ (true, written, s')
            | some q ↦ (true, at_place (λ old. old) h written q, s')
          ]
    ]
    range_loop h ptr (suc rounds) key p node s = elim (call (get_at h node p) key s) [
      | none ↦ (false, node, s)
      | some s' ↦
          let written = at_place (λ old. ptr) h node p in
          elim (btree_next h p) [
            | none ↦ (false, written, s')
            | some q ↦ range_loop h ptr rounds (key + 1) q (at_place (λ old. old) h written q) s'
          ]
    ]

    unfoldable pub btree_set_range_callback : BTree A → ℕ → ℕ → Option A → S → Bool × BTree A × S
    btree_set_range_callback tree start end ptr s =
        if leb end start
        then (false, tree, s)
        else (let t = grow max_levels end tree in
            let p = place_of t.height start in
            let root = at_place (λ old. old) t.height t.root p in
            let (ok, node, s') = range_loop t.height ptr (end - start - 1) start p root s in
            (ok, record t { root = node }, s'))

  -- `btree_set_range`: no callback.
  unfoldable pub btree_set_range : BTree A → ℕ → ℕ → Option A → Bool × BTree A
  btree_set_range tree start end ptr =
      let (ok, t, s) =
        btree_set_range_callback {S = ℕ} (λ old key s. some s) tree start end ptr zero in
      (ok, t)
