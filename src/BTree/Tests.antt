-- ===== src/BTree/Tests.antt =====
-- Witnesses and runs of the radix tree.
use slotfs_eurosys.Base.{
  true, some, refl, ℕ, ◌+◌, ◌<◌, ◌≡◌, arith, if◌then◌else◌, leb, ◌==◌, ◌&&◌, ltb, ◌-◌,
}
use slotfs_eurosys.BTree.{
  Node, Place, get_at, call, child_or_new, btree_node_create, max_keys, leftmost, next_place,
  btree_next, place_of, at_place, btree_expand, grow, range_loop, btree_set_range, btree_get_node,
  ltb, leb, btree_set, BTree, btree_create, btree_get, btree_set_range_callback,
}
use slotfs_eurosys.BTree.Range.{contents-btree_set_range_callback, visit}
use slotfs_eurosys.BTree.Grow.{contents-btree_set, contents}
use slotfs_eurosys.BTree.Place.{capacity}

abbrev empty_tree : BTree ℕ
empty_tree = btree_create

empty_tree-height : empty_tree.height ≡ 0
unfolding btree_create
empty_tree-height = refl

small_key : 1000 < capacity 6
unfolding capacity
small_key = omega arith

contents-btree_set_example :
    contents (btree_set empty_tree 1000 (some 7)) 999
    ≡ (if 1000 == 999 then some 7 else contents empty_tree 999)
contents-btree_set_example =
    contents-btree_set empty_tree 1000 (some 7) (omega (arith, empty_tree-height)) small_key 999

-- the callback adds up the pointers that it sees
abbrev add_up : ℕ → ℕ → ℕ → ℕ
add_up old key s = s + old

contents-btree_set_range_callback_example :
    let (ok, tree', s') =
      btree_set_range_callback
        (λ old key s. some (add_up old key s))
        empty_tree
        250
        1000
        (some 7)
        0 in
    (ok ≡ true)
    × ((k : ℕ)
        → contents tree' k ≡ (if leb 250 k && ltb k 1000 then some 7 else contents empty_tree k))
    × (s' ≡ visit add_up (contents empty_tree) (1000 - 250) 250 0)
contents-btree_set_range_callback_example =
    contents-btree_set_range_callback (λ old key s. some (add_up old key s)) add_up
      (λ old key s. refl) empty_tree 250 1000 (some 7) 0 (omega (arith, empty_tree-height))
      (omega arith) small_key

-- keys 250 to 259 cross from one leaf to the next
crossing : btree_get (btree_set_range empty_tree 250 260 (some 7)).1 257 ≡ some 7
unfolding btree_get btree_get_node btree_set_range btree_set_range_callback range_loop grow
    btree_expand at_place place_of btree_next next_place leftmost max_keys btree_create
    btree_node_create child_or_new get_at call Node Place
crossing = refl
