-- ===== src/BTree/Grow.antt =====
-- What the tree holds: `btree_get` after a write at one place, and after `btree_expand`.
use native.Mathlib.Nat.{div-eq_of_lt, mod-eq_of_lt, le-div_iff_mul-le}
use slotfs_eurosys.Base.{
  zero, suc, true, none, some, inl, inr, refl, leb, ◌+◌, if◌then◌else◌, ltb, ℕ, Option, ◌<◌, ◌≡◌,
  ap, ◌≢◌, ◌/◌, ◌∙◌, ◌≤◌, Bool-cases, fun_ext, ◌==◌, arith, ◌%◌, ◌*◌, sym,
}
use slotfs_eurosys.BTree.{
  max_levels, btree_set, leb, grow, ltb, store, max_keys, follow, place_of, BTree, Option, Place,
  Node, btree_expand, btree_node_create, ℕ, at_place, btree_get, btree_get_node, child_or_new,
  get_at,
}
use slotfs_eurosys.BTree.Place.{
  place_of-key_of, key_of-place_of, InRange, capacity_pos, max_keys-capacity, capacity, key_of,
}
use slotfs_eurosys.Base.Memory.{store, store_other, store_same}

module _ {ℓ} {A : Type ℓ} where
  get_at-new : (h : ℕ) (p : Place h) → get_at h (btree_node_create A h) p ≡ none
  unfolding get_at btree_node_create Node Place
  get_at-new zero p = refl
  get_at-new (suc h) (branch, p) = refl

  -- a missing child holds what an empty node holds
  get_at-child :
      (h : ℕ) (c : Option (Node A h)) (p : Place h)
      → get_at h (child_or_new A h c) p ≡ follow c (λ child. get_at h child p)
  unfolding child_or_new
  get_at-child h none p = get_at-new h p
  get_at-child h (some child) p = refl

  -- `btree_get` reads the pointer at the place of the key.
  pub btree_get_node-place_of :
      (h : ℕ) (node : Node A h) (key : ℕ)
      → btree_get_node h node key ≡ get_at h node (place_of h key)
  unfolding btree_get_node get_at Node Place place_of
  btree_get_node-place_of zero node key = refl
  btree_get_node-place_of (suc h) node key =
      ap (follow (node (key / max_keys h)))
        (fun_ext λ child. btree_get_node-place_of h child (key % max_keys h))

  pub get_at-at_place_same :
      (f : Option A → Option A) (h : ℕ) (node : Node A h) (p : Place h)
      → get_at h (at_place f h node p) p ≡ f (get_at h node p)
  unfolding at_place get_at Node Place
  get_at-at_place_same f zero node i = store_same node i (f (node i))
  get_at-at_place_same f (suc h) node (branch, p) =
      let new = at_place f h (child_or_new A h (node branch)) p in
      ap (λ c. follow c (λ child. get_at h child p)) (store_same node branch (some new))
      ∙ get_at-at_place_same f h (child_or_new A h (node branch)) p
      ∙ ap f (get_at-child h (node branch) p)

  pub get_at-at_place_other :
      (f : Option A → Option A) (h : ℕ) (node : Node A h) (p q : Place h)
      → key_of h p ≢ key_of h q
      → get_at h (at_place f h node p) q ≡ get_at h node q
  unfolding at_place get_at Node Place key_of
  get_at-at_place_other f zero node i j ne = store_other node (f (node i)) ne
  get_at-at_place_other f (suc h) node (branch, p) (branch', q) ne =
      let child = child_or_new A h (node branch) in
      let new = at_place f h child p in
      elim (Bool-cases (branch == branch')) [
        | inl e ↦
            let same : branch ≡ branch' = ground arith in
            let rest =
              get_at-at_place_other f h child p q
                (λ k. ne (let s = ap (λ x. x * capacity h) same in omega (arith, k, s))) in
            ap (λ c. follow c (λ child. get_at h child q))
              (ap (store node branch (some new)) (sym same) ∙ store_same node branch (some new))
            ∙ rest
            ∙ get_at-child h (node branch) q
            ∙ ap (λ b. follow (node b) (λ child. get_at h child q)) same
        | inr e ↦
            ap (λ c. follow c (λ child. get_at h child q))
              (store_other node {j = branch'} (some new) (ground arith))
      ]

  -- `btree_expand` loses nothing.
  btree_get-expand :
      (tree : BTree A) (key : ℕ)
      → tree.height < 6
      → key < capacity tree.height
      → btree_get (btree_expand tree) key ≡ btree_get tree key
  unfolding btree_get btree_expand btree_get_node Node
  btree_get-expand tree key le lt =
      let h = tree.height in
      let e : key / max_keys h ≡ 0 = rw (max_keys-capacity h (omega arith)) (div-eq_of_lt lt) in
      let m : key % max_keys h ≡ key = rw (max_keys-capacity h (omega arith)) (mod-eq_of_lt lt) in
      rw (e, m) refl

  -- a new root holds nothing above the keys of the old one
  btree_get-expand_above :
      (tree : BTree A) (key : ℕ)
      → tree.height < 6
      → capacity tree.height ≤ key
      → btree_get (btree_expand tree) key ≡ none
  unfolding btree_get btree_expand btree_get_node Node btree_node_create
  btree_get-expand_above tree key le lt =
      let h = tree.height in
      let pos = capacity_pos h in
      let high : 1 ≤ key / max_keys h =
        rw (max_keys-capacity h (omega arith)) ((le-div_iff_mul-le pos).1 (omega arith)) in
      ap (λ c. follow c (λ child. btree_get_node h child (key % max_keys h)))
        (store_other (btree_node_create A (suc h)) (some tree.root) (omega arith))

  -- `btree_get` after a write at the place `p`.
  pub btree_get_node-at_place :
      (f : Option A → Option A) (h : ℕ) (node : Node A h) (p : Place h)
      → h ≤ 6
      → InRange h p
      → (k : ℕ) → k < capacity h
      → btree_get_node h (at_place f h node p) k
        ≡ (if key_of h p == k then f (btree_get_node h node k) else btree_get_node h node k)
  btree_get_node-at_place f h node p le r k lt =
      let (rk, ek) = key_of-place_of h k le lt in
      elim (Bool-cases (key_of h p == k)) [
        | inl e ↦
            let same : key_of h p ≡ k = ground arith in
            let here : place_of h k ≡ p = ap (place_of h) (sym same) ∙ place_of-key_of h p le r in
            rw (e, btree_get_node-place_of, btree_get_node-place_of, here)
              (get_at-at_place_same f h node p)
        | inr e ↦
            rw (e, btree_get_node-place_of, btree_get_node-place_of)
              (get_at-at_place_other f h node p (place_of h k) (λ q. ground (arith, q, ek)))
      ]

module _ {A : Type 0} where
  -- The map that the tree stands for; beyond the keys of its height it has nothing.
  unfoldable pub contents : BTree A → ℕ → Option A
  contents tree k = if ltb k (capacity tree.height) then btree_get tree k else none

  contents-expand :
      (tree : BTree A) (k : ℕ) → tree.height < 6 → contents (btree_expand tree) k ≡ contents tree k
  unfolding contents btree_expand capacity
  contents-expand tree k le = elim (Bool-cases (ltb k (capacity tree.height))) [
    | inl e ↦ ground (arith, btree_get-expand tree k le)
    | inr e ↦ ground (arith, btree_get-expand_above tree k le)
  ]

  expand_height : (tree : BTree A) → tree.height < 6 → (btree_expand tree).height ≤ 6
  unfolding btree_expand
  expand_height tree h = omega (arith, h)

  expand_reach :
      (tree : BTree A) (rounds : ℕ)
      → 6 ≤ tree.height + suc rounds
      → 6 ≤ (btree_expand tree).height + rounds
  unfolding btree_expand
  expand_reach tree rounds h = omega (arith, h)

  expands_below :
      (tree : BTree A) (key : ℕ)
      → tree.height ≤ 6
      → key < capacity 6
      → leb (max_keys tree.height) key ≡ true
      → tree.height < 6
  expands_below tree key low small more = elim (Bool-cases (tree.height == 6)) [
    | inl e ↦
        let six : tree.height ≡ 6 = ground arith in
        let m : max_keys tree.height ≡ capacity 6 =
          ap max_keys six ∙ max_keys-capacity 6 (omega arith) in
        ground (arith, m)
    | inr e ↦ ground arith
  ]

  -- The loop ends in a tree that has the key, with the same contents: enough rounds are those up to
  -- height 6.
  pub grow-contents :
      (rounds key : ℕ) (tree : BTree A)
      → tree.height ≤ 6
      → 6 ≤ tree.height + rounds
      → key < capacity 6
      → ((grow rounds key tree).height ≤ 6)
        × (key < capacity (grow rounds key tree).height)
        × ((k : ℕ) → contents (grow rounds key tree) k ≡ contents tree k)
  unfolding grow
  grow-contents zero key tree low reach small =
      let e : tree.height ≡ 6 = omega arith in (low, rw e small, λ k. refl)
  grow-contents (suc rounds) key tree low reach small =
      elim (Bool-cases (leb (max_keys tree.height) key)) [
        | inl more ↦
            let room : tree.height < 6 = expands_below tree key low small more in
            let (l, k, same) =
              grow-contents rounds key (btree_expand tree) (expand_height tree room)
                (expand_reach tree rounds reach) small in
            rw more (l, k, λ j. same j ∙ contents-expand tree j room)
        | inr done ↦
            let m = max_keys-capacity tree.height low in rw done (low, ground (arith, m), λ k. refl)
      ]

  -- On a tree of height 6 at most, and for a key below 2 ^ 56, `btree_set` writes that key of the
  -- map, and no other.
  pub contents-btree_set :
      (tree : BTree A) (key : ℕ) (ptr : Option A)
      → tree.height ≤ 6
      → key < capacity 6
      → (k : ℕ) → contents (btree_set tree key ptr) k ≡ (if key == k then ptr else contents tree k)
  unfolding btree_set contents btree_get
  contents-btree_set tree key ptr low small k =
      let (l, room, same) = grow-contents max_levels key tree low (omega arith) small in
      let t = grow max_levels key tree in
      let (r, e) = key_of-place_of t.height key l room in
      rw (← (same k), contents)
        (ground (
          arith,
          e,
          btree_get_node-at_place (λ old. ptr) t.height t.root (place_of t.height key) l r k,
        ))
