-- ===== src/BTree/Range.antt =====
-- `btree_set_range_callback`: the loop over the places writes exactly the keys of the range, and calls
-- the callback once on each pointer that it replaces, in the order of the keys.
use slotfs_eurosys.Base.{
  zero, suc, true, false, none, some, inl, inr, refl, ℕ, Option, ◌+◌, ◌≡◌, ◌≤◌, ◌<◌, arith,
  if◌then◌else◌, leb, ◌&&◌, sym, ◌==◌, ◌∙◌, ap, ltb, ◌-◌,
}
use slotfs_eurosys.BTree.{
  btree_get, grow, max_levels, place_of, ltb, BTree, at_place, btree_set_range_callback, get_at,
  leb, btree_get_node, Node, Place, call, range_loop, Option, btree_next,
}
use slotfs_eurosys.BTree.Place.{
  key_of-place_of, place_of-key_of, next_place-key, capacity, InRange, key_of,
}
use slotfs_eurosys.BTree.Grow.{
  grow-contents, btree_get_node-at_place, btree_get_node-place_of, contents,
}

-- The callback's state after the `count` keys from `key` on of the map `m`.
unfoldable pub visit : {A S : Type 0} → (A → ℕ → S → S) → (ℕ → Option A) → ℕ → ℕ → S → S
visit cb m zero key s = s
visit cb m (suc count) key s =
    visit cb m count (key + 1) (elim (m key) [ none ↦ s | some old ↦ cb old key s ])

visit_same :
    {A S : Type 0} (cb : A → ℕ → S → S) (m n : ℕ → Option A) (count key : ℕ) (s : S)
    → ((k : ℕ) → key ≤ k → k < key + count → m k ≡ n k)
    → visit cb m count key s ≡ visit cb n count key s
unfolding visit
visit_same cb m n zero key s same = refl
visit_same cb m n (suc count) key s same = rw (same key (omega arith) (omega arith)) (
    visit_same cb m n count (key + 1) (elim (n key) [ none ↦ s | some old ↦ cb old key s ])
      (λ k lo hi. same k (omega arith) (omega arith)))

-- `btree_next` moves on to the next key, if the tree has one.
pub btree_next-key :
    (h : ℕ) (p : Place h)
    → InRange h p
    → key_of h p + 1 < capacity h
    → (q : Place h) × (btree_next h p ≡ some q) × InRange h q × (key_of h q ≡ key_of h p + 1)
unfolding btree_next key_of InRange Place capacity
btree_next-key zero i r room = (i + 1, ground arith, omega arith, refl)
btree_next-key (suc h) p r room = elim (next_place-key (suc h) p r) [
  | inl found ↦ found
  | inr (e, last) ↦ absurd (omega (arith, last, room))
]

module _ {A S : Type 0} (callback : A → ℕ → S → Option S) (cb : A → ℕ → S → S)
    (never_fails : (old : A) (key : ℕ) (s : S) → callback old key s ≡ some (cb old key s)) where
  call_cb :
      (o : Option A) (key : ℕ) (s : S)
      → call callback o key s ≡ some (elim o [ none ↦ s | some old ↦ cb old key s ])
  unfolding call
  call_cb none key s = refl
  call_cb (some old) key s = never_fails old key s

  -- the pointer at the place of `key`
  read_here :
      (h : ℕ) (p : Place h) (node : Node A h) (key : ℕ)
      → h ≤ 6
      → InRange h p
      → key_of h p ≡ key
      → get_at h node p ≡ btree_get_node h node key
  read_here h p node key le r e = sym (
      btree_get_node-place_of h node key
      ∙ ap (get_at h node) (ap (place_of h) (sym e) ∙ place_of-key_of h p le r))

  call-visit :
      (h : ℕ) (p : Place h) (node : Node A h) (key : ℕ) (s : S)
      → h ≤ 6
      → InRange h p
      → key_of h p ≡ key
      → call callback (get_at h node p) key s ≡ some (visit cb (btree_get_node h node) 1 key s)
  unfolding visit
  call-visit h p node key s le r e =
      ap (λ o. call callback o key s) (read_here h p node key le r e)
      ∙ call_cb (btree_get_node h node key) key s

  -- the node after the write, and after `btree_next` has made the way to the next place
  moved :
      (h : ℕ) (ptr : Option A) (p q : Place h) (node : Node A h)
      → h ≤ 6
      → InRange h p
      → InRange h q
      → (k : ℕ) → k < capacity h
      → btree_get_node h (at_place (λ old. old) h (at_place (λ old. ptr) h node p) q) k
        ≡ (if key_of h p == k then ptr else btree_get_node h node k)
  moved h ptr p q node le rp rq k lt =
      let written = at_place (λ old. ptr) h node p in
      ground (
        arith,
        btree_get_node-at_place (λ old. old) h written q le rq k lt,
        btree_get_node-at_place (λ old. ptr) h node p le rp k lt,
      )

  pub range_loop-visit :
      (h : ℕ) (ptr : Option A) (rounds key : ℕ) (p : Place h) (node : Node A h) (s : S)
      → h ≤ 6
      → InRange h p
      → key_of h p ≡ key
      → key + rounds + 1 < capacity h
      → let (ok, node', s') = range_loop callback h ptr rounds key p node s in
        (ok ≡ true)
        × ((k : ℕ)
            → k < capacity h
            → btree_get_node h node' k
              ≡ (if leb key k && leb k (key + rounds) then ptr else btree_get_node h node k))
        × (s' ≡ visit cb (btree_get_node h node) (suc rounds) key s)
  unfolding range_loop visit
  range_loop-visit h ptr zero key p node s le r e room =
      let (q, n, rq, eq) = btree_next-key h p r (omega arith) in
      rw (call-visit h p node key s le r e, n, range_loop)
        (refl, λ k lt. ground (arith, moved h ptr p q node le r rq k lt), refl)
  range_loop-visit h ptr (suc rounds) key p node s le r e room =
      let (q, n, rq, eq) = btree_next-key h p r (omega arith) in
      let node' = at_place (λ old. old) h (at_place (λ old. ptr) h node p) q in
      let s' = visit cb (btree_get_node h node) 1 key s in
      let (ok, held, seen) =
        range_loop-visit h ptr rounds (key + 1) q node' s' le rq (omega arith) (omega arith) in
      let same =
        visit_same cb (btree_get_node h node') (btree_get_node h node) (suc rounds) (key + 1) s'
          (λ k lo hi. ground (arith, moved h ptr p q node le r rq k)) in
      rw (call-visit h p node key s le r e, n, range_loop)
        (ok, λ k lt. ground (arith, held k lt, moved h ptr p q node le r rq k lt), seen ∙ same)

  -- With a callback that never fails, and for a range that is not empty and ends below 2 ^ 56,
  -- `btree_set_range_callback` succeeds on a tree of height 6 at most: it writes exactly the keys
  -- of the range, and the callback has seen each pointer that was there once, in the order of the
  -- keys.
  pub contents-btree_set_range_callback :
      (tree : BTree A) (start end : ℕ) (ptr : Option A) (s : S)
      → tree.height ≤ 6
      → start < end
      → end < capacity 6
      → let (ok, tree', s') = btree_set_range_callback callback tree start end ptr s in
        (ok ≡ true)
        × ((k : ℕ) → contents tree' k ≡ (if leb start k && ltb k end then ptr else contents tree k))
        × (s' ≡ visit cb (contents tree) (end - start) start s)
  unfolding btree_set_range_callback contents btree_get
  contents-btree_set_range_callback tree start end ptr s low some_key small =
      let (l, room, same) = grow-contents max_levels end tree low (omega arith) small in
      let t = grow max_levels end tree in
      let (r, e) = key_of-place_of t.height start l (omega (arith, room)) in
      let p = place_of t.height start in
      let root = at_place (λ old. old) t.height t.root p in
      let rounds = end - start - 1 in
      let (ok, held, seen) =
        range_loop-visit t.height ptr rounds start p root s l r e (omega (arith, room)) in
      let n : end - start ≡ suc rounds = omega arith in
      let test : leb end start ≡ false = ground arith in
      let untouched = btree_get_node-at_place (λ old. old) t.height t.root p l r in
      let all_same =
        visit_same cb (btree_get_node t.height root) (contents tree) (suc rounds) start s
          (λ k lo hi. rw (← (same k), contents) (ground (arith, untouched k))) in
      rw (test, btree_set_range_callback)
        (
          ok,
          λ k. rw (← (same k), contents) (ground (arith, held k, untouched k)),
          seen ∙ all_same ∙ ap (λ c. visit cb (contents tree) c start s) (sym n),
        )
