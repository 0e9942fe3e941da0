-- ===== src/BTree/Place.antt =====
-- Places of the tree and the keys they stand for.
use native.Mathlib.Nat.{
  add-mul-div_right, div-eq_of_lt, add-mul-mod_self_right, mod-eq_of_lt, mul-le-mul_right, mod-lt,
  div-lt_iff_lt-mul, div-add-mod',
}
use slotfs_eurosys.Base.{
  zero, suc, none, some, inl, inr, refl, ap, ◌∙◌, ℕ, ◌*◌, ◌<◌, ◌≡◌, ◌≤◌, arith, ◌+◌, ◌⊎◌,
  Bool-cases, ltb, ◌%◌, ◌/◌,
}
use slotfs_eurosys.BTree.{ltb, branch_num, next_place, place_of, Place, leftmost, max_keys}

-- How many keys a node of height `h` has, without the wrap-around of `size_t`.
unfoldable pub capacity : ℕ → ℕ
capacity zero = branch_num
capacity (suc h) = capacity h * branch_num

pub capacity_pos : (h : ℕ) → 0 < capacity h
unfolding capacity
capacity_pos zero = omega arith
capacity_pos (suc h) = omega (arith, capacity_pos h)

pub max_keys-capacity : (h : ℕ) → h ≤ 6 → max_keys h ≡ capacity h
unfolding max_keys capacity
max_keys-capacity zero le = refl
max_keys-capacity (suc zero) le = refl
max_keys-capacity (suc (suc zero)) le = refl
max_keys-capacity (suc (suc (suc zero))) le = refl
max_keys-capacity (suc (suc (suc (suc zero)))) le = refl
max_keys-capacity (suc (suc (suc (suc (suc zero))))) le = refl
max_keys-capacity (suc (suc (suc (suc (suc (suc zero)))))) le = refl
max_keys-capacity (suc (suc (suc (suc (suc (suc (suc h))))))) le = absurd (omega arith)

-- A number in two digits.
digits : (c b r : ℕ) → r < c → ((b * c + r) / c ≡ b) × ((b * c + r) % c ≡ r)
digits c b r lt =
    let e : b * c + r ≡ r + b * c = omega arith in
    let pos : 0 < c = omega arith in
    rw e (
      add-mul-div_right r b pos ∙ (rw (div-eq_of_lt lt) (omega arith)),
      add-mul-mod_self_right r b c ∙ mod-eq_of_lt lt,
    )

-- The key of a place.
unfoldable pub key_of : (h : ℕ) → Place h → ℕ
unfolding Place
key_of zero i = i
key_of (suc h) (branch, p) = branch * capacity h + key_of h p

-- Every branch of the place is one of `branch_num`.
unfoldable pub InRange : (h : ℕ) → Place h → Type 0
unfolding Place
InRange zero i = i < branch_num
InRange (suc h) (branch, p) = (branch < branch_num) × InRange h p

pub key_of-lt : (h : ℕ) (p : Place h) → InRange h p → key_of h p < capacity h
unfolding key_of capacity InRange Place
key_of-lt zero i r = r
key_of-lt (suc h) (branch, p) (b, r) =
    let small = key_of-lt h p r in
    let room : (branch + 1) * capacity h ≤ branch_num * capacity h =
      mul-le-mul_right (capacity h) (omega (arith, b)) in
    omega (arith, small, room)

pub key_of-place_of :
    (h key : ℕ)
    → h ≤ 6
    → key < capacity h
    → InRange h (place_of h key) × (key_of h (place_of h key) ≡ key)
unfolding key_of capacity InRange Place place_of
key_of-place_of zero key le lt = (lt, refl)
key_of-place_of (suc h) key le lt =
    let m = max_keys-capacity h (omega arith) in
    let lt' : key % capacity h < capacity h = mod-lt key (capacity_pos h) in
    let (r, e) = key_of-place_of h (key % capacity h) (omega arith) lt' in
    let top : key / capacity h < branch_num =
      (div-lt_iff_lt-mul (capacity_pos h)).1 (omega (arith, lt)) in
    rw m ((top, r), rw e (div-add-mod' key (capacity h)))

pub place_of-key_of : (h : ℕ) (p : Place h) → h ≤ 6 → InRange h p → place_of h (key_of h p) ≡ p
unfolding key_of capacity InRange Place place_of
place_of-key_of zero i le r = refl
place_of-key_of (suc h) (branch, p) le (b, r) =
    let (d, m) = digits (capacity h) branch (key_of h p) (key_of-lt h p r) in
    rw (max_keys-capacity h (omega arith), d, m, place_of-key_of h p (omega arith) r) refl

pub leftmost-key : (h : ℕ) → InRange h (leftmost h) × (key_of h (leftmost h) ≡ 0)
unfolding key_of InRange leftmost Place
leftmost-key zero = (omega arith, refl)
leftmost-key (suc h) = let (r, e) = leftmost-key h in ((omega arith, r), omega (arith, e))

-- The next place has the next key; there is none only after the last key.
pub next_place-key :
    (h : ℕ) (p : Place h)
    → InRange h p
    → ((q : Place h) × (next_place h p ≡ some q) × InRange h q × (key_of h q ≡ key_of h p + 1))
      ⊎ ((next_place h p ≡ none) × (key_of h p + 1 ≡ capacity h))
unfolding key_of capacity InRange Place next_place
next_place-key zero i r = elim (Bool-cases (ltb (i + 1) branch_num)) [
  | inl more ↦ inl (i + 1, rw more refl, ground arith, refl)
  | inr last ↦ inr (rw last refl, ground arith)
]
next_place-key (suc h) (branch, p) (b, r) = elim (next_place-key h p r) [
  | inl (q, e, rq, k) ↦ inl ((branch, q), rw e refl, (b, rq), omega (arith, k))
  | inr (e, k) ↦ elim (Bool-cases (ltb (branch + 1) branch_num)) [
    | inl more ↦
        let (rl, kl) = leftmost-key h in
        inl (
          (branch + 1, leftmost h),
          rw (e, more) refl,
          (ground (arith, more), rl),
          omega (arith, k, kl),
        )
    | inr last ↦ inr (
      rw (e, last) refl,
      (let b1 : branch + 1 ≡ branch_num = ground arith in
          let t : (branch + 1) * capacity h ≡ branch_num * capacity h =
            ap (λ x. x * capacity h) b1 in
          omega (arith, t, k)),
    )
  ]
]
