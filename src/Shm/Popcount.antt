-- ===== src/Shm/Popcount.antt =====
-- `count_bits` counts the bits, whatever words it takes them in.
use native.Mathlib.Nat.{pow-suc}
use slotfs_eurosys.Base.{
  zero, suc, true, false, inl, inr, refl, Bool-cases, ◌∙◌, ap, Bool, ℕ, if◌then◌else◌, ◌+◌, ◌*◌,
  ◌/◌, ◌%◌, ◌^◌, ltb, leb, ◌-◌, ◌≡◌, ◌≤◌, ◌<◌, arith,
}
use slotfs_eurosys.Bitmap.Bits.{bit}
use slotfs_eurosys.Slot.Count.{count_free}
use slotfs_eurosys.Base.Bits.{testbit}
use slotfs_eurosys.Bitmap.{Bytes}
use slotfs_eurosys.Shm.{popcount, word_at, count_loop, count_bits}

-- The highest of the bits that are counted.
popcount-top : (j w : ℕ) → popcount (suc j) w ≡ popcount j w + (if testbit w j then 1 else 0)
unfolding popcount testbit
popcount-top zero w = ground arith
popcount-top (suc j) w = let rest = popcount-top j (w / 2) in omega (arith, rest)

-- Two words, one above the other.
popcount-add :
    (j m b r : ℕ) → b < 2 ^ j → popcount (j + m) (b + 2 ^ j * r) ≡ popcount j b + popcount m r
unfolding popcount
popcount-add zero m b r lt =
    let e : 0 + m ≡ m = omega arith in
    let z : b + 2 ^ 0 * r ≡ r = omega (arith, lt) in rw (e, z) (omega arith)
popcount-add (suc j) m b r lt =
    let e : suc j + m ≡ suc (j + m) = omega arith in
    let p = pow-suc 2 j in
    let dbl : 2 ^ suc j * r ≡ 2 * (2 ^ j * r) = rw p (omega arith) in
    let low : (b + 2 ^ suc j * r) % 2 ≡ b % 2 = omega (arith, dbl) in
    let high : (b + 2 ^ suc j * r) / 2 ≡ b / 2 + 2 ^ j * r = omega (arith, dbl) in
    let rest = popcount-add j m (b / 2) r (omega (arith, lt, p)) in
    rw (e, popcount, low, high) (omega (arith, rest))

-- The bits of so many bytes.
unfoldable pub bytes_count : Bytes → ℕ → ℕ → ℕ
bytes_count bitmap ptr zero = 0
bytes_count bitmap ptr (suc n) = popcount 8 (bitmap ptr) + bytes_count bitmap (ptr + 1) n

bytes_count-add :
    (bitmap : Bytes) (ptr a b : ℕ)
    → bytes_count bitmap ptr (a + b) ≡ bytes_count bitmap ptr a + bytes_count bitmap (ptr + a) b
unfolding bytes_count
bytes_count-add bitmap ptr zero b =
    let e : 0 + b ≡ b = omega arith in
    let z : ptr + 0 ≡ ptr = omega arith in rw (e, z) (omega arith)
bytes_count-add bitmap ptr (suc a) b =
    let e : suc a + b ≡ suc (a + b) = omega arith in
    let z : ptr + suc a ≡ ptr + 1 + a = omega arith in
    rw (e, z) (omega (arith, bytes_count-add bitmap (ptr + 1) a b))

triple :
    (a b c : ℕ) {a' b' c' : ℕ}
    → a ≡ a'
    → b ≡ b'
    → c ≡ c'
    → ◌≡◌ {A = ℕ × ℕ × ℕ} (a, b, c) (a', b', c')
triple a b c p q r = rw (p, q, r) refl

module _ (bitmap : Bytes) (byte : (i : ℕ) → bitmap i < 256) where
  popcount-word_at :
      (ptr n : ℕ) → popcount (n * 8) (word_at bitmap ptr n) ≡ bytes_count bitmap ptr n
  unfolding word_at bytes_count popcount
  popcount-word_at ptr zero = refl
  popcount-word_at ptr (suc n) =
      let e : suc n * 8 ≡ 8 + n * 8 = omega arith in
      let rest = popcount-word_at (ptr + 1) n in
      let split = popcount-add 8 (n * 8) (bitmap ptr) (word_at bitmap (ptr + 1) n) (byte ptr) in
      ap (λ k. popcount k (word_at bitmap ptr (suc n))) e ∙ split ∙ omega (arith, rest)

  -- One loop: it takes some bytes off, until `more` fails.
  count_loop-ends :
      (more : ℕ → Bool) (width : ℕ)
      → 0 < width
      → ((l : ℕ) → more l ≡ true → width ≤ l)
      → (rounds ptr len count : ℕ) → len ≤ rounds
      → (k : ℕ) × (k ≤ len)
        × (count_loop more width rounds bitmap (ptr, len, count)
            ≡ (ptr + k, len - k, count + bytes_count bitmap ptr k))
        × (more (len - k) ≡ false)
  unfolding count_loop bytes_count
  count_loop-ends more width pos fits zero ptr len count enough =
      let e : len ≡ 0 = omega (arith, enough) in
      let p : ptr + 0 ≡ ptr = omega arith in
      let c : count + 0 ≡ count = omega arith in
      (
        0,
        omega arith,
        rw (e, p, c) refl,
        (elim (Bool-cases (more len)) [
          | inl m ↦ absurd (omega (arith, fits len m, pos, e))
          | inr m ↦ ap more (omega arith) ∙ m
        ]),
      )
  count_loop-ends more width pos fits (suc rounds) ptr len count enough =
      elim (Bool-cases (more len)) [
        | inr m ↦
            let p : ptr + 0 ≡ ptr = omega arith in
            let l : len - 0 ≡ len = omega arith in
            let c : count + 0 ≡ count = omega arith in
            (0, omega arith, rw (count_loop, m, p, l, c) refl, rw l m)
        | inl m ↦
            let wide = fits len m in
            let word = popcount-word_at ptr width in
            let (k, le, r, stop) =
              count_loop-ends more width pos fits rounds (ptr + width) (len - width)
                (count + popcount (width * 8) (word_at bitmap ptr width))
                (omega (arith, enough, pos, wide)) in
            let sum = bytes_count-add bitmap ptr width k in
            let p : ptr + width + k ≡ ptr + (width + k) = omega arith in
            let l : len - width - k ≡ len - (width + k) = omega arith in
            let c : count
                  + popcount (width * 8) (word_at bitmap ptr width)
                  + bytes_count bitmap (ptr + width) k
                ≡ count + bytes_count bitmap ptr (width + k) =
              omega (arith, word, sum) in
            (
              width + k,
              omega (arith, le, wide),
              rw (count_loop, m) (r ∙ triple _ _ _ p l c),
              rw (← l) stop,
            )
      ]

  -- The three loops, one after the other.
  three_loops :
      (len k k2 k3 : ℕ)
      → k + k2 + k3 ≡ len
      → (a b c : ℕ × ℕ × ℕ) → a.2 ≡ 0 + bytes_count bitmap 0 k
      → b.2 ≡ a.2 + bytes_count bitmap (0 + k) k2
      → c.2 ≡ b.2 + bytes_count bitmap (0 + k + k2) k3
      → c.2 ≡ bytes_count bitmap 0 len
  three_loops len k k2 k3 all a b c p q r =
      let e : 0 + (k + k2) ≡ 0 + k + k2 = omega arith in
      omega (
        arith,
        p,
        q,
        r,
        bytes_count-add bitmap 0 k k2,
        bytes_count-add bitmap 0 (k + k2) k3,
        ap (λ x. bytes_count bitmap x k3) e,
        ap (bytes_count bitmap 0) all,
      )

  -- A loop, with what it starts from.
  loop_from :
      (more : ℕ → Bool) (width : ℕ)
      → 0 < width
      → ((l : ℕ) → more l ≡ true → width ≤ l)
      → (rounds : ℕ) (start : ℕ × ℕ × ℕ) → start.1 ≤ rounds
      → (k : ℕ) × (k ≤ start.1)
        × ((count_loop more width rounds bitmap start).0 ≡ start.0 + k)
        × ((count_loop more width rounds bitmap start).1 ≡ start.1 - k)
        × ((count_loop more width rounds bitmap start).2 ≡ start.2 + bytes_count bitmap start.0 k)
        × (more (start.1 - k) ≡ false)
  loop_from more width pos fits rounds start enough =
      let (k, le, r, stop) =
        count_loop-ends more width pos fits rounds start.0 start.1 start.2 enough in
      (
        k,
        le,
        ap (λ (t : ℕ × ℕ × ℕ). t.0) r,
        ap (λ (t : ℕ × ℕ × ℕ). t.1) r,
        ap (λ (t : ℕ × ℕ × ℕ). t.2) r,
        stop,
      )

  count_bits-bytes_count : (len : ℕ) → count_bits bitmap len ≡ bytes_count bitmap 0 len
  unfolding count_bits
  count_bits-bytes_count len =
      let a = count_loop (ltb 8) 8 len bitmap (0, len, 0) in
      let b = count_loop (leb 4) 4 len bitmap a in
      let (k, le, p, l, c, stop) =
        loop_from (ltb 8) 8 (omega arith) (λ l m. ground arith) len (0, len, 0) (omega arith) in
      let (k2, le2, p2, l2, c2, stop2) =
        loop_from (leb 4) 4 (omega arith) (λ l m. ground arith) len a (omega (arith, l)) in
      let (k3, le3, p3, l3, c3, stop3) =
        loop_from (ltb 0) 1 (omega arith) (λ l m. ground arith) len b (omega (arith, l, l2)) in
      let all : k + k2 + k3 ≡ len = ground (arith, le, le2, le3, l, l2, stop3) in
      let q2 : bytes_count bitmap a.0 k2 ≡ bytes_count bitmap (0 + k) k2 =
        ap (λ x. bytes_count bitmap x k2) p in
      let q3 : bytes_count bitmap b.0 k3 ≡ bytes_count bitmap (0 + k + k2) k3 =
        ap (λ x. bytes_count bitmap x k3) (p2 ∙ ap (λ x. x + k2) p) in
      three_loops len k k2 k3 all a b (count_loop (ltb 0) 1 len bitmap b) c (omega (arith, c2, q2))
        (omega (arith, c3, q3))

popcount_zero : (w : ℕ) → popcount 0 w ≡ 0
unfolding popcount
popcount_zero w = refl

-- Below the top of a byte.
count_free-byte :
    (bitmap : Bytes) (n j : ℕ)
    → j ≤ 8
    → count_free bitmap (n * 8 + j) + popcount j (bitmap n) ≡ count_free bitmap (n * 8) + j
unfolding count_free bit
count_free-byte bitmap n zero le =
    let e : n * 8 + 0 ≡ n * 8 = omega arith in
    omega (arith, ap (count_free bitmap) e, popcount_zero (bitmap n))
count_free-byte bitmap n (suc j) le =
    let e : n * 8 + suc j ≡ suc (n * 8 + j) = omega arith in
    let rest = count_free-byte bitmap n j (omega (arith, le)) in
    let top = popcount-top j (bitmap n) in
    let place : (n * 8 + j) / 8 ≡ n = omega (arith, le) in
    let rank : (n * 8 + j) % 8 ≡ j = omega (arith, le) in
    let read : bit bitmap (n * 8 + j) ≡ testbit (bitmap n) j = rw (bit, place, rank) refl in
    let step : count_free bitmap (n * 8 + suc j)
        ≡ (if bit bitmap (n * 8 + j) then 0 else 1) + count_free bitmap (n * 8 + j) =
      ap (count_free bitmap) e in
    elim (Bool-cases (testbit (bitmap n) j)) [
      | inl set ↦ omega (
        arith,
        step ∙ ap (λ b. (if b then 0 else 1) + count_free bitmap (n * 8 + j)) (read ∙ set),
        rest,
        top ∙ ap (λ b. popcount j (bitmap n) + (if b then 1 else 0)) set,
      )
      | inr clear ↦ omega (
        arith,
        step ∙ ap (λ b. (if b then 0 else 1) + count_free bitmap (n * 8 + j)) (read ∙ clear),
        rest,
        top ∙ ap (λ b. popcount j (bitmap n) + (if b then 1 else 0)) clear,
      )
    ]

bytes_free : (bitmap : Bytes) (n : ℕ) → bytes_count bitmap 0 n + count_free bitmap (n * 8) ≡ n * 8
unfolding bytes_count count_free
bytes_free bitmap zero = refl
bytes_free bitmap (suc n) =
    let e : n + 1 ≡ suc n = omega arith in
    let z : 0 + n ≡ n = omega arith in
    let sum = bytes_count-add bitmap 0 n 1 in
    let byte = count_free-byte bitmap n 8 (omega arith) in
    let rest = bytes_free bitmap n in
    let m : n * 8 + 8 ≡ suc n * 8 = omega arith in
    let one : bytes_count bitmap (0 + n) 1 ≡ popcount 8 (bitmap n) = rw z (omega arith) in
    omega (arith, ap (bytes_count bitmap 0) e, sum, one, byte, rest, ap (count_free bitmap) m)

-- For bytes below 256, `count_bits` returns the number of the set positions: with the free ones
-- they are all positions of the bytes.
pub count_bits-count_free :
    (bitmap : Bytes) (len : ℕ)
    → ((i : ℕ) → bitmap i < 256)
    → count_bits bitmap len + count_free bitmap (len * 8) ≡ len * 8
count_bits-count_free bitmap len byte =
    omega (arith, count_bits-bytes_count bitmap byte len, bytes_free bitmap len)
