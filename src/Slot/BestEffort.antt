-- ===== src/Slot/BestEffort.antt =====
-- `slot_be_alloc`: the best-effort allocator keeps the same promise as `do_slot_alloc`.
use native.Mathlib.Nat.{mod-lt, mul-lt-mul_of_pos_right}
use slotfs_eurosys.Base.{
  zero, suc, true, false, none, some, inl, inr, eq_of_some, sym, ltb, Option-cases, ◌/◌, ℕ, List,
  ◌<◌, ◌≡◌, ◌*◌, ◌≤◌, length, ◌+◌, arith, Bool-cases, ◌==◌, ◌⊎◌, ◌%◌,
}
use slotfs_eurosys.Slot.{
  find_bit, search_round, take_bit, DramBitmap, Bytes, be_alloc_one, chunk_scan, chunk_zero,
  slot_be_alloc,
}
use mathlib.Core.Path.{subst}
use slotfs_eurosys.Base.Bits.{testbit-zero}
use slotfs_eurosys.Slot.Alloc.{take_bit-Takes, find_bit-free, Takes}
use slotfs_eurosys.Slot.Rotate.{rotate-Allocates, Allocates, Every, IsAllocator}
use slotfs_eurosys.Slot.Count.{IsValid}
use slotfs_eurosys.Bitmap.{Bytes}
use slotfs_eurosys.Bitmap.Bits.{bit}

chunk_zero-get :
    (bmp : Bytes) (start count k : ℕ)
    → chunk_zero bmp start count ≡ true
    → start ≤ k
    → k < start + count
    → bmp k ≡ 0
unfolding chunk_zero
chunk_zero-get bmp start zero k h lo hi = absurd (omega arith)
chunk_zero-get bmp start (suc count) k h lo hi = elim (Bool-cases (start == k)) [
  | inl e ↦ let q : start ≡ k = ground arith in rw (← q) (ground arith)
  | inr e ↦ chunk_zero-get bmp (start + 1) count k (ground arith) (ground arith) (omega arith)
]

-- what a scan of chunks finds is free and inside
chunk_scan-free :
    (bmp : Bytes) (bytes left i round : ℕ) {k : ℕ}
    → 0 < bytes
    → chunk_scan bmp (8 * bytes) left i round ≡ some k
    → (bit bmp k ≡ false) × (k < (i + left) * (8 * bytes))
unfolding chunk_scan bit
chunk_scan-free bmp bytes zero i round pos h = absurd (cc)
chunk_scan-free bmp bytes (suc left) i round {k} pos h =
    let wide : 8 * bytes / 8 ≡ bytes = omega arith in
    elim (Bool-cases (ltb search_round round)) [
      | inl over ↦ absurd (cc (sym (rw (over, chunk_scan) at h)))
      | inr on ↦ elim (Bool-cases (chunk_zero bmp (i * (8 * bytes / 8)) (8 * bytes / 8))) [
        | inl zeros ↦
            let k_eq : i * (8 * bytes) ≡ k = eq_of_some (rw (on, zeros, chunk_scan) at h) in
            let z : bmp (k / 8) ≡ 0 =
              (let here : k / 8 ≡ i * bytes = omega (arith, k_eq) in
                rw here (
                  chunk_zero-get bmp (i * bytes) bytes (i * bytes) (rw wide at zeros) (omega arith)
                    (omega arith))) in
            (
              rw z (testbit-zero (k % 8)),
              rw (← k_eq) (mul-lt-mul_of_pos_right {n = i + suc left} (omega arith) (omega arith)),
            )
        | inr used ↦
            let (free, below) =
              chunk_scan-free bmp bytes left (i + 1) (round + 1) pos
                (rw (on, used, chunk_scan) at h) in
            (free, (let s : i + 1 + left ≡ i + suc left = omega arith in rw (← s) below))
      ]
    ]

module _ {b : DramBitmap} (valid : IsValid b) where
  chunk_position :
      (bytes left : ℕ) {k : ℕ}
      → 0 < bytes
      → left * (8 * bytes) ≤ b.bit_num
      → chunk_scan b.dram (8 * bytes) left 0 0 ≡ some k
      → Takes b (k + b.bit_offset) (take_bit b k)
  chunk_position bytes left {k} pos fits h =
      let (free, below) = chunk_scan-free b.dram bytes left 0 0 pos h in
      take_bit-Takes valid k (omega (arith, below, fits)) free

  at_result : {q r : ℕ × DramBitmap} → some q ≡ some r → Takes b q.0 q.1 → Takes b r.0 r.1
  at_result e t = subst (λ (x : ℕ × DramBitmap). Takes b x.0 x.1) (eq_of_some e) t

  be_alloc_one-Takes : {r : ℕ × DramBitmap} → be_alloc_one b ≡ some r → Takes b r.0 r.1
  unfolding be_alloc_one
  be_alloc_one-Takes {r} h = elim (Bool-cases (ltb 0 b.remain)) [
    | inr out ↦ absurd (cc (sym (rw (out, be_alloc_one) at h)))
    | inl on ↦ elim (Option-cases (chunk_scan b.dram 64 (b.bit_num / 64) 0 0)) [
      | inr (k, e) ↦
          at_result (rw (on, e, be_alloc_one) at h)
            (chunk_position 8 (b.bit_num / 64) (omega arith) (omega arith) e)
      | inl e ↦ elim (Option-cases (chunk_scan b.dram 16 (b.bit_num / 16) 0 0)) [
        | inr (k, e') ↦
            at_result (rw (on, e, e', be_alloc_one) at h)
              (chunk_position 2 (b.bit_num / 16) (omega arith) (omega arith) e')
        | inl e' ↦
            let (lt, free) = find_bit-free valid (ground arith) in
            let inside : ltb (find_bit b) b.bit_num ≡ true = ground arith in
            at_result (rw (on, e, e', inside, be_alloc_one) at h)
              (take_bit-Takes valid (find_bit b) lt free)
      ]
    ]
  ]

  be_alloc_one_complete : be_alloc_one b ≡ none → b.remain ≡ 0
  unfolding be_alloc_one
  be_alloc_one_complete h = elim (Option-cases (chunk_scan b.dram 64 (b.bit_num / 64) 0 0)) [
    | inr (k, e) ↦ ground arith
    | inl e ↦ elim (Option-cases (chunk_scan b.dram 16 (b.bit_num / 16) 0 0)) [
      | inr (k, e') ↦ ground arith
      | inl e' ↦ ground (arith, find_bit-free valid)
    ]
  ]

-- The three places where `be_alloc_one` looks all give a free position.
pub be_alloc_one-IsAllocator : IsAllocator be_alloc_one
be_alloc_one-IsAllocator = record {
  takes = λ valid h. be_alloc_one-Takes valid h;
  complete = λ valid h. be_alloc_one_complete valid h;
}

-- Over at least one bitmap, all of them valid, `slot_be_alloc` takes a slot that was free and
-- keeps them valid, or it returns -1 and changes nothing; and it returns -1 only if no bitmap has
-- a slot left, whatever the CPU.
pub slot_be_alloc_cases :
    (cpu : ℕ) (bitmaps : List DramBitmap)
    → 0 < length bitmaps
    → Every IsValid bitmaps
    → Allocates bitmaps (slot_be_alloc cpu bitmaps)
      ⊎ ((slot_be_alloc cpu bitmaps ≡ (none, bitmaps)) × Every (λ b. b.remain ≡ 0) bitmaps)
unfolding slot_be_alloc
slot_be_alloc_cases cpu bitmaps some_map valid =
    rotate-Allocates (cpu % length bitmaps) bitmaps be_alloc_one-IsAllocator (mod-lt cpu some_map)
      valid
