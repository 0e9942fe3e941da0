-- ===== src/Slot/Alloc.antt =====
-- One bitmap of the slot allocator: what the allocation of a bit gives.
use mathlib.Core.Bool.{not}
use slotfs_eurosys.Slot.Count.{
  count_free-pos, IsValid, count_free, count_free-le, count_free_none, count_free_flip,
}
use slotfs_eurosys.Base.{
  true, false, none, some, inl, inr, refl, ℕ, ◌+◌, ◌≤◌, ◌<◌, ◌≡◌, Bool, ◌||◌, arith, ◌==◌, ltb, leb,
  Bool-cases, eq_of_some, ◌∙◌, sym,
}
use mathlib.Core.Path.{subst}
use slotfs_eurosys.Bitmap.{set_bit, next_zero_bit}
use slotfs_eurosys.Bitmap.Bits.{bit, bit-set_bit}
use slotfs_eurosys.Bitmap.Scan.{IsFirst, next_zero_bit-IsFirst}
use slotfs_eurosys.Slot.{DramBitmap, find_bit, take_bit, alloc_one}

used_of_skipped : (b : Bool) → not b ≡ false → b ≡ true
used_of_skipped b h = ground arith

module _ {b : DramBitmap} (valid : IsValid b) where
  -- no access out of range, and `range_start` never passes `bit_num`
  pub find_bit-le : find_bit b ≤ b.bit_num
  unfolding find_bit
  find_bit-le =
      let f = next_zero_bit-IsFirst b.dram b.bit_num b.hint valid.hint_in in
      let g = next_zero_bit-IsFirst b.dram b.hint 0 (omega arith) in
      ground (arith, f.below, g.below, valid.hint_in)

  -- while slots remain, the two scans find a free one
  pub find_bit-free : 0 < b.remain → (find_bit b < b.bit_num) × (bit b.dram (find_bit b) ≡ false)
  unfolding find_bit
  find_bit-free pos = elim (Bool-cases (leb b.bit_num (next_zero_bit b.dram b.bit_num b.hint))) [
    | inr here ↦ rw here (ground arith, ground (arith, f.found))
    | inl past ↦ elim (Bool-cases (ltb (next_zero_bit b.dram b.hint 0) b.hint)) [
      | inl here ↦ rw past (ground (arith, valid.hint_in), ground (arith, g.found))
      | inr full ↦ absurd (omega (arith, valid.counted, all_used past full))
    ]
  ]
    where
      f : IsFirst (λ k. not (bit b.dram k)) b.hint b.bit_num (next_zero_bit b.dram b.bit_num b.hint)
      f = next_zero_bit-IsFirst b.dram b.bit_num b.hint valid.hint_in

      g : IsFirst (λ k. not (bit b.dram k)) 0 b.hint (next_zero_bit b.dram b.hint 0)
      g = next_zero_bit-IsFirst b.dram b.hint 0 (omega arith)

      all_used :
          leb b.bit_num (next_zero_bit b.dram b.bit_num b.hint) ≡ true
          → ltb (next_zero_bit b.dram b.hint 0) b.hint ≡ false
          → count_free b.dram b.bit_num ≡ 0
      all_used past full = count_free_none b.dram b.bit_num λ k h.
          elim (Bool-cases (ltb k b.hint)) [
            | inl low ↦ used_of_skipped _ (g.skipped k (omega arith) (ground arith))
            | inr high ↦ used_of_skipped _ (f.skipped k (ground arith) (ground arith))
          ]

  -- a taken bit was free: the bitmap stays valid
  pub take_bit-IsValid : (k : ℕ) → k < b.bit_num → bit b.dram k ≡ false → IsValid (take_bit b k)
  unfolding take_bit
  take_bit-IsValid k h free = record {
    hint_in = omega arith;
    small = valid.small;
    counted = omega (
      arith,
      valid.counted,
      valid.small,
      count_free-le b.dram b.bit_num,
      count_free_flip (set_bit k b.dram) b.dram b.bit_num k h (rw bit-set_bit (ground arith)) free
          (λ j ne. rw bit-set_bit (rw ne)),
    );
  }

-- `b'` is `b` with the bit of `index` taken, which was free.
pub record Takes (b : DramBitmap) (index : ℕ) (b' : DramBitmap) : Type 0 where
  pub position : ℕ
  pub index_eq : index ≡ position + b.bit_offset
  pub in_range : position < b.bit_num
  pub was_free : bit b.dram position ≡ false
  pub bits : (j : ℕ) → bit b'.dram j ≡ ((position == j) || bit b.dram j)
  pub remain : b'.remain + 1 ≡ b.remain
  pub offset : b'.bit_offset ≡ b.bit_offset
  pub size : b'.bit_num ≡ b.bit_num
  pub valid : IsValid b'

module _ {b : DramBitmap} (valid : IsValid b) where
  -- taking a free position
  pub take_bit-Takes :
      (k : ℕ) → k < b.bit_num → bit b.dram k ≡ false → Takes b (k + b.bit_offset) (take_bit b k)
  unfolding take_bit
  take_bit-Takes k lt free = record {
    position = k;
    index_eq = refl;
    in_range = lt;
    was_free = free;
    bits = bit-set_bit k b.dram;
    remain = omega (
      arith,
      count_free-le b.dram b.bit_num,
      count_free-pos b.dram b.bit_num k lt free,
      valid.counted,
      valid.small,
    );
    offset = refl;
    size = refl;
    valid = take_bit-IsValid valid k lt free;
  }

  pub alloc_one-Takes :
      0 < b.remain
      → (index : ℕ) × (b' : DramBitmap) × (alloc_one b ≡ some (index, b')) × Takes b index b'
  unfolding alloc_one
  alloc_one-Takes pos =
      let (lt, free) = find_bit-free valid pos in
      (
        find_bit b + b.bit_offset,
        take_bit b (find_bit b),
        ground arith,
        take_bit-Takes (find_bit b) lt free,
      )

  pub alloc_one-none : alloc_one b ≡ none → b.remain ≡ 0
  unfolding alloc_one
  alloc_one-none e = ground (arith, find_bit-free valid)

  remain_of_step : {r : ℕ × DramBitmap} → alloc_one b ≡ some r → 0 < b.remain
  unfolding alloc_one
  remain_of_step h = ground arith

  -- What the allocation returned was free, and now it is taken.
  pub Takes-of_step : {r : ℕ × DramBitmap} → alloc_one b ≡ some r → Takes b r.0 r.1
  Takes-of_step h =
      let (index, b', e, takes) = alloc_one-Takes (remain_of_step h) in
      subst (λ (s : ℕ × DramBitmap). Takes b s.0 s.1) (eq_of_some (sym e ∙ h)) takes
