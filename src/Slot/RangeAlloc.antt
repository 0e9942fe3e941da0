-- ===== src/Slot/RangeAlloc.antt =====
-- `do_slot_alloc_range` on one bitmap: what it returns, and what it does not look at.
use slotfs_eurosys.Base.{
  ℕ, ◌+◌, ◌-◌, ◌%◌, ◌≤◌, ◌<◌, ◌≡◌, refl, false, ◌||◌, ◌&&◌, arith, ◌==◌, some,
}
use slotfs_eurosys.Bitmap.{next_set_bit}
use slotfs_eurosys.Bitmap.Bits.{bit}
use slotfs_eurosys.Bitmap.Scan.{IsFirst, next_set_bit-IsFirst}
use slotfs_eurosys.Bitmap.Range.{within, reach, bit-set_bit_range}
use slotfs_eurosys.Slot.{DramBitmap, find_bit, range_limit, take_range, alloc_range_one}
use slotfs_eurosys.Slot.Count.{IsValid}
use slotfs_eurosys.Slot.Alloc.{find_bit-free}

-- `count` slots from `index` on were returned.
pub record Claims (b : DramBitmap) (want index count : ℕ) (b' : DramBitmap) : Type 0 where
  pub position : ℕ
  pub index_eq : index ≡ position + b.bit_offset
  pub nonempty : 0 < count
  pub wanted : count ≤ want
  pub in_range : position + count ≤ b.bit_num
  pub first_free : bit b.dram position ≡ false
  pub bits : (j : ℕ) → bit b'.dram j ≡ (within position (reach position count) j || bit b.dram j)
  pub hint : b'.hint ≡ position + count

module _ {b : DramBitmap} (valid : IsValid b) (want : ℕ) (some_wanted : 0 < want)
    (some_left : 0 < b.remain) where
  limit_bounds :
      (find_bit b < range_limit b want (find_bit b))
      × (range_limit b want (find_bit b) ≤ b.bit_num)
      × (range_limit b want (find_bit b) ≤ find_bit b + want)
  unfolding range_limit
  limit_bounds = ground (arith, find_bit-free valid some_left)

  the_end :
      IsFirst
        (λ k. bit b.dram k && (k % 8 == 0))
        (find_bit b)
        (range_limit b want (find_bit b))
        (next_set_bit b.dram (range_limit b want (find_bit b)) (find_bit b))
  the_end =
      next_set_bit-IsFirst b.dram (range_limit b want (find_bit b)) (find_bit b)
        (omega (arith, limit_bounds))

  end-above : find_bit b < next_set_bit b.dram (range_limit b want (find_bit b)) (find_bit b)
  end-above =
      ground (arith, the_end.above, the_end.found, limit_bounds, find_bit-free valid some_left)

  -- While slots remain, a valid bitmap serves a request for a range that is not empty: it returns
  -- between 1 and `want` positions inside the bitmap, the first of them free before, and marks
  -- the ones that `set_bit_range` reaches.
  pub alloc_range_one-Claims :
      (index : ℕ) × (count : ℕ) × (b' : DramBitmap) × (alloc_range_one want b
        ≡ some ((index, count), b'))
      × Claims b want index count b'
  unfolding alloc_range_one take_range
  alloc_range_one-Claims =
      let s = find_bit b in
      let e = next_set_bit b.dram (range_limit b want s) s in
      (
        s + b.bit_offset,
        e - s,
        take_range b s e,
        ground (arith, end-above),
        record {
          position = s;
          index_eq = refl;
          nonempty = omega (arith, end-above);
          wanted = omega (arith, the_end.below, limit_bounds);
          in_range = omega (arith, the_end.below, the_end.above, limit_bounds);
          first_free = (find_bit-free valid some_left).1;
          bits = bit-set_bit_range s b.dram (e - s);
          hint = omega (arith, the_end.above);
        },
      )

  -- Slots in use do not end the range unless their position is a multiple of 8: where a valid
  -- bitmap with slots left has none such in the window of a request that is not empty, the whole
  -- window is returned, whichever other slots of it are in use.
  pub alloc_range_overlaps :
      ((k : ℕ)
        → find_bit b ≤ k
        → k < range_limit b want (find_bit b)
        → k % 8 ≡ 0
        → bit b.dram k ≡ false)
      → (b' : DramBitmap) × (alloc_range_one want b
          ≡ some ((find_bit b + b.bit_offset, range_limit b want (find_bit b) - find_bit b), b'))
  unfolding alloc_range_one
  alloc_range_overlaps free =
      let s = find_bit b in
      let e = next_set_bit b.dram (range_limit b want s) s in
      let whole : e ≡ range_limit b want s =
        ground (arith, the_end.above, the_end.below, the_end.found, free e) in
      (take_range b s e, ground (arith, end-above))
