-- ===== src/Slot/Cache.antt =====
-- `slot_try_cache_alloc`: the next slot of a chunk.
use slotfs_eurosys.Base.{
  leb, true, none, some, inl, inr, refl, List, ℕ, ◌<◌, get_elem?, ◌≡◌, Bool-cases, ◌+◌, ◌/◌, ◌%◌,
  ◌⊎◌, arith, lt_length_of_get, ◌==◌, ◌&&◌, set, get_elem?-set_self,
}
use slotfs_eurosys.Slot.Rotate.{Every-set, Every}
use slotfs_eurosys.Slot.{chunk_size, take_bit, DramBitmap, slot_try_cache_alloc, take_cached}
use slotfs_eurosys.Slot.Free.{on_bitmap-set}
use slotfs_eurosys.Bitmap.Bits.{bit-set_bit, check_bit-eq-zero, bit}
use slotfs_eurosys.Slot.Alloc.{take_bit-IsValid}
use slotfs_eurosys.Slot.Count.{IsValid}

-- the bitmap stays valid, whether the slot is in use or not, and then the slot is in use
take_cached-IsValid :
    {b : DramBitmap} (valid : IsValid b) (k : ℕ)
    → k < b.bit_num
    → IsValid (take_cached b k) × (bit (take_cached b k).dram k ≡ true)
unfolding take_cached take_bit
take_cached-IsValid {b} valid k lt = elim (Bool-cases (bit b.dram k)) [
  | inl used ↦ rw (check_bit-eq-zero, used, take_cached) (valid, used)
  | inr free ↦
      let taken = take_bit-IsValid valid k lt free in
      rw (check_bit-eq-zero, free, take_cached)
        (
          record { hint_in = valid.hint_in; small = valid.small; counted = taken.counted },
          rw bit-set_bit (ground arith),
        )
]

-- Over valid bitmaps `slot_try_cache_alloc` gives up and changes nothing, or it returns the slot
-- `cache + offset`, moves `offset` on and leaves the bitmaps valid, the slot being in use then,
-- provided that the slot lies in one of them.
pub slot_try_cache_alloc_cases :
    (bitmaps : List DramBitmap) (cache offset : ℕ) {first b : DramBitmap}
    → Every IsValid bitmaps
    → get_elem? bitmaps 0 ≡ some first
    → get_elem? bitmaps ((cache + offset) / first.bit_num) ≡ some b
    → (cache + offset) % first.bit_num < b.bit_num
    → (slot_try_cache_alloc bitmaps cache offset ≡ (none, offset, bitmaps))
      ⊎ ((bitmaps' : List DramBitmap) × (b' : DramBitmap) × (slot_try_cache_alloc bitmaps cache
              offset
            ≡ (some (cache + offset), offset + 1, bitmaps'))
          × Every IsValid bitmaps'
          × (get_elem? bitmaps' ((cache + offset) / first.bit_num) ≡ some b')
          × (bit b'.dram ((cache + offset) % first.bit_num) ≡ true))
unfolding slot_try_cache_alloc
slot_try_cache_alloc_cases bitmaps cache offset {first} {b} valid at_first got inside =
    let place = (cache + offset) / first.bit_num in
    let k = (cache + offset) % first.bit_num in
    let lt = lt_length_of_get bitmaps place got in
    let (v, used) = take_cached-IsValid (valid place b got) k inside in
    let e = on_bitmap-set take_cached bitmaps (cache + offset) first b at_first got in
    elim (Bool-cases ((cache == 0) && (offset == 0))) [
      | inl empty ↦ inl (rw (empty, slot_try_cache_alloc) refl)
      | inr cached ↦ elim (Bool-cases (leb (chunk_size cache) offset)) [
        | inl over ↦ inl (rw (cached, over, slot_try_cache_alloc) refl)
        | inr more ↦ inr (
          set bitmaps place (take_cached b k),
          take_cached b k,
          rw (cached, more, slot_try_cache_alloc, e) refl,
          Every-set bitmaps place (take_cached b k) lt valid v,
          get_elem?-set_self bitmaps place (take_cached b k) lt,
          used,
        )
      ]
    ]
