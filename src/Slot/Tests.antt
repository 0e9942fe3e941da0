-- ===== src/Slot/Tests.antt =====
-- Witnesses and runs of the slot allocator on two bitmaps of 64 slots.
use slotfs_eurosys.Base.{
  [], ◌∷◌, zero, suc, true, false, none, some, inl, inr, refl, List, ℕ, if◌then◌else◌, ◌≤◌, ◌⊎◌,
  arith, eq_of_some, ◌==◌, ◌≡◌, get_elem?, ◌+◌, ◌*◌, ◌-◌, ◌<◌, ◌%◌,
}
use slotfs_eurosys.Slot.{
  slot_be_alloc, find_bit, range_limit, alloc_one, take_bit, alloc_range_one, do_slot_free, rotate,
  DramBitmap, do_slot_alloc,
}
use slotfs_eurosys.Slot.BestEffort.{slot_be_alloc_cases}
use slotfs_eurosys.Bitmap.{next_zero_loop, next_zero_bit, Bytes}
use slotfs_eurosys.Slot.RangeAlloc.{alloc_range_overlaps, alloc_range_one-Claims, Claims}
use slotfs_eurosys.Slot.Free.{do_slot_free-do_slot_alloc, IsLaidOut, SameSlots}
use slotfs_eurosys.Slot.Rotate.{do_slot_alloc_cases, Allocates, Every}
use slotfs_eurosys.Bitmap.Bits.{bit}
use slotfs_eurosys.Slot.Count.{IsValid, count_free}

abbrev no_slots : Bytes
no_slots i = 0

abbrev part : ℕ → DramBitmap
part offset = record { dram = no_slots; bit_offset = offset; bit_num = 64; remain = 64; hint = 0 }

abbrev two_parts : List DramBitmap
two_parts = part 0 ∷ part 64 ∷ []

part-IsValid : (offset : ℕ) → IsValid (part offset)
unfolding count_free bit slotfs_eurosys.Base.Bits.testbit
part-IsValid offset = record { hint_in = omega arith; small = omega arith; counted = refl }

two_parts-IsValid : Every IsValid two_parts
two_parts-IsValid zero b e = rw (← (eq_of_some e)) (part-IsValid 0)
two_parts-IsValid (suc zero) b e = rw (← (eq_of_some e)) (part-IsValid 64)
two_parts-IsValid (suc (suc c)) b e = absurd (cc)

two_parts-IsLaidOut : IsLaidOut 64 two_parts
two_parts-IsLaidOut = record {
  some_size = omega arith;
  first = λ b e. rw (← (eq_of_some e)) refl;
  offsets = sizes;
  starts = places;
}
  where
    sizes : Every (λ b. b.bit_num ≤ 64) two_parts
    sizes zero b e = rw (← (eq_of_some e)) (omega arith)
    sizes (suc zero) b e = rw (← (eq_of_some e)) (omega arith)
    sizes (suc (suc c)) b e = absurd (cc)

    places : (c : ℕ) (b : DramBitmap) → get_elem? two_parts c ≡ some b → b.bit_offset ≡ c * 64
    places zero b e = rw (← (eq_of_some e)) refl
    places (suc zero) b e = rw (← (eq_of_some e)) refl
    places (suc (suc c)) b e = absurd (cc)

alloc_run : do_slot_alloc 1 two_parts ≡ (some 64, part 0 ∷ take_bit (part 64) 0 ∷ [])
unfolding do_slot_alloc rotate alloc_one find_bit next_zero_bit next_zero_loop
alloc_run = refl

do_slot_alloc_cases_example :
    Allocates two_parts (do_slot_alloc 1 two_parts)
    ⊎ ((do_slot_alloc 1 two_parts ≡ (none, two_parts)) × Every (λ b. b.remain ≡ 0) two_parts)
do_slot_alloc_cases_example = do_slot_alloc_cases 1 two_parts (omega arith) two_parts-IsValid

do_slot_free-do_slot_alloc_example :
    SameSlots (do_slot_free (part 0 ∷ take_bit (part 64) 0 ∷ []) 64) two_parts
do_slot_free-do_slot_alloc_example =
    do_slot_free-do_slot_alloc 1 two_parts (omega arith) two_parts-IsLaidOut two_parts-IsValid
      alloc_run

alloc_range_one-Claims_example :
    (index : ℕ) × (count : ℕ) × (b' : DramBitmap) × (alloc_range_one 10 (part 64)
      ≡ some ((index, count), b'))
    × Claims (part 64) 10 index count b'
alloc_range_one-Claims_example =
    alloc_range_one-Claims (part-IsValid 64) 10 (omega arith) (omega arith)

-- slot 3 is in use
abbrev used_part : DramBitmap
used_part = record (part 0) { dram = λ i. if i == 0 then 8 else 0; remain = 63 }

used_part-IsValid : IsValid used_part
unfolding count_free bit slotfs_eurosys.Base.Bits.testbit
used_part-IsValid = record { hint_in = omega arith; small = omega arith; counted = refl }

window : (find_bit used_part ≡ 0) × (range_limit used_part 7 (find_bit used_part) ≡ 7)
unfolding find_bit next_zero_bit next_zero_loop range_limit
window = (refl, refl)

zero_free : bit used_part.dram 0 ≡ false
unfolding bit slotfs_eurosys.Base.Bits.testbit
zero_free = refl

at_multiples :
    (k : ℕ)
    → find_bit used_part ≤ k
    → k < range_limit used_part 7 (find_bit used_part)
    → k % 8 ≡ 0
    → bit used_part.dram k ≡ false
at_multiples k lo hi m = let z : k ≡ 0 = omega (arith, hi, window) in rw z zero_free

alloc_range_overlaps_example :
    (b' : DramBitmap) × (alloc_range_one 7 used_part
      ≡ some (
        (
          find_bit used_part + used_part.bit_offset,
          range_limit used_part 7 (find_bit used_part) - find_bit used_part,
        ),
        b',
      ))
alloc_range_overlaps_example =
    alloc_range_overlaps used_part-IsValid 7 (omega arith) (omega arith) at_multiples

slot_be_alloc_cases_example :
    Allocates two_parts (slot_be_alloc 1 two_parts)
    ⊎ ((slot_be_alloc 1 two_parts ≡ (none, two_parts)) × Every (λ b. b.remain ≡ 0) two_parts)
slot_be_alloc_cases_example = slot_be_alloc_cases 1 two_parts (omega arith) two_parts-IsValid
