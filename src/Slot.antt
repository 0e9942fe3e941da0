-- ===== src/Slot.antt =====
-- slotfs/slot.c: the slot allocator. A slot type has `map_num` bitmaps, each over a part of the
-- slots; `bitmaps` is the list of them, and `map_num` its length. `cpu` is what `sched_getcpu`
-- returns. Each function takes `s_lock` round its work on a bitmap, so it is one step here. The
-- index -1 is `none`.
pub mod Count
pub mod Alloc
pub mod Rotate
pub mod Free
pub mod BestEffort
pub mod Cache
pub mod RangeAlloc
mod Tests
use slotfs_eurosys.Base.{
  ℕ, zero, suc, ◌+◌, ◌-◌, ◌/◌, ◌%◌, ◌==◌, ltb, leb, if◌then◌else◌, Option, none, some, List, [],
  ◌∷◌, length, get_elem?, set, true, false, inl, inr, refl, Bool, ◌*◌, ◌&&◌,
}
use slotfs_eurosys.Bitmap.{
  check_bit, Bytes, set_bit, clear_bit, set_bit_range, clear_bit_range, next_zero_bit, next_set_bit,
}
use slotfs_eurosys.Base.Word.{add64, sub64}

pub record DramBitmap : Type 0 where
  pub dram : Bytes
  pub bit_offset : ℕ
  pub bit_num : ℕ
  pub remain : ℕ
  pub hint : ℕ

-- The two scans, from the hint and then from the start up to the hint.
unfoldable pub find_bit : DramBitmap → ℕ
find_bit b =
    let bit = next_zero_bit b.dram b.bit_num b.hint in
    if leb b.bit_num bit then next_zero_bit b.dram b.hint 0 else bit

-- The update under the lock, once a bit is chosen.
unfoldable pub take_bit : DramBitmap → ℕ → DramBitmap
take_bit b bit = record b { dram = set_bit bit b.dram; remain = sub64 b.remain 1; hint = bit + 1 }

-- The body of the loop of `do_slot_alloc`: `none` goes on to the next bitmap.
unfoldable pub alloc_one : DramBitmap → Option (ℕ × DramBitmap)
alloc_one b =
    if ltb 0 b.remain
    then (let bit = find_bit b in
        if ltb bit b.bit_num then some (bit + b.bit_offset, take_bit b bit) else none)
    else none

-- The do-while loop, for `rounds` more bitmaps from `current` on.
unfoldable pub rotate {ℓ} :
    {A : Type ℓ}
    → (DramBitmap → Option (A × DramBitmap))
    → ℕ
    → ℕ
    → List DramBitmap
    → Option A × List DramBitmap
rotate step zero current bitmaps = (none, bitmaps)
rotate step (suc rounds) current bitmaps = elim (get_elem? bitmaps current) [
  | none ↦ (none, bitmaps)
  | some b ↦ elim (step b) [
    | some (index, b') ↦ (some index, set bitmaps current b')
    | none ↦ rotate step rounds ((current + 1) % length bitmaps) bitmaps
  ]
]

unfoldable pub do_slot_alloc : ℕ → List DramBitmap → Option ℕ × List DramBitmap
do_slot_alloc cpu bitmaps = rotate alloc_one (length bitmaps) (cpu % length bitmaps) bitmaps

abbrev pub search_round : ℕ
search_round = 10

-- `*chunk == 0`: `count` bytes from `start` on are 0.
unfoldable pub chunk_zero : Bytes → ℕ → ℕ → Bool
chunk_zero bmp start zero = true
chunk_zero bmp start (suc count) = (bmp start == 0) && chunk_zero bmp (start + 1) count

-- A loop of `slot_be_alloc` over chunks of `width` bits from the `i`th on, with the chunks that are
-- left; the position taken, if there is one.
unfoldable pub chunk_scan : Bytes → ℕ → ℕ → ℕ → ℕ → Option ℕ
chunk_scan bmp width zero i round = none
chunk_scan bmp width (suc left) i round =
    let rest = chunk_scan bmp width left (i + 1) (round + 1) in
    if ltb search_round round
    then none
    else if chunk_zero bmp (i * (width / 8)) (width / 8)
    then some (i * width)
    else rest

-- The body of the loop of `slot_be_alloc`: 64 free slots in a row, or 16, or one.
unfoldable pub be_alloc_one : DramBitmap → Option (ℕ × DramBitmap)
be_alloc_one b =
    if ltb 0 b.remain
    then elim (chunk_scan b.dram 64 (b.bit_num / 64) 0 0) [
      | some bit ↦ some (bit + b.bit_offset, take_bit b bit)
      | none ↦ elim (chunk_scan b.dram 16 (b.bit_num / 16) 0 0) [
        | some bit ↦ some (bit + b.bit_offset, take_bit b bit)
        | none ↦
            let bit = find_bit b in
            if ltb bit b.bit_num then some (bit + b.bit_offset, take_bit b bit) else none
      ]
    ]
    else none

unfoldable pub slot_be_alloc : ℕ → List DramBitmap → Option ℕ × List DramBitmap
slot_be_alloc cpu bitmaps = rotate be_alloc_one (length bitmaps) (cpu % length bitmaps) bitmaps

unfoldable pub free_bit : DramBitmap → ℕ → DramBitmap
free_bit b bit = record b { dram = clear_bit bit b.dram; remain = add64 b.remain 1 }

-- `update` on the bitmap that holds `index`, with the position there. The bitmaps have the size of
-- the first one, except for the last. An index past the last bitmap changes nothing: so the test in
-- `do_slot_free`; `do_slot_free_range` makes no test and would leave the array.
unfoldable pub on_bitmap : (DramBitmap → ℕ → DramBitmap) → List DramBitmap → ℕ → List DramBitmap
on_bitmap update bitmaps index = elim (get_elem? bitmaps 0) [
  | none ↦ bitmaps
  | some first ↦
      let bitmap_index = index / first.bit_num in
      let bit = index % first.bit_num in
      elim (get_elem? bitmaps bitmap_index) [
        | none ↦ bitmaps
        | some b ↦ set bitmaps bitmap_index (update b bit)
      ]
]

-- The work on a cached slot: a slot in use is left as it is.
unfoldable pub take_cached : DramBitmap → ℕ → DramBitmap
take_cached b bit =
    if check_bit bit b.dram == 0
    then record b { dram = set_bit bit b.dram; remain = sub64 b.remain 1 }
    else b

unfoldable pub chunk_size : ℕ → ℕ
chunk_size cache = if cache % 64 == 0 then 64 else if cache % 16 == 0 then 16 else 1

-- The index, the new offset and the bitmaps. `cache` and `offset` are not negative.
unfoldable pub slot_try_cache_alloc : List DramBitmap → ℕ → ℕ → Option ℕ × ℕ × List DramBitmap
slot_try_cache_alloc bitmaps cache offset =
    if (cache == 0) && (offset == 0)
    then (none, offset, bitmaps)
    else if leb (chunk_size cache) offset
    then (none, offset, bitmaps)
    else (let bit_idx = cache + offset in
        (some bit_idx, offset + 1, on_bitmap take_cached bitmaps bit_idx))

unfoldable pub do_slot_free : List DramBitmap → ℕ → List DramBitmap
do_slot_free bitmaps index = on_bitmap free_bit bitmaps index

-- Where the search for the end of the range stops.
unfoldable pub range_limit : DramBitmap → ℕ → ℕ → ℕ
range_limit b count range_start =
    range_start + (if ltb (b.bit_num - range_start) count then b.bit_num - range_start else count)

unfoldable pub take_range : DramBitmap → ℕ → ℕ → DramBitmap
take_range b range_start range_end =
    let found_count = range_end - range_start in
    record b {
      dram = set_bit_range range_start b.dram found_count;
      hint = range_end;
      remain = sub64 b.remain found_count;
    }

-- The body of the loop of `do_slot_alloc_range`: the index and what goes through `count`. A scan
-- that fails leaves `range_start` at the hint, which is at most `bit_num`, so the subtractions from
-- `bit_num` and from `range_end` do not wrap.
unfoldable pub alloc_range_one : ℕ → DramBitmap → Option ((ℕ × ℕ) × DramBitmap)
alloc_range_one count b =
    if ltb 0 b.remain
    then (let range_start = find_bit b in
        let range_end = next_set_bit b.dram (range_limit b count range_start) range_start in
        if range_end - range_start == 0
        then none
        else some (
          (range_start + b.bit_offset, range_end - range_start),
          take_range b range_start range_end,
        ))
    else none

-- `none` is the result -1 with 0 in `count`.
unfoldable pub do_slot_alloc_range : ℕ → List DramBitmap → ℕ → Option (ℕ × ℕ) × List DramBitmap
do_slot_alloc_range cpu bitmaps count =
    rotate (alloc_range_one count) (length bitmaps) (cpu % length bitmaps) bitmaps

unfoldable pub free_range : DramBitmap → ℕ → ℕ → DramBitmap
free_range b bit count = record b {
  dram = clear_bit_range bit b.dram count;
  remain = add64 b.remain count;
}

unfoldable pub do_slot_free_range : List DramBitmap → ℕ → ℕ → List DramBitmap
do_slot_free_range bitmaps index count = on_bitmap (λ b bit. free_range b bit count) bitmaps index
