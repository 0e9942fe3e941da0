-- ===== src/Slot/Free.antt =====
-- Freeing slots, and allocating and freeing again.
use slotfs_eurosys.Base.{
  ℕ, ◌+◌, ◌<◌, ◌≡◌, true, arith, ◌==◌, inl, inr, Bool-cases, ◌*◌, ◌∙◌, length, get_elem?, set,
  get_of_lt, get_elem?-set_self, get_elem?-set_ne, lt_length_of_get, List, ◌/◌, ◌%◌, Option, some,
  ◌≤◌, ap, eq_of_some, sym, length-set, ◌≢◌, refl,
}
use slotfs_eurosys.Slot.Rotate.{do_slot_alloc_cases, Every, Allocates}
use slotfs_eurosys.Slot.{do_slot_alloc, do_slot_free, on_bitmap, DramBitmap, free_bit}
use native.Mathlib.Nat.{add-mul-div_right, div-eq_of_lt, add-mul-mod_self_right, mod-eq_of_lt}
use slotfs_eurosys.Bitmap.{clear_bit}
use slotfs_eurosys.Bitmap.Bits.{bit, bit-clear_bit}
use slotfs_eurosys.Slot.Count.{IsValid, count_free, count_free-le, count_free_flip}
use slotfs_eurosys.Slot.Alloc.{Takes}

module _ {b : DramBitmap} (valid : IsValid b) (k : ℕ) (h : k < b.bit_num)
    (used : bit b.dram k ≡ true) where
  count_free-clear : count_free (clear_bit k b.dram) b.bit_num ≡ b.remain + 1
  count_free-clear = omega (
    arith,
    valid.counted,
    count_free_flip b.dram (clear_bit k b.dram) b.bit_num k h used (rw bit-clear_bit (ground arith))
        (λ j ne. rw bit-clear_bit (rw ne)),
  )

  -- freeing a slot in use keeps the bitmap valid
  pub free_bit-IsValid : IsValid (free_bit b k)
  unfolding free_bit
  free_bit-IsValid = record {
    hint_in = valid.hint_in;
    small = valid.small;
    counted =
        omega (arith, count_free-clear, valid.small, count_free-le (clear_bit k b.dram) b.bit_num);
  }

-- Freeing the slot that was just taken leaves every bit and `remain` as they were before.
pub free_bit-Takes :
    {b : DramBitmap} {index : ℕ} {b' : DramBitmap} (t : Takes b index b')
    → IsValid b
    → IsValid (free_bit b' t.position)
      × ((free_bit b' t.position).remain ≡ b.remain)
      × ((j : ℕ) → bit (free_bit b' t.position).dram j ≡ bit b.dram j)
unfolding free_bit
free_bit-Takes {b} {b'} t valid =
    let k = t.position in
    let used : bit b'.dram k ≡ true = rw t.bits (ground arith) in
    let lt : k < b'.bit_num = omega (arith, t.size, t.in_range) in
    (
      free_bit-IsValid t.valid k lt used,
      omega (arith, t.remain, valid.counted, valid.small, count_free-le b.dram b.bit_num),
      λ j.
          rw (bit-clear_bit, t.bits)
            (elim (Bool-cases (k == j)) [
              | inl e ↦ let q : k ≡ j = ground arith in ground (arith, t.was_free)
              | inr e ↦ rw e
            ]),
    )

-- The slots are numbered through the bitmaps, which are no larger than the first one.
pub record IsLaidOut (size : ℕ) (bitmaps : List DramBitmap) : Type 0 where
  pub some_size : 0 < size
  pub first : (b : DramBitmap) → get_elem? bitmaps 0 ≡ some b → b.bit_num ≡ size
  pub offsets : Every (λ b. b.bit_num ≤ size) bitmaps
  pub starts : (c : ℕ) (b : DramBitmap) → get_elem? bitmaps c ≡ some b → b.bit_offset ≡ c * size

-- Every bitmap of `ys` has its bits and its count in `xs` too.
abbrev pub SameSlots : List DramBitmap → List DramBitmap → Type 0
SameSlots xs ys =
    (c : ℕ) (b : DramBitmap)
    → get_elem? ys c ≡ some b
    → (b' : DramBitmap) × (get_elem? xs c ≡ some b')
      × (b'.remain ≡ b.remain)
      × ((j : ℕ) → bit b'.dram j ≡ bit b.dram j)

pub on_bitmap-set :
    (update : DramBitmap → ℕ → DramBitmap) (bitmaps : List DramBitmap) (index : ℕ)
    (f b : DramBitmap)
    → get_elem? bitmaps 0 ≡ some f
    → get_elem? bitmaps (index / f.bit_num) ≡ some b
    → on_bitmap update bitmaps index
      ≡ set bitmaps (index / f.bit_num) (update b (index % f.bit_num))
unfolding on_bitmap
on_bitmap-set update bitmaps index f b first got = rw (first, on_bitmap, got)

module _ {size : ℕ} {bitmaps : List DramBitmap} (laid : IsLaidOut size bitmaps)
    {r : Option ℕ × List DramBitmap} (a : Allocates bitmaps r) where
  slot_index : (a.index / size ≡ a.place) × (a.index % size ≡ a.takes.position)
  slot_index =
      let lt : a.takes.position < size =
        omega (arith, a.takes.in_range, laid.offsets a.place a.before a.was) in
      let e : a.index ≡ a.takes.position + a.place * size =
        omega (arith, a.takes.index_eq, laid.starts a.place a.before a.was) in
      rw e (
        add-mul-div_right a.takes.position a.place laid.some_size
            ∙ (rw (div-eq_of_lt lt) (omega arith)),
        add-mul-mod_self_right a.takes.position a.place size ∙ mod-eq_of_lt lt,
      )

  place_lt : a.place < length bitmaps
  place_lt = lt_length_of_get bitmaps a.place a.was

  after_here : get_elem? (set bitmaps a.place a.after) a.place ≡ some a.after
  after_here = get_elem?-set_self bitmaps a.place a.after place_lt

  first_after :
      (f : DramBitmap) × (get_elem? (set bitmaps a.place a.after) 0 ≡ some f) × (f.bit_num ≡ size)
  first_after = elim (Bool-cases (a.place == 0)) [
    | inl e ↦
        let z : a.place ≡ 0 = ground arith in
        (
          a.after,
          ap (get_elem? (set bitmaps a.place a.after)) (sym z) ∙ after_here,
          a.takes.size ∙ laid.first a.before (ap (get_elem? bitmaps) (sym z) ∙ a.was),
        )
    | inr e ↦
        let (f, got) = get_of_lt bitmaps 0 (omega (arith, place_lt)) in
        (f, get_elem?-set_ne bitmaps a.after (ground arith) ∙ got, laid.first f got)
  ]

  free_result :
      do_slot_free (set bitmaps a.place a.after) a.index
      ≡ set (set bitmaps a.place a.after) a.place (free_bit a.after a.takes.position)
  unfolding do_slot_free
  free_result =
      let (f, got, wide) = first_after in
      let place : a.index / f.bit_num ≡ a.place = rw wide slot_index.0 in
      let position : a.index % f.bit_num ≡ a.takes.position = rw wide slot_index.1 in
      let e =
        on_bitmap-set free_bit (set bitmaps a.place a.after) a.index f a.after got
          (rw place after_here) in
      rw (place, position) at e

  restored :
      IsValid a.before
      → SameSlots
          (set (set bitmaps a.place a.after) a.place (free_bit a.after a.takes.position))
          bitmaps
  restored valid c b e = elim (Bool-cases (a.place == c)) [
    | inl here ↦
        let z : a.place ≡ c = ground arith in
        let same : a.before ≡ b = eq_of_some (sym a.was ∙ ap (get_elem? bitmaps) z ∙ e) in
        let (v, remain, bits) = free_bit-Takes a.takes valid in
        let after = set bitmaps a.place a.after in
        let freed = free_bit a.after a.takes.position in
        let inside : a.place < length after =
          omega (arith, place_lt, length-set bitmaps a.place a.after) in
        (
          freed,
          ap (get_elem? (set after a.place freed)) (sym z)
              ∙ get_elem?-set_self after a.place freed inside,
          rw (← same) remain,
          λ j. rw (← same) (bits j),
        )
    | inr other ↦
        let ne : a.place ≢ c = ground arith in
        (
          b,
          get_elem?-set_ne (set bitmaps a.place a.after) (free_bit a.after a.takes.position) ne
              ∙ get_elem?-set_ne bitmaps a.after ne
              ∙ e,
          refl,
          λ j. refl,
        )
  ]

-- Over at least one bitmap, all valid and laid out one after another, freeing the slot that
-- `do_slot_alloc` has just returned restores the bits and the count of every bitmap.
pub do_slot_free-do_slot_alloc :
    {size : ℕ} (cpu : ℕ) (bitmaps : List DramBitmap)
    → 0 < length bitmaps
    → IsLaidOut size bitmaps
    → Every IsValid bitmaps
    → {index : ℕ} {bitmaps' : List DramBitmap} → do_slot_alloc cpu bitmaps ≡ (some index, bitmaps')
    → SameSlots (do_slot_free bitmaps' index) bitmaps
do_slot_free-do_slot_alloc cpu bitmaps some_map laid valid {index} {bitmaps'} e =
    elim (do_slot_alloc_cases cpu bitmaps some_map valid) [
      | inl a ↦
          let r = sym e ∙ a.result in
          let i : index ≡ a.index = eq_of_some (ap (λ (t : Option ℕ × List DramBitmap). t.0) r) in
          let l : bitmaps' ≡ set bitmaps a.place a.after =
            ap (λ (t : Option ℕ × List DramBitmap). t.1) r in
          rw (i, l, free_result laid a) (restored laid a (valid a.place a.before a.was))
      | inr (r, empty) ↦ absurd (cc (sym e ∙ r))
    ]
