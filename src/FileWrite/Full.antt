-- ===== src/FileWrite/Full.antt =====
-- A write when the data pages are all in use: the tests of the page's number against 0 do not see it.
use slotfs_eurosys.Base.{
  [], ◌∷◌, zero, suc, false, none, refl, ℕ, List, ◌%◌, ◌≡◌, arith, ◌<◌, ◌==◌, ◌+◌, ◌-◌, ◌++◌, ◌/◌,
}
use slotfs_eurosys.Dir.{minus_one}
use slotfs_eurosys.FileWrite.{
  fill, is_small_append, do_slot_alloc_range, WriteState, EntryUnit, data_loop, round_bytes,
}
use slotfs_eurosys.Slot.{do_slot_alloc_range}

no_bytes : (count c : ℕ) → c % 4096 ≡ 0 → round_bytes count c 0 ≡ 0
unfolding round_bytes
no_bytes count c aligned = rw aligned (ground arith)

not_small : (s : WriteState) (c num_blk : ℕ) → c % 4096 ≡ 0 → is_small_append s c num_blk ≡ false
unfolding is_small_append
not_small s c num_blk aligned = rw aligned (ground arith)

-- Where the allocator has no page for the blocks that are left and changes nothing, the loop of a
-- write at the start of a page does not end, whatever the number of rounds.
pub data_loop_full :
    (rounds cpu end : ℕ) (buf : ℕ → ℕ) (c count num_blk : ℕ) (entries : List EntryUnit)
    (s : WriteState)
    → c % 4096 ≡ 0
    → 0 < num_blk
    → do_slot_alloc_range cpu s.log.data_maps num_blk ≡ (none, s.log.data_maps)
    → data_loop rounds cpu end buf c count num_blk entries s ≡ none
unfolding data_loop fill
data_loop_full zero cpu end buf c count num_blk entries s aligned pos full =
    let more : num_blk == 0 ≡ false = ground (arith, pos) in rw more refl
data_loop_full (suc rounds) cpu end buf c count num_blk entries s aligned pos full =
    let more : num_blk == 0 ≡ false = ground (arith, pos) in
    let large : is_small_append s c num_blk ≡ false = not_small s c num_blk aligned in
    let bytes = round_bytes count c 0 in
    let same : num_blk - 0 ≡ num_blk = omega arith in
    let stays : (c + bytes) % 4096 ≡ 0 = omega (arith, aligned, no_bytes count c aligned) in
    rw (full, more, large)
      (data_loop_full rounds cpu end (λ i. buf (bytes + i)) (c + bytes) (count - bytes)
        (num_blk - 0) (entries ++ (record { blocks = 0; l_idx = c / 4096; p_idx = minus_one } ∷ []))
        (fill end buf c bytes (minus_one, 0) s) stays (omega (arith, pos)) (rw same full))
