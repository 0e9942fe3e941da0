-- ===== src/FileWrite/Atomic.antt =====
-- `inode_write_atomic` for more than a small piece of a page: the new data is there, or nothing has
-- changed.
use slotfs_eurosys.FileLog.{LogState, file_append_entry, filent_of}
use slotfs_eurosys.Base.{
  [], ◌∷◌, zero, suc, false, none, some, inl, inr, refl, ◌∙◌, ◌%◌, ap, ◌≤◌, ◌^◌, ◌*◌, Option, max,
  ◌⊎◌, ◌+◌, ◌-◌, arith, ◌==◌, ◌/◌, ◌<◌, ◌≡◌, List, ℕ,
}
use slotfs_eurosys.Base.Word.{sub64}
use slotfs_eurosys.FileWrite.{
  sub64, is_journaled, write_pages, inode_write_atomic, data_fields, filent_lookup, blocks_of,
  pm_filent, Choices, append_entries, Filent, finish_write, round_bytes, fill, do_slot_alloc_range,
  is_small_append, WriteState, EntryUnit, data_loop,
}
use slotfs_eurosys.FileLog.Append.{file_append_entry-Appended, Appended}
use slotfs_eurosys.FileWrite.Extent.{after-IsWritten, failed-IsWritten, filled}
use slotfs_eurosys.FileWrite.Memory.{blocks_bounds}
use slotfs_eurosys.FileWrite.Stored.{IsWritten, IsFresh}
use slotfs_eurosys.BTree.Place.{capacity}
use slotfs_eurosys.BTree.Grow.{contents}
use slotfs_eurosys.FileData.{filent_lookup}
use slotfs_eurosys.File.{Filent}
use slotfs_eurosys.Slot.{do_slot_alloc_range, DramBitmap}
use slotfs_eurosys.Dir.{Error}

data_loop-done :
    (rounds cpu end : ℕ) (buf : ℕ → ℕ) (c count : ℕ) (entries : List EntryUnit) (s : WriteState)
    → data_loop rounds cpu end buf c count 0 entries s ≡ some (entries, s)
unfolding data_loop
data_loop-done zero cpu end buf c count entries s = refl
data_loop-done (suc rounds) cpu end buf c count entries s = refl

-- One extent takes all the data.
data_loop-one :
    (rounds cpu end : ℕ) (buf : ℕ → ℕ) (c count nr num_blk : ℕ) (maps : List DramBitmap)
    (s : WriteState)
    → 0 < num_blk
    → is_small_append s c num_blk ≡ false
    → do_slot_alloc_range cpu s.log.data_maps num_blk ≡ (some (nr, num_blk), maps)
    → data_loop (suc rounds) cpu end buf c count num_blk [] s
      ≡ some (
        record { blocks = num_blk; l_idx = c / 4096; p_idx = nr } ∷ [],
        fill end buf c
            (round_bytes count c num_blk)
            (nr, num_blk)
            (record s { log = record s.log { data_maps = maps } }),
      )
unfolding data_loop
data_loop-one rounds cpu end buf c count nr num_blk maps s pos big served =
    let more : num_blk == 0 ≡ false = ground (arith, pos) in
    let none_left : num_blk - num_blk ≡ 0 = omega arith in
    rw (served, more, big, none_left)
      (data_loop-done rounds cpu end (λ i. buf (round_bytes count c num_blk + i))
        (c + round_bytes count c num_blk) (count - round_bytes count c num_blk)
        (record { blocks = num_blk; l_idx = c / 4096; p_idx = nr } ∷ [])
        (fill end buf c (round_bytes count c num_blk) (nr, num_blk)
          (record s { log = record s.log { data_maps = maps } })))

-- The end of the write, from what the call of `file_append_entry` returned.
finished : ℕ → ℕ → WriteState → (Filent ⊎ Error) × LogState → (ℕ ⊎ Error) × WriteState
finished len offset s (inr e, log) = (inr e, record s { log = log; ts = s.ts + 1 })
finished len offset s (inl fe, log) =
    (inl len, record s { log = log; ts = s.ts + 1; i_size = max s.i_size (offset + len) })

finish_write-one :
    (choices : Choices) (len offset : ℕ) (unit : EntryUnit) (s : WriteState)
    → finish_write choices len offset (unit ∷ [], s)
      ≡ finished len offset s (
          file_append_entry
            (choices.few 0)
            (choices.memory 0)
            false
            (choices.cpu 0)
            (pm_filent unit (s.ts + 1))
            s.log)
unfolding finish_write append_entries finished
finish_write-one choices len offset unit s = go (
    file_append_entry (choices.few 0) (choices.memory 0) false (choices.cpu 0)
      (pm_filent unit (s.ts + 1)) s.log)
  where
    go :
        (r : (Filent ⊎ Error) × LogState)
        → (let (failed, log) : Option Error × LogState = elim r.0 [
          | inr e ↦ (some e, r.1)
          | inl fe ↦ append_entries choices (s.ts + 1) 1 [] r.1
        ] in
            let s' = record s { log = log; ts = s.ts + 1 } in
            let done : (ℕ ⊎ Error) × WriteState = elim failed [
              | some e ↦ (inr e, s')
              | none ↦ (inl len, record s' { i_size = max s'.i_size (offset + len) })
            ] in
            done)
          ≡ finished len offset s r
    go (inl fe, log) = refl
    go (inr e, log) = refl

module _ (choices : Choices) (cpu : ℕ) (s : WriteState) (buf : ℕ → ℕ) (len offset nr : ℕ)
    (maps : List DramBitmap) (some_byte : 0 < len)
    (room : s.slot_table + (nr + blocks_of len offset) * 4096 < 2 ^ 64)
    (small : offset + len < 2 ^ 63) (fresh : IsFresh s nr (blocks_of len offset))
    (first_lookup : filent_lookup (data_fields s) (offset / 4096)
      ≡ contents s.log.file.b_root (offset / 4096))
    (last_lookup : filent_lookup (data_fields s) (offset / 4096 + blocks_of len offset - 1)
      ≡ contents s.log.file.b_root (offset / 4096 + blocks_of len offset - 1)) where
  abbrev unit : EntryUnit
  unit = record { blocks = blocks_of len offset; l_idx = offset / 4096; p_idx = nr }

  abbrev s_filled : WriteState
  s_filled = filled s buf len offset nr maps some_byte room small fresh first_lookup last_lookup

  finished-IsWritten :
      (ts : ℕ) (r : (Filent ⊎ Error) × LogState)
      → nr + blocks_of len offset ≤ 2 ^ 32
      → offset / 4096 + blocks_of len offset < 2 ^ 32
      → Appended (choices.few 0) (pm_filent unit ts) s_filled.log r
      → IsWritten buf len offset s (some (finished len offset s_filled r))
  unfolding finished Appended fill filent_of
  finished-IsWritten ts (inr e, log) pages blocks (same, _, _, _, _) =
      failed-IsWritten s buf len offset nr maps some_byte room small fresh first_lookup last_lookup
        log (s.ts + 1) e same
  finished-IsWritten ts (inl fe, log) pages blocks (covers, form, _, _) =
      let (pos, fits, tight) = blocks_bounds s buf len offset nr some_byte room in
      let l : offset / 4096 % 2 ^ 32 ≡ offset / 4096 = omega (arith, blocks) in
      let p : nr % 2 ^ 32 ≡ nr = omega (arith, pages, pos) in
      let n : blocks_of len offset % 2 ^ 32 ≡ blocks_of len offset = omega (arith, blocks) in
      after-IsWritten s buf len offset nr maps some_byte room small fresh first_lookup last_lookup
        log (max s.i_size (offset + len)) (s.ts + 1) fe (ap (λ (f : Filent). f.l_idx) form ∙ l)
        (ap (λ (f : Filent). f.p_idx) form ∙ p) (ap (λ (f : Filent). f.blocks) form ∙ n) covers refl

  finish_write-IsWritten :
      s.log.file.b_root.height ≤ 6
      → nr + blocks_of len offset ≤ 2 ^ 32
      → offset / 4096 + blocks_of len offset < 2 ^ 32
      → IsWritten buf len offset s (some (finish_write choices len offset (unit ∷ [], s_filled)))
  unfolding fill capacity
  finish_write-IsWritten low pages blocks =
      let (pos, fits, tight) = blocks_bounds s buf len offset nr some_byte room in
      rw (finish_write-one choices len offset unit s_filled) (
        finished-IsWritten (s.ts + 1)
          (file_append_entry (choices.few 0) (choices.memory 0) false (choices.cpu 0)
            (pm_filent unit (s.ts + 1)) s_filled.log)
          pages blocks
          (file_append_entry-Appended (choices.few 0) (choices.memory 0) false (choices.cpu 0)
            (pm_filent unit (s.ts + 1)) s_filled.log low (omega (arith, blocks, pos))
            (omega (arith, blocks))))

  -- A write that is not journaled and not a small one at the end of the file. Let the tree have
  -- height 6 at most, and the first and last block of the write be found in it just if the file has
  -- them; let the write be of at least one byte, end below byte 2 ^ 63 and block 2 ^ 32, and the
  -- allocator serve it by one extent, below address 2 ^ 64 and with pages below 2 ^ 32, none of
  -- which the file has. Then `inode_write_atomic` returns. Either it returns the length; the size
  -- is the larger of the old one and where the write ended, the file has the bytes of the buffer
  -- there, and elsewhere those that it had, in all blocks outside the write and in those that had a
  -- page. Or it returns an error, and the size and all bytes of the file are as before.
  pub inode_write_atomic-IsWritten :
      s.log.file.b_root.height ≤ 6
      → nr + blocks_of len offset ≤ 2 ^ 32
      → offset / 4096 + blocks_of len offset < 2 ^ 32
      → is_journaled len offset s ≡ false
      → is_small_append s offset (blocks_of len offset) ≡ false
      → do_slot_alloc_range cpu s.log.data_maps (blocks_of len offset)
        ≡ (some (nr, blocks_of len offset), maps)
      → IsWritten buf len offset s (inode_write_atomic choices cpu buf len offset s)
  unfolding inode_write_atomic write_pages round_bytes
  inode_write_atomic-IsWritten low pages blocks large big served =
      let (pos, fits, tight) = blocks_bounds s buf len offset nr some_byte room in
      let n = blocks_of len offset in
      let rounds : n ≡ suc (n - 1) = omega (arith, pos) in
      let space : sub64 (4096 * n) (offset % 4096) ≡ 4096 * n - offset % 4096 =
        omega (arith, room, fits, some_byte) in
      let all : round_bytes len offset n ≡ len = ground (arith, space, fits) in
      let loop =
        data_loop-one (n - 1) cpu (offset + len) buf offset len nr n maps s pos big served in
      let looped : data_loop n cpu (offset + len) buf offset len n [] s
          ≡ some (unit ∷ [], s_filled) =
        ap (λ r. data_loop r cpu (offset + len) buf offset len n [] s) rounds
        ∙ loop
        ∙ ap
            (λ b. some (
              unit ∷ [],
              fill (offset + len) buf offset b (nr, n)
                  (record s { log = record s.log { data_maps = maps } }),
            ))
            all in
      rw (large, write_pages, looped) (finish_write-IsWritten low pages blocks)
