-- ===== src/FileWrite/Extent.antt =====
-- The file after a write by new pages that one extent takes.
use slotfs_eurosys.FileLog.{LogState}
use slotfs_eurosys.Base.{
  true, false, some, inl, inr, refl, sym, ◌∙◌, ltb, ◌%◌, ◌&&◌, Bool-cases, ap, arith, leb, max, ◌≤◌,
  ◌⊎◌, ◌-◌, ◌≡◌, ◌/◌, ◌^◌, ◌*◌, ◌+◌, ◌<◌, List, ℕ,
}
use slotfs_eurosys.FileWrite.{data_pages, Filent, fill, data_fields, blocks_of, WriteState}
use slotfs_eurosys.FileWrite.Memory.{fill_head, fill_tail, fill_data, blocks_bounds, fill_outside}
use slotfs_eurosys.FileWrite.Stored.{
  stored_byte-some, WasStored, stored_byte, stored_byte_same, IsWritten, IsFresh,
}
use slotfs_eurosys.File.{FileInode, Filent}
use slotfs_eurosys.BTree.Grow.{contents}
use slotfs_eurosys.FileData.{filent_lookup, data_address}
use slotfs_eurosys.Slot.{DramBitmap}
use slotfs_eurosys.FileLog.Append.{Covers}
use slotfs_eurosys.Dir.{Error}

module _ (s : WriteState) (buf : ℕ → ℕ) (len offset nr : ℕ) (maps : List DramBitmap)
    (some_byte : 0 < len) (room : s.slot_table + (nr + blocks_of len offset) * 4096 < 2 ^ 64)
    (small : offset + len < 2 ^ 63) (fresh : IsFresh s nr (blocks_of len offset))
    (first_lookup : filent_lookup (data_fields s) (offset / 4096)
      ≡ contents s.log.file.b_root (offset / 4096))
    (last_lookup : filent_lookup (data_fields s) (offset / 4096 + blocks_of len offset - 1)
      ≡ contents s.log.file.b_root (offset / 4096 + blocks_of len offset - 1)) where
  abbrev pub taken : WriteState
  taken = record s { log = record s.log { data_maps = maps } }

  abbrev pub filled : WriteState
  filled = fill (offset + len) buf offset len (nr, blocks_of len offset) taken

  -- A page of the file keeps its bytes.
  page_same :
      (k : ℕ) (fe : Filent) (j : ℕ)
      → contents s.log.file.b_root k ≡ some fe
      → j < 4096
      → (let src = s.slot_table + data_address fe k j in
          (src < s.slot_table + nr * 4096)
          ⊎ (s.slot_table + nr * 4096 + blocks_of len offset * 4096 ≤ src))
  unfolding IsFresh
  page_same k fe j got lt = elim (fresh k fe got) [
    | inl below ↦ inl (omega (arith, below, lt))
    | inr above ↦ inr (omega (arith, above))
  ]

  -- Also on an error: the tree is as before.
  filled_same : (k : ℕ) → stored_byte filled k ≡ stored_byte s k
  unfolding fill
  filled_same k = stored_byte_same s filled k refl (λ fe got.
      fill_outside taken buf len offset nr some_byte room (omega (arith, small))
        (s.slot_table + data_address fe (k / 4096) (k % 4096))
        (page_same (k / 4096) fe (k % 4096) got (omega arith)))

  -- The tree has the entry `fe` for the new pages.
  module _ (log : LogState) (i_size ts : ℕ) (fe : Filent) (at_start : fe.l_idx ≡ offset / 4096)
      (at_page : fe.p_idx ≡ nr) (all_blocks : fe.blocks ≡ blocks_of len offset)
      (covers : Covers fe s.log.file.b_root log.file.b_root) where
    abbrev pub after : WriteState
    after = record filled { log = log; i_size = i_size; ts = ts }

    after_in :
        (k : ℕ)
        → offset / 4096 ≤ k / 4096
        → k / 4096 < offset / 4096 + blocks_of len offset
        → stored_byte after k
          ≡ filled.pm.byte (s.slot_table + nr * 4096 + (k - offset / 4096 * 4096))
    unfolding Covers fill
    after_in k lo hi =
        let test : leb fe.l_idx (k / 4096) && ltb (k / 4096) (fe.l_idx + fe.blocks) ≡ true =
          rw (at_start, all_blocks) (ground (arith, lo, hi)) in
        let got : contents log.file.b_root (k / 4096) ≡ some fe =
          covers (k / 4096) ∙ rw test refl in
        let address : s.slot_table + data_address fe (k / 4096) (k % 4096)
            ≡ s.slot_table + nr * 4096 + (k - offset / 4096 * 4096) =
          omega (arith, lo, at_start, at_page) in
        stored_byte-some after k got ∙ ap filled.pm.byte address

    after_out :
        (k : ℕ)
        → (k / 4096 < offset / 4096) ⊎ (offset / 4096 + blocks_of len offset ≤ k / 4096)
        → stored_byte after k ≡ stored_byte s k
    unfolding Covers fill
    after_out k out =
        let test : leb fe.l_idx (k / 4096) && ltb (k / 4096) (fe.l_idx + fe.blocks) ≡ false =
          rw (at_start, all_blocks)
            (elim out [ inl lt ↦ ground (arith, lt) | inr le ↦ ground (arith, le) ]) in
        let same : contents log.file.b_root (k / 4096) ≡ contents s.log.file.b_root (k / 4096) =
          covers (k / 4096) ∙ rw test refl in
        stored_byte_same s after k same (λ old got.
          fill_outside taken buf len offset nr some_byte room (omega (arith, small))
            (s.slot_table + data_address old (k / 4096) (k % 4096))
            (page_same (k / 4096) old (k % 4096) got (omega arith)))

    after_data : (i : ℕ) → i < len → stored_byte after (offset + i) ≡ buf i
    after_data i lt =
        let (pos, fits, tight) = blocks_bounds taken buf len offset nr some_byte room in
        let at : s.slot_table + nr * 4096 + (offset + i - offset / 4096 * 4096)
            ≡ s.slot_table + nr * 4096 + offset % 4096 + i =
          omega arith in
        after_in (offset + i) (omega arith) (omega (arith, lt, fits))
        ∙ ap filled.pm.byte at
        ∙ fill_data taken buf len offset nr some_byte room (omega (arith, small)) i lt

    after_head :
        (k : ℕ) (old : Filent)
        → k < offset
        → offset / 4096 ≤ k / 4096
        → contents s.log.file.b_root (k / 4096) ≡ some old
        → stored_byte after k ≡ stored_byte s k
    after_head k old before lo got =
        let (pos, fits, tight) = blocks_bounds taken buf len offset nr some_byte room in
        let blk : k / 4096 ≡ offset / 4096 = omega (arith, before, lo) in
        let at : k - offset / 4096 * 4096 ≡ k % 4096 = omega (arith, blk) in
        let here : filent_lookup (data_fields s) (offset / 4096) ≡ some old =
          first_lookup ∙ ap (contents s.log.file.b_root) (sym blk) ∙ got in
        let copied =
          fill_head taken buf len offset nr some_byte room (omega (arith, small)) old here
            (k % 4096) (omega (arith, before, blk)) in
        let same : data_pages s (data_address old (offset / 4096) (k % 4096))
            ≡ data_pages s (data_address old (k / 4096) (k % 4096)) =
          ap (λ b. data_pages s (data_address old b (k % 4096))) (sym blk) in
        after_in k lo (omega (arith, blk, pos))
        ∙ ap (λ d. filled.pm.byte (s.slot_table + nr * 4096 + d)) at
        ∙ copied
        ∙ same
        ∙ sym (stored_byte-some s k got)

    after_tail :
        (k : ℕ) (old : Filent)
        → offset + len ≤ k
        → k / 4096 < offset / 4096 + blocks_of len offset
        → contents s.log.file.b_root (k / 4096) ≡ some old
        → stored_byte after k ≡ stored_byte s k
    after_tail k old behind hi got =
        let (pos, fits, tight) = blocks_bounds taken buf len offset nr some_byte room in
        let last = offset / 4096 + blocks_of len offset - 1 in
        let blk : k / 4096 ≡ last = omega (arith, behind, hi, fits, tight, pos) in
        let at : s.slot_table + nr * 4096 + (k - offset / 4096 * 4096)
            ≡ s.slot_table + nr * 4096 + (blocks_of len offset - 1) * 4096 + k % 4096 =
          omega (arith, blk, pos) in
        let here : filent_lookup (data_fields s) last ≡ some old =
          last_lookup ∙ ap (contents s.log.file.b_root) (sym blk) ∙ got in
        let got_last : contents s.log.file.b_root last ≡ some old =
          ap (contents s.log.file.b_root) (sym blk) ∙ got in
        let copied =
          fill_tail taken buf len offset nr some_byte room (omega (arith, small)) old here
            (k % 4096) (omega (arith, behind, blk, fits, tight, pos)) (omega arith)
            (λ e. omega (arith, e, behind, hi, fits, tight, pos))
            (page_same last old (k % 4096) got_last (omega arith)) in
        let same : data_pages s (data_address old last (k % 4096))
            ≡ data_pages s (data_address old (k / 4096) (k % 4096)) =
          ap (λ b. data_pages s (data_address old b (k % 4096))) (sym blk) in
        after_in k (omega (arith, blk, pos)) hi
        ∙ ap filled.pm.byte at
        ∙ copied
        ∙ same
        ∙ sym (stored_byte-some s k got)

    after_rest :
        (k : ℕ)
        → (k < offset) ⊎ (offset + len ≤ k)
        → WasStored s len offset k
        → stored_byte after k ≡ stored_byte s k
    unfolding WasStored
    after_rest k out (inl below) = after_out k (inl below)
    after_rest k out (inr (inl above)) = after_out k (inr above)
    after_rest k (inl before) (inr (inr (old, got))) =
        elim (Bool-cases (leb (offset / 4096) (k / 4096))) [
          | inl le ↦ after_head k old before (ground (arith, le)) got
          | inr gt ↦ after_out k (inl (ground (arith, gt)))
        ]
    after_rest k (inr behind) (inr (inr (old, got))) =
        elim (Bool-cases (ltb (k / 4096) (offset / 4096 + blocks_of len offset))) [
          | inl lt ↦ after_tail k old behind (ground (arith, lt)) got
          | inr ge ↦ after_out k (inr (ground (arith, ge)))
        ]

    pub after-IsWritten :
        i_size ≡ max s.i_size (offset + len) → IsWritten buf len offset s (some (inl len, after))
    unfolding IsWritten
    after-IsWritten size = (refl, size, after_data, after_rest)

  -- On an error: the file's tree is as before, whatever else changed in its log.
  pub failed-IsWritten :
      (log : LogState) (ts : ℕ) (e : Error)
      → log.file ≡ s.log.file
      → IsWritten buf len offset s (some (inr e, record filled { log = log; ts = ts }))
  unfolding IsWritten fill
  failed-IsWritten log ts e same = (
    refl,
    λ k.
        stored_byte_same filled (record filled { log = log; ts = ts }) k
          (ap (λ (f : FileInode). contents f.b_root (k / 4096)) same) (λ fe got. refl)
        ∙ filled_same k,
  )
