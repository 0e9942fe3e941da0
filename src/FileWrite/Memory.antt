-- ===== src/FileWrite/Memory.antt =====
-- The bytes that a round of the loop writes when one extent takes all the data.
use slotfs_eurosys.FileData.{data_address, filent_lookup}
use slotfs_eurosys.Base.{
  true, false, some, inl, inr, refl, ap, ◌∙◌, ltb, ◌&&◌, ◌==◌, ◌≢◌, Bool-cases, arith, leb, ◌≡◌,
  ◌≤◌, ◌⊎◌, ◌%◌, ◌-◌, ◌/◌, ◌^◌, ◌*◌, ◌+◌, ◌<◌, ℕ,
}
use slotfs_eurosys.FileWrite.Copies.{
  copy_tail_outside, copy_head-some, copy_tail-some, copy_head_outside, copy_tail_whole,
}
use slotfs_eurosys.Base.Word.{sub64}
use slotfs_eurosys.FileWrite.{
  data_pages, sub64, data_fields, page_start, Filent, copy_head, copy_tail, fill, write_bytes,
  blocks_of, WriteState,
}
use slotfs_eurosys.File.{Filent}
use slotfs_eurosys.Journal.{write_bytes}

module _ (s : WriteState) (buf : ℕ → ℕ) (len offset nr : ℕ) (some_byte : 0 < len)
    (room : s.slot_table + (nr + blocks_of len offset) * 4096 < 2 ^ 64) where
  abbrev pub first_address : ℕ
  first_address = s.slot_table + nr * 4096

  abbrev head : ℕ → ℕ
  head =
      copy_head s.slot_table (filent_lookup (data_fields s) (offset / 4096)) (offset / 4096)
        first_address (offset % 4096) s.pm.byte

  abbrev end_blk : ℕ
  end_blk = offset / 4096 + blocks_of len offset - 1

  abbrev end_address : ℕ
  end_address = first_address + (blocks_of len offset - 1) * 4096

  abbrev tail : ℕ → ℕ
  tail =
      copy_tail s.slot_table (filent_lookup (data_fields s) end_blk) end_blk end_address
        (offset % 4096 + len) ((offset + len) % 4096) head

  -- The extent that takes all the data: between as many blocks as the data needs.
  pub blocks_bounds :
      (0 < blocks_of len offset)
      × (offset % 4096 + len ≤ blocks_of len offset * 4096)
      × (blocks_of len offset * 4096 < offset % 4096 + len + 4096)
  unfolding blocks_of
  blocks_bounds = omega (arith, some_byte)

  fill_byte :
      offset + len < 2 ^ 64
      → (a : ℕ)
      → (fill (offset + len) buf offset len (nr, blocks_of len offset) s).pm.byte a
        ≡ (write_bytes (first_address + offset % 4096) buf len (record s.pm { byte = tail })).byte a
  unfolding fill
  fill_byte small a =
      let (pos, fits, tight) = blocks_bounds in
      let n = blocks_of len offset in
      let start : page_start s.slot_table nr ≡ first_address = omega (arith, room, pos) in
      let last : sub64 (nr + n) 1 ≡ nr + n - 1 = omega (arith, room, pos) in
      let end : page_start s.slot_table (nr + n - 1) ≡ end_address = omega (arith, room, pos) in
      let blk : sub64 (offset / 4096 + n) 1 ≡ end_blk = omega (arith, fits, tight, pos, small) in
      rw (fill, start, last, end, blk) refl

  tail-head :
      (a : ℕ)
      → (a < first_address + (offset % 4096 + len))
        ⊎ (first_address + blocks_of len offset * 4096 ≤ a)
      → tail a ≡ head a
  tail-head a out = elim (Bool-cases ((offset % 4096 + len) % 4096 == 0)) [
    | inl whole ↦
        let all =
          copy_tail_whole s.slot_table (filent_lookup (data_fields s) end_blk) end_blk end_address
            (offset % 4096 + len) ((offset + len) % 4096) head whole in
        ap (λ f. f a) all
    | inr part ↦
        let (pos, fits, tight) = blocks_bounds in
        let n = blocks_of len offset in
        let more : (offset % 4096 + len) % 4096 ≢ 0 = ground (arith, part) in
        let at : end_address + (offset + len) % 4096 ≡ first_address + (offset % 4096 + len) =
          omega (arith, pos, fits, tight, more) in
        let apart : (a < end_address + (offset + len) % 4096)
            ⊎ (end_address + (offset + len) % 4096 + (4096 - (offset + len) % 4096) ≤ a) =
          elim out [
            | inl lt ↦ inl (omega (arith, at, lt))
            | inr le ↦ inr (omega (arith, le, pos))
          ] in
        copy_tail_outside s.slot_table (filent_lookup (data_fields s) end_blk) end_blk end_address
          (offset % 4096 + len) ((offset + len) % 4096) head a apart
  ]

  pub fill_outside :
      offset + len < 2 ^ 64
      → (a : ℕ) → (a < first_address) ⊎ (first_address + blocks_of len offset * 4096 ≤ a)
      → (fill (offset + len) buf offset len (nr, blocks_of len offset) s).pm.byte a ≡ s.pm.byte a
  unfolding write_bytes
  fill_outside small a out =
      let (pos, fits, tight) = blocks_bounds in
      let no_tail : (a < first_address + (offset % 4096 + len))
          ⊎ (first_address + blocks_of len offset * 4096 ≤ a) =
        elim out [ inl lt ↦ inl (omega (arith, lt)) | inr le ↦ inr le ] in
      let no_head : (a < first_address) ⊎ (first_address + offset % 4096 ≤ a) = elim out [
        | inl lt ↦ inl lt
        | inr le ↦ inr (omega (arith, le, fits))
      ] in
      let test : leb (first_address + offset % 4096) a
            && ltb a (first_address + offset % 4096 + len)
          ≡ false =
        elim out [ inl lt ↦ ground (arith, lt) | inr le ↦ ground (arith, le, fits) ] in
      let same =
        tail-head a no_tail
        ∙ copy_head_outside s.slot_table (filent_lookup (data_fields s) (offset / 4096))
            (offset / 4096) first_address (offset % 4096) s.pm.byte a no_head in
      fill_byte small a ∙ rw test same

  pub fill_data :
      offset + len < 2 ^ 64
      → (i : ℕ) → i < len
      → (fill (offset + len) buf offset len (nr, blocks_of len offset) s).pm.byte
          (first_address + offset % 4096 + i)
        ≡ buf i
  unfolding write_bytes
  fill_data small i lt =
      let a = first_address + offset % 4096 + i in
      let low : leb (first_address + offset % 4096) a ≡ true = ground arith in
      let high : ltb a (first_address + offset % 4096 + len) ≡ true = ground (arith, lt) in
      let at : a - (first_address + offset % 4096) ≡ i = omega arith in
      fill_byte small a ∙ rw (low, high, at) refl

  pub fill_head :
      offset + len < 2 ^ 64
      → (old : Filent) → filent_lookup (data_fields s) (offset / 4096) ≡ some old
      → (j : ℕ) → j < offset % 4096
      → (fill (offset + len) buf offset len (nr, blocks_of len offset) s).pm.byte
          (first_address + j)
        ≡ data_pages s (data_address old (offset / 4096) j)
  unfolding write_bytes
  fill_head small old got j lt =
      let a = first_address + j in
      let test : leb (first_address + offset % 4096) a ≡ false = ground (arith, lt) in
      fill_byte small a
      ∙ rw test (
          tail-head a (inl (omega (arith, lt)))
          ∙ rw got (
              copy_head-some s.slot_table old (offset / 4096) first_address (offset % 4096)
                s.pm.byte j lt))

  pub fill_tail :
      offset + len < 2 ^ 64
      → (old : Filent) → filent_lookup (data_fields s) end_blk ≡ some old
      → (j : ℕ) → (offset + len) % 4096 ≤ j
      → j < 4096
      → (offset + len) % 4096 ≢ 0
      → (let src = s.slot_table + data_address old end_blk j in
          (src < first_address) ⊎ (first_address + blocks_of len offset * 4096 ≤ src))
      → (fill (offset + len) buf offset len (nr, blocks_of len offset) s).pm.byte (end_address + j)
        ≡ data_pages s (data_address old end_blk j)
  unfolding write_bytes
  fill_tail small old got j lo hi part apart =
      let (pos, fits, tight) = blocks_bounds in
      let a = end_address + j in
      let more : (offset % 4096 + len) % 4096 == 0 ≡ false = ground (arith, part) in
      let behind : first_address + offset % 4096 + len ≤ a =
        omega (arith, pos, fits, tight, lo, part) in
      let test : leb (first_address + offset % 4096) a
            && ltb a (first_address + offset % 4096 + len)
          ≡ false =
        ground (arith, behind) in
      let src = s.slot_table + data_address old end_blk j in
      let no_head : (src < first_address) ⊎ (first_address + offset % 4096 ≤ src) = elim apart [
        | inl lt ↦ inl lt
        | inr le ↦ inr (omega (arith, le, fits))
      ] in
      let source =
        copy_head_outside s.slot_table (filent_lookup (data_fields s) (offset / 4096))
          (offset / 4096) first_address (offset % 4096) s.pm.byte src no_head in
      let copied =
        copy_tail-some s.slot_table old end_blk end_address (offset % 4096 + len)
          ((offset + len) % 4096) head j more lo hi in
      fill_byte small a ∙ rw test (rw got (copied ∙ source))
