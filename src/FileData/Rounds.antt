-- ===== src/FileData/Rounds.antt =====
-- One round of the read loop.
use slotfs_eurosys.Base.{
  none, some, inl, inr, ℕ, ◌+◌, ◌*◌, ◌/◌, ◌%◌, ◌≡◌, ◌≤◌, ◌<◌, ltb, ◌-◌, arith, List, ◌⊎◌, ◌^◌,
  Bool-cases, ◌==◌, ◌≢◌, eq_of_some, sym, ◌∙◌,
}
use slotfs_eurosys.Base.Memory.{bytes_at}
use slotfs_eurosys.Base.Word.{sub64}
use slotfs_eurosys.File.{Filent}
use slotfs_eurosys.FileData.{DataInode, filent_lookup, chunk, copied}
use slotfs_eurosys.FileData.Extents.{file_byte, IsWhole, BeginsWell, copied-none, copied-some}

-- What one round of the loop does.
pub record IsRound (inode : DataInode) (data_pages : ℕ → ℕ) (left offset nr : ℕ) (bytes : List ℕ)
    : Type 0 where
  pub moves : 0 < nr
  pub within : nr ≤ left
  pub right : bytes ≡ bytes_at (file_byte inode data_pages) offset nr
  pub goes_on : BeginsWell inode (left - nr) (offset + nr)

module _ (inode : DataInode) (whole : IsWhole inode) (left offset nr : ℕ) where
  -- Nothing is left.
  end_next : nr ≡ left → BeginsWell inode (left - nr) (offset + nr)
  unfolding BeginsWell
  end_next all fe got =
      let high = whole.high ((offset + nr) / 4096) fe got in inr (omega (arith, all, high))

  hole_next :
      filent_lookup inode (offset / 4096) ≡ none
      → nr + offset % 4096 ≡ 4096
      → BeginsWell inode (left - nr) (offset + nr)
  unfolding BeginsWell
  hole_next hole full fe got =
      let k = (offset + nr) / 4096 in
      let next : k ≡ offset / 4096 + 1 = omega (arith, full) in
      let low = whole.low k fe got in
      let high = whole.high k fe got in
      elim (Bool-cases (fe.l_idx == k)) [
        | inl e ↦ inl (ground arith)
        | inr e ↦
            let ne : fe.l_idx ≢ k = ground arith in
            let here : filent_lookup inode (offset / 4096) ≡ some fe =
              whole.all k fe got (offset / 4096) (ground (arith, low, ne, next))
                (omega (arith, high, next)) in
            absurd (cc (sym hole ∙ here))
      ]

  entry_next :
      {fe : Filent}
      → filent_lookup inode (offset / 4096) ≡ some fe
      → nr + offset % 4096 ≡ fe.blocks * 4096
      → fe.l_idx ≡ offset / 4096
      → BeginsWell inode (left - nr) (offset + nr)
  unfolding BeginsWell
  entry_next {fe} got full first fe' got' =
      let k = (offset + nr) / 4096 in
      let next : k ≡ fe.l_idx + fe.blocks = omega (arith, full, first) in
      let some_block = whole.high (offset / 4096) fe got in
      let low = whole.low k fe' got' in
      let high = whole.high k fe' got' in
      elim (Bool-cases (fe'.l_idx == k)) [
        | inl e ↦ inl (ground arith)
        | inr e ↦
            let ne : fe'.l_idx ≢ k = ground arith in
            let ours =
              whole.all (offset / 4096) fe got (k - 1) (omega (arith, next, some_block, first))
                (omega (arith, next, some_block)) in
            let theirs =
              whole.all k fe' got' (k - 1) (ground (arith, low, ne)) (omega (arith, high)) in
            let same : fe ≡ fe' = eq_of_some (sym ours ∙ theirs) in
            let beyond : k < fe.l_idx + fe.blocks = rw same high in
            absurd (omega (arith, beyond, next))
      ]

-- What `chunk` is in a hole and in an entry of less than 2 ^ 64 bytes.
pub chunk-none :
    (left page_offset : ℕ)
    → page_offset < 4096
    → let nr = chunk none left page_offset in
      ((nr ≡ left) × (nr + page_offset ≤ 4096)) ⊎ ((nr + page_offset ≡ 4096) × (nr < left))
unfolding chunk
chunk-none left page_offset lt = elim (Bool-cases (ltb (4096 - page_offset) left)) [
  | inl e ↦ inr (ground arith)
  | inr e ↦ inl (ground arith)
]

pub chunk-some :
    (left page_offset : ℕ) (fe : Filent)
    → page_offset < 4096
    → 0 < fe.blocks
    → fe.blocks * 4096 < 2 ^ 64
    → let nr = chunk (some fe) left page_offset in
      ((nr ≡ left) × (nr + page_offset ≤ fe.blocks * 4096))
      ⊎ ((nr + page_offset ≡ fe.blocks * 4096) × (nr < left))
unfolding chunk
chunk-some left page_offset fe lt pos small =
    let room : sub64 (fe.blocks * 4096 % 2 ^ 64) page_offset ≡ fe.blocks * 4096 - page_offset =
      omega (arith, lt, pos, small) in
    elim (Bool-cases (ltb (sub64 (fe.blocks * 4096 % 2 ^ 64) page_offset) left)) [
      | inl e ↦ inr (ground (arith, room))
      | inr e ↦ inl (ground (arith, room))
    ]

pub hole-IsRound :
    (inode : DataInode) (data_pages : ℕ → ℕ) (left offset : ℕ)
    → IsWhole inode
    → 0 < left
    → filent_lookup inode (offset / 4096) ≡ none
    → let nr = chunk none left (offset % 4096) in
      IsRound inode data_pages left offset nr
        (copied data_pages none (offset / 4096) (offset % 4096) nr)
hole-IsRound inode data_pages left offset whole pos got =
    let nr = chunk none left (offset % 4096) in
    elim (chunk-none left (offset % 4096) (omega arith)) [
      | inl (all, fits) ↦ record {
        moves = omega (arith, all, pos);
        within = omega (arith, all);
        right = copied-none inode data_pages offset nr got fits;
        goes_on = end_next inode whole left offset nr all;
      }
      | inr (full, less) ↦ record {
        moves = omega (arith, full);
        within = omega (arith, less);
        right = copied-none inode data_pages offset nr got (omega (arith, full));
        goes_on = hole_next inode whole left offset nr got full;
      }
    ]

pub entry-IsRound :
    (inode : DataInode) (data_pages : ℕ → ℕ) (left offset : ℕ) {fe : Filent}
    → IsWhole inode
    → 0 < left
    → filent_lookup inode (offset / 4096) ≡ some fe
    → (fe.l_idx ≡ offset / 4096) ⊎ (offset + left ≤ (fe.l_idx + fe.blocks) * 4096)
    → let nr = chunk (some fe) left (offset % 4096) in
      IsRound inode data_pages left offset nr
        (copied data_pages (some fe) (offset / 4096) (offset % 4096) nr)
entry-IsRound inode data_pages left offset {fe} whole pos got begins =
    let low = whole.low (offset / 4096) fe got in
    let high = whole.high (offset / 4096) fe got in
    let small = whole.small (offset / 4096) fe got in
    let nr = chunk (some fe) left (offset % 4096) in
    elim (chunk-some left (offset % 4096) fe (omega arith) (omega (arith, low, high)) small) [
      | inl (all, fits) ↦
          let ends : offset + nr ≤ (fe.l_idx + fe.blocks) * 4096 = elim begins [
            | inl e ↦ omega (arith, e, fits)
            | inr h ↦ omega (arith, h, all)
          ] in
          record {
            moves = omega (arith, all, pos);
            within = omega (arith, all);
            right = copied-some inode data_pages offset nr whole got ends;
            goes_on = end_next inode whole left offset nr all;
          }
      | inr (full, less) ↦
          let first : fe.l_idx ≡ offset / 4096 = elim begins [
            | inl e ↦ e
            | inr h ↦ omega (arith, h, full, less, low)
          ] in
          record {
            moves = omega (arith, full, low, high);
            within = omega (arith, less);
            right = copied-some inode data_pages offset nr whole got (omega (arith, full, first));
            goes_on = entry_next inode whole left offset nr got full first;
          }
    ]
