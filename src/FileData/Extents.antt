-- ===== src/FileData/Extents.antt =====
-- What a round of the read loop copies, for files whose entries have all their blocks.
use slotfs_eurosys.Base.{
  none, some, refl, ℕ, ◌+◌, ◌*◌, ◌/◌, ◌%◌, ◌≡◌, ◌≤◌, ◌<◌, arith, ap, sym, ◌^◌, ◌⊎◌, ◌∙◌,
}
use slotfs_eurosys.Base.Memory.{bytes_at, bytes_at_same}
use slotfs_eurosys.File.{Filent}
use slotfs_eurosys.FileData.{DataInode, filent_lookup, copied, data_address}

-- The byte of a file at an offset: 0 in a hole.
unfoldable pub file_byte : DataInode → (ℕ → ℕ) → ℕ → ℕ
file_byte inode data_pages k = elim (filent_lookup inode (k / 4096)) [
  | none ↦ 0
  | some fe ↦ data_pages (data_address fe (k / 4096) (k % 4096))
]

-- Each entry of the tree is there for all its blocks, and only for them.
pub record IsWhole (inode : DataInode) : Type 0 where
  pub low : (k : ℕ) (fe : Filent) → filent_lookup inode k ≡ some fe → fe.l_idx ≤ k
  pub high : (k : ℕ) (fe : Filent) → filent_lookup inode k ≡ some fe → k < fe.l_idx + fe.blocks
  pub all :
      (k : ℕ) (fe : Filent)
      → filent_lookup inode k ≡ some fe
      → (j : ℕ) → fe.l_idx ≤ j
      → j < fe.l_idx + fe.blocks
      → filent_lookup inode j ≡ some fe
  pub small : (k : ℕ) (fe : Filent) → filent_lookup inode k ≡ some fe → fe.blocks * 4096 < 2 ^ 64

-- Where a read may begin: in a hole, at the first block of an entry, or so that it ends in the entry.
unfoldable pub BeginsWell : DataInode → ℕ → ℕ → Type 0
BeginsWell inode left offset =
    (fe : Filent)
    → filent_lookup inode (offset / 4096) ≡ some fe
    → (fe.l_idx ≡ offset / 4096) ⊎ (offset + left ≤ (fe.l_idx + fe.blocks) * 4096)

pub file_byte-some :
    (inode : DataInode) (data_pages : ℕ → ℕ) (k : ℕ) {fe : Filent}
    → filent_lookup inode (k / 4096) ≡ some fe
    → file_byte inode data_pages k ≡ data_pages (data_address fe (k / 4096) (k % 4096))
unfolding file_byte
file_byte-some inode data_pages k got = rw (file_byte, got) refl

pub file_byte-none :
    (inode : DataInode) (data_pages : ℕ → ℕ) (k : ℕ)
    → filent_lookup inode (k / 4096) ≡ none
    → file_byte inode data_pages k ≡ 0
unfolding file_byte
file_byte-none inode data_pages k got = rw (file_byte, got) refl

-- In a hole.
pub copied-none :
    (inode : DataInode) (data_pages : ℕ → ℕ) (offset nr : ℕ)
    → filent_lookup inode (offset / 4096) ≡ none
    → nr + offset % 4096 ≤ 4096
    → copied data_pages none (offset / 4096) (offset % 4096) nr
      ≡ bytes_at (file_byte inode data_pages) offset nr
unfolding copied
copied-none inode data_pages offset nr got fits =
    bytes_at_same (λ k. 0) (file_byte inode data_pages) 0 offset nr
      (λ t lt.
        let same : (offset + t) / 4096 ≡ offset / 4096 = omega (arith, fits, lt) in
        sym (file_byte-none inode data_pages (offset + t) (rw same got)))

-- In an entry, up to its end.
pub copied-some :
    (inode : DataInode) (data_pages : ℕ → ℕ) (offset nr : ℕ) {fe : Filent}
    → IsWhole inode
    → filent_lookup inode (offset / 4096) ≡ some fe
    → offset + nr ≤ (fe.l_idx + fe.blocks) * 4096
    → copied data_pages (some fe) (offset / 4096) (offset % 4096) nr
      ≡ bytes_at (file_byte inode data_pages) offset nr
unfolding copied
copied-some inode data_pages offset nr {fe} whole got fits =
    bytes_at_same data_pages (file_byte inode data_pages)
      (data_address fe (offset / 4096) (offset % 4096)) offset nr
      (λ t lt.
        let low = whole.low (offset / 4096) fe got in
        let k = offset + t in
        let here : filent_lookup inode (k / 4096) ≡ some fe =
          whole.all (offset / 4096) fe got (k / 4096) (omega (arith, low))
            (omega (arith, fits, lt)) in
        let address : data_address fe (offset / 4096) (offset % 4096) + t
            ≡ data_address fe (k / 4096) (k % 4096) =
          omega (arith, low) in
        ap data_pages address ∙ sym (file_byte-some inode data_pages k here))
