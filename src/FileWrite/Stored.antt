-- ===== src/FileWrite/Stored.antt =====
-- What a file stores, and what a write may do to that.
-- The byte that a file has at an offset: 0 in a hole.
use slotfs_eurosys.Base.{
  none, some, inl, inr, refl, ℕ, Option, ◌/◌, ◌<◌, ◌≡◌, ◌⊎◌, ◌+◌, max, ◌%◌, ◌-◌, Option-cases, ◌≤◌,
  ◌∙◌, sym,
}
use slotfs_eurosys.FileWrite.{blocks_of, Error, data_address, data_pages, Filent, WriteState}
use slotfs_eurosys.Dir.{Error}
use slotfs_eurosys.FileData.{data_address}
use slotfs_eurosys.BTree.Grow.{contents}
use slotfs_eurosys.File.{Filent}

unfoldable pub stored_byte : WriteState → ℕ → ℕ
stored_byte s k = elim (contents s.log.file.b_root (k / 4096)) [
  | none ↦ 0
  | some fe ↦ data_pages s (data_address fe (k / 4096) (k % 4096))
]

-- Of a block that the write does not touch, or that had a page before.
unfoldable pub WasStored : WriteState → ℕ → ℕ → ℕ → Type 0
WasStored s len offset k =
    (k / 4096 < offset / 4096)
    ⊎ ((offset / 4096 + blocks_of len offset ≤ k / 4096)
        ⊎ ((old : Filent) × (contents s.log.file.b_root (k / 4096) ≡ some old)))

-- No page that the file has is one of the `count` pages from `nr` on.
unfoldable pub IsFresh : WriteState → ℕ → ℕ → Type 0
IsFresh s nr count =
    (k : ℕ) (fe : Filent)
    → contents s.log.file.b_root k ≡ some fe
    → (fe.p_idx + (k - fe.l_idx) < nr) ⊎ (nr + count ≤ fe.p_idx + (k - fe.l_idx))

-- The write happened, or the file is as before.
unfoldable pub IsWritten : (ℕ → ℕ) → ℕ → ℕ → WriteState → Option ((ℕ ⊎ Error) × WriteState) → Type 0
IsWritten buf len offset s none = ⊥
IsWritten buf len offset s (some (inr e, s')) =
    (s'.i_size ≡ s.i_size) × ((k : ℕ) → stored_byte s' k ≡ stored_byte s k)
IsWritten buf len offset s (some (inl n, s')) =
    (n ≡ len)
    × (s'.i_size ≡ max s.i_size (offset + len))
    × ((i : ℕ) → i < len → stored_byte s' (offset + i) ≡ buf i)
    × ((k : ℕ)
        → (k < offset) ⊎ (offset + len ≤ k)
        → WasStored s len offset k
        → stored_byte s' k ≡ stored_byte s k)

pub stored_byte-some :
    (s : WriteState) (k : ℕ) {fe : Filent}
    → contents s.log.file.b_root (k / 4096) ≡ some fe
    → stored_byte s k ≡ data_pages s (data_address fe (k / 4096) (k % 4096))
unfolding stored_byte
stored_byte-some s k got = rw (stored_byte, got) refl

-- A file with the same entry in a block has the same byte there, if the page is the same.
pub stored_byte_same :
    (s s' : WriteState) (k : ℕ)
    → contents s'.log.file.b_root (k / 4096) ≡ contents s.log.file.b_root (k / 4096)
    → ((fe : Filent)
        → contents s.log.file.b_root (k / 4096) ≡ some fe
        → data_pages s' (data_address fe (k / 4096) (k % 4096))
          ≡ data_pages s (data_address fe (k / 4096) (k % 4096)))
    → stored_byte s' k ≡ stored_byte s k
unfolding stored_byte
stored_byte_same s s' k same page = elim (Option-cases (contents s.log.file.b_root (k / 4096))) [
  | inl got ↦ rw (stored_byte, same, got) refl
  | inr (fe, got) ↦
      stored_byte-some s' k (same ∙ got) ∙ page fe got ∙ sym (stored_byte-some s k got)
]
