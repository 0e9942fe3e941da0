-- ===== src/FileData/Ends.antt =====
-- The read loop ends.
use slotfs_eurosys.Base.{
  zero, suc, some, inl, inr, refl, ℕ, ◌+◌, ◌*◌, ◌/◌, ◌%◌, ◌≡◌, ◌≤◌, ◌<◌, ◌-◌, arith, List, [],
  Bool-cases, Option-cases, ◌^◌, ◌==◌,
}
use slotfs_eurosys.File.{Filent}
use slotfs_eurosys.FileData.{
  DataInode, filent_lookup, chunk, read_loop, inode_read, read_clamped, read_length,
}
use slotfs_eurosys.FileData.Rounds.{chunk-none, chunk-some}

-- No entry of the tree is empty, and none has 2 ^ 64 bytes or more.
unfoldable pub HasBlocks : DataInode → Type 0
HasBlocks inode =
    (k : ℕ) (fe : Filent)
    → filent_lookup inode k ≡ some fe
    → (0 < fe.blocks) × (fe.blocks * 4096 < 2 ^ 64)

chunk_pos :
    (inode : DataInode) (left offset : ℕ)
    → HasBlocks inode
    → 0 < left
    → 0 < chunk (filent_lookup inode (offset / 4096)) left (offset % 4096)
unfolding HasBlocks
chunk_pos inode left offset blocks pos = elim (Option-cases (filent_lookup inode (offset / 4096))) [
  | inl got ↦ rw got (elim (chunk-none left (offset % 4096) (omega arith)) [
    | inl (all, fits) ↦ omega (arith, all, pos)
    | inr (full, less) ↦ omega (arith, full)
  ])
  | inr (fe, got) ↦
      let (some_block, small) = blocks (offset / 4096) fe got in
      rw got (elim (chunk-some left (offset % 4096) fe (omega arith) some_block small) [
        | inl (all, fits) ↦ omega (arith, all, pos)
        | inr (full, less) ↦ omega (arith, full, some_block)
      ])
]

read_loop-some :
    (rounds : ℕ) (inode : DataInode) (data_pages : ℕ → ℕ) (left offset : ℕ)
    → HasBlocks inode
    → left ≤ rounds
    → (bytes : List ℕ) × (read_loop rounds inode data_pages left offset ≡ some bytes)
unfolding read_loop
read_loop-some zero inode data_pages left offset blocks enough =
    let e : left ≡ 0 = omega (arith, enough) in rw e ([], refl)
read_loop-some (suc rounds) inode data_pages left offset blocks enough =
    elim (Bool-cases (left == 0)) [
      | inl e ↦ rw e ([], refl)
      | inr e ↦
          let nr = chunk (filent_lookup inode (offset / 4096)) left (offset % 4096) in
          let moves = chunk_pos inode left offset blocks (ground arith) in
          let (bytes, rest) =
            read_loop-some rounds inode data_pages (left - nr) (offset + nr) blocks
              (omega (arith, enough, moves)) in
          rw (read_loop, e, rest) (_, refl)
    ]

pub read_clamped-some :
    (inode : DataInode) (data_pages : ℕ → ℕ) (n offset : ℕ)
    → HasBlocks inode
    → (bytes : List ℕ) × (read_clamped inode data_pages n offset ≡ some (n, bytes))
unfolding read_clamped
read_clamped-some inode data_pages n offset blocks = elim (Bool-cases (n == 0)) [
  | inl e ↦ (let z : n ≡ 0 = ground arith in rw z ([], refl))
  | inr e ↦
      let (bytes, all) = read_loop-some n inode data_pages n offset blocks (omega arith) in
      rw (read_clamped, e, all) (bytes, refl)
]

-- If no entry of the tree is empty and none has 2 ^ 64 bytes or more, `inode_read` ends for every
-- length and offset: as many rounds as it has bytes to read are enough. It returns the length that is
-- left after the test against the size of the file.
pub inode_read-some :
    (inode : DataInode) (data_pages : ℕ → ℕ) (len offset : ℕ)
    → HasBlocks inode
    → (bytes : List ℕ) × (inode_read inode data_pages len offset
        ≡ some (read_length inode len offset, bytes))
unfolding inode_read
inode_read-some inode data_pages len offset blocks =
    read_clamped-some inode data_pages (read_length inode len offset) offset blocks
