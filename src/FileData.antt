-- ===== src/FileData.antt =====
-- slotfs/inode.c: the bytes of a file. `data_pages` has the bytes of the table of data pages: byte
-- `o` of page `p` at `p * 4096 + o`. The calls run under the inode's lock.
pub mod Extents
pub mod Rounds
pub mod Ends
pub mod Read
pub mod Overrun
mod Tests
use slotfs_eurosys.Base.{
  [], ◌∷◌, zero, suc, none, some, List, Option, ℕ, if◌then◌else◌, ◌+◌, ◌*◌, ◌/◌, ◌%◌, ◌==◌, ltb,
  ◌-◌, ◌++◌, true, false, inl, inr, refl, ◌^◌,
}
use slotfs_eurosys.Base.Memory.{bytes_at}
use slotfs_eurosys.Base.Word.{sub64}
use slotfs_eurosys.BTree.{BTree, btree_get}
use slotfs_eurosys.File.{Filent}

-- The fields of `struct dram_inode` that reading and writing use.
pub record DataInode : Type 0 where
  pub i_size : ℕ
  pub b_root : BTree Filent

unfoldable pub filent_lookup : DataInode → ℕ → Option Filent
filent_lookup inode idx = btree_get inode.b_root idx

-- IDX2DATA of the page that an entry has for a block, with an offset in it.
abbrev pub data_address : Filent → ℕ → ℕ → ℕ
data_address fe idx page_offset = (fe.p_idx + (idx - fe.l_idx)) * 4096 + page_offset

-- `nr`: the smaller of what is left and what the branch allows.
unfoldable pub chunk : Option Filent → ℕ → ℕ → ℕ
chunk none left page_offset = if ltb (4096 - page_offset) left then 4096 - page_offset else left
chunk (some fe) left page_offset =
    let room = sub64 (fe.blocks * 4096 % 2 ^ 64) page_offset in if ltb room left then room else left

-- The bytes that one round copies: zeros where no entry is.
unfoldable pub copied : (ℕ → ℕ) → Option Filent → ℕ → ℕ → ℕ → List ℕ
copied data_pages none idx page_offset nr = bytes_at (λ k. 0) 0 nr
copied data_pages (some fe) idx page_offset nr =
    bytes_at data_pages (data_address fe idx page_offset) nr

-- The loop, for as many rounds as are given: the bytes for `buf`, or `none` if some are left then.
unfoldable pub read_loop : ℕ → DataInode → (ℕ → ℕ) → ℕ → ℕ → Option (List ℕ)
read_loop zero inode data_pages left offset = if left == 0 then some [] else none
read_loop (suc rounds) inode data_pages left offset =
    let page_offset = offset % 4096 in
    let idx = offset / 4096 in
    let fe = filent_lookup inode idx in
    let nr = chunk fe left page_offset in
    let rest = read_loop rounds inode data_pages (left - nr) (offset + nr) in
    if left == 0 then some [] else elim rest [
      | none ↦ none
      | some bytes ↦ some (copied data_pages fe idx page_offset nr ++ bytes)
    ]

-- `len` after the test against the size, whose difference wraps.
unfoldable pub read_length : DataInode → ℕ → ℕ → ℕ
read_length inode len offset =
    let room = sub64 inode.i_size offset in if ltb room len then room else len

-- What follows on the test: the length that is returned, and the bytes; each round copies one byte
-- at least.
unfoldable pub read_clamped : DataInode → (ℕ → ℕ) → ℕ → ℕ → Option (ℕ × List ℕ)
read_clamped inode data_pages n offset =
    if n == 0
    then some (0, [])
    else elim (read_loop n inode data_pages n offset) [ none ↦ none | some bytes ↦ some (n, bytes) ]

unfoldable pub inode_read : DataInode → (ℕ → ℕ) → ℕ → ℕ → Option (ℕ × List ℕ)
inode_read inode data_pages len offset =
    read_clamped inode data_pages (read_length inode len offset) offset
