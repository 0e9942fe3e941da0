-- ===== src/FileWrite/Copies.antt =====
-- The copies of old bytes round the new data.
-- `copy_head` writes nothing but the bytes in front of the data.
use slotfs_eurosys.Base.{
  true, false, none, some, refl, ℕ, Option, ◌%◌, ◌<◌, ◌+◌, ◌==◌, ◌⊎◌, ◌-◌, ◌≡◌, ◌≤◌, arith, leb,
  ltb,
}
use slotfs_eurosys.FileData.{data_address}
use slotfs_eurosys.FileWrite.{data_address, Filent, memcpy, copy_head, copy_tail}
use slotfs_eurosys.File.{Filent}
use slotfs_eurosys.Journal.{memcpy}

pub copy_head_outside :
    (table : ℕ) (o : Option Filent) (blk pmem page_offset : ℕ) (byte : ℕ → ℕ) (a : ℕ)
    → (a < pmem) ⊎ (pmem + page_offset ≤ a)
    → copy_head table o blk pmem page_offset byte a ≡ byte a
unfolding copy_head memcpy
copy_head_outside table none blk pmem page_offset byte a out = refl
copy_head_outside table (some old) blk pmem page_offset byte a out = ground arith

pub copy_tail_outside :
    (table : ℕ) (o : Option Filent) (blk pmem last from : ℕ) (byte : ℕ → ℕ) (a : ℕ)
    → (a < pmem + from) ⊎ (pmem + from + (4096 - from) ≤ a)
    → copy_tail table o blk pmem last from byte a ≡ byte a
unfolding copy_tail memcpy
copy_tail_outside table none blk pmem last from byte a out = refl
copy_tail_outside table (some old) blk pmem last from byte a out = ground arith

pub copy_head-some :
    (table : ℕ) (old : Filent) (blk pmem page_offset : ℕ) (byte : ℕ → ℕ) (j : ℕ)
    → j < page_offset
    → copy_head table (some old) blk pmem page_offset byte (pmem + j)
      ≡ byte (table + data_address old blk j)
unfolding copy_head memcpy
copy_head-some table old blk pmem page_offset byte j lt =
    let e : page_offset == 0 ≡ false = ground arith in
    let f : leb pmem (pmem + j) ≡ true = ground arith in
    let g : ltb (pmem + j) (pmem + page_offset) ≡ true = ground arith in
    let h : table + data_address old blk 0 + (pmem + j - pmem) ≡ table + data_address old blk j =
      omega arith in
    rw (e, f, g, h) refl

pub copy_tail-some :
    (table : ℕ) (old : Filent) (blk pmem last from : ℕ) (byte : ℕ → ℕ) (j : ℕ)
    → (last % 4096 == 0) ≡ false
    → from ≤ j
    → j < 4096
    → copy_tail table (some old) blk pmem last from byte (pmem + j)
      ≡ byte (table + data_address old blk j)
unfolding copy_tail memcpy
copy_tail-some table old blk pmem last from byte j part lo hi =
    let f : leb (pmem + from) (pmem + j) ≡ true = ground arith in
    let g : ltb (pmem + j) (pmem + from + (4096 - from)) ≡ true = ground arith in
    let h : table + data_address old blk from + (pmem + j - (pmem + from))
        ≡ table + data_address old blk j =
      omega arith in
    rw (part, f, g, h) refl

pub copy_tail_whole :
    (table : ℕ) (o : Option Filent) (blk pmem last from : ℕ) (byte : ℕ → ℕ)
    → (last % 4096 == 0) ≡ true
    → copy_tail table o blk pmem last from byte ≡ byte
unfolding copy_tail
copy_tail_whole table none blk pmem last from byte whole = refl
copy_tail_whole table (some old) blk pmem last from byte whole = rw whole refl
