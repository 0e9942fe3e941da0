-- ===== src/FileWrite.antt =====
-- slotfs/inode.c: writing. New data goes to new pages; the entries for them are added to the file's
-- log when all data is written. The calls run under the inode's lock; what `time` returns is left
-- out. `few`, `memory` and `cpu` are what the environment decides in the calls of
-- `file_append_entry`, by their number in the write.
pub mod Copies
pub mod Memory
pub mod Stored
pub mod Extent
pub mod Atomic
pub mod Full
pub mod Short
mod Tests
use slotfs_eurosys.Base.{
  [], ◌∷◌, zero, suc, true, false, none, some, inl, inr, refl, Option, ℕ, Bool, List, ◌%◌, ◌+◌, ◌⊎◌,
  if◌then◌else◌, ◌*◌, ◌/◌, ◌==◌, ltb, max, ◌&&◌, ◌-◌, ◌^◌, not, ◌++◌,
}
use slotfs_eurosys.Journal.{
  journal_commit, journal_write, journal_alloc, memcpy, write_bytes, JnlMgr, Pm,
}
use slotfs_eurosys.FileData.{data_address, filent_lookup, DataInode}
use slotfs_eurosys.FileLog.{file_append_entry, filent_of, LogState}
use slotfs_eurosys.Slot.{do_slot_alloc_range}
use slotfs_eurosys.Dir.{Error, minus_one}
use slotfs_eurosys.Base.Word.{sub64}
use slotfs_eurosys.File.{Filent, PmFilent}

-- `entry_unit_t`, an element of the array of `ebuf_t`; `num` is the length of the list of them.
pub record EntryUnit : Type 0 where
  pub blocks : ℕ
  pub l_idx : ℕ
  pub p_idx : ℕ

pub record Choices : Type 0 where
  pub few : ℕ → Bool
  pub memory : ℕ → Bool
  pub cpu : ℕ → ℕ

-- A file with its log, its size also in persistent memory, the bytes of persistent memory, the
-- journals, the start of the data pages and the timestamp of `sbi`.
pub record WriteState : Type 0 where
  pub log : LogState
  pub i_size : ℕ
  pub pm_i_size : ℕ
  pub pm : Pm
  pub jnl_mgr : JnlMgr
  pub slot_table : ℕ
  pub ts : ℕ

abbrev pub data_fields : WriteState → DataInode
data_fields s = record { i_size = s.i_size; b_root = s.log.file.b_root }

-- The bytes of the data pages.
abbrev pub data_pages : WriteState → ℕ → ℕ
data_pages s a = s.pm.byte (s.slot_table + a)

abbrev pub page_start : ℕ → ℕ → ℕ
page_start slot_table idx = (slot_table + idx * 4096) % 2 ^ 64

-- What `slot_data_alloc` returns and leaves in `allocated`: -1 and 0 if there is no page.
abbrev pub extent_of : Option (ℕ × ℕ) → ℕ × ℕ
extent_of none = (minus_one, 0)
extent_of (some e) = e

unfoldable pub blocks_of : ℕ → ℕ → ℕ
blocks_of len offset = (len + offset % 4096 + 4095) / 4096

-- The bytes in front of the data in the first page.
unfoldable pub copy_head : ℕ → Option Filent → ℕ → ℕ → ℕ → (ℕ → ℕ) → ℕ → ℕ
copy_head slot_table none start_blk pmem page_offset byte = byte
copy_head slot_table (some old) start_blk pmem page_offset byte =
    if page_offset == 0
    then byte
    else memcpy byte pmem (slot_table + data_address old start_blk 0) page_offset

-- The bytes behind the data in the last page; `last` is where the data ends, from the first page.
unfoldable pub copy_tail : ℕ → Option Filent → ℕ → ℕ → ℕ → ℕ → (ℕ → ℕ) → ℕ → ℕ
copy_tail slot_table none end_blk end_pmem last end_offset byte = byte
copy_tail slot_table (some old) end_blk end_pmem last end_offset byte =
    if last % 4096 == 0
    then byte
    else memcpy byte (end_pmem + end_offset) (slot_table + data_address old end_blk end_offset)
        (4096 - end_offset)

-- The bytes that a round writes to the pages of an extent.
unfoldable pub fill : ℕ → (ℕ → ℕ) → ℕ → ℕ → ℕ × ℕ → WriteState → WriteState
fill end buf c bytes (nr, allocated) s =
    let page_offset = c % 4096 in
    let start_blk = c / 4096 in
    let end_blk = sub64 (start_blk + allocated) 1 in
    let pmem = page_start s.slot_table nr in
    let end_pmem = page_start s.slot_table (sub64 (nr + allocated) 1) in
    let head =
      copy_head s.slot_table (filent_lookup (data_fields s) start_blk) start_blk pmem page_offset
        s.pm.byte in
    let tail =
      copy_tail s.slot_table (filent_lookup (data_fields s) end_blk) end_blk end_pmem
        (page_offset + bytes) (end % 4096) head in
    record s { pm = write_bytes (pmem + page_offset) buf bytes (record s.pm { byte = tail }) }

-- `bytes` of a round with `allocated` pages.
unfoldable pub round_bytes : ℕ → ℕ → ℕ → ℕ
round_bytes count c allocated =
    let room = sub64 (4096 * allocated) (c % 4096) in if ltb count room then count else room

unfoldable pub is_small_append : WriteState → ℕ → ℕ → Bool
is_small_append s c num_blk = (c == s.i_size) && (not (c % 4096 == 0) && (num_blk == 1))

-- The write in place behind the end of the file; `none` where the entry is NULL.
unfoldable pub small_append : ℕ → (ℕ → ℕ) → ℕ → ℕ → WriteState → Option (ℕ × WriteState)
small_append end buf c count s = elim (filent_lookup (data_fields s) (c / 4096)) [
  | none ↦ none
  | some fe ↦
      let room = 4096 - c % 4096 in
      let bytes = if ltb count room then count else room in
      let i_size = max s.i_size end in
      some (
        bytes,
        record s {
          pm = write_bytes (s.slot_table + data_address fe (c / 4096) (c % 4096)) buf bytes s.pm;
          i_size = i_size;
          pm_i_size = i_size;
        },
      )
]

-- The loop that writes the data, for as many rounds as are given: the entries for the new pages and
-- the state. `none`: blocks are left then, or a NULL entry was read. `buf` moves on with `c`.
unfoldable pub data_loop :
    ℕ
    → ℕ
    → ℕ
    → (ℕ → ℕ)
    → ℕ
    → ℕ
    → ℕ
    → List EntryUnit
    → WriteState
    → Option (List EntryUnit × WriteState)
data_loop zero cpu end buf c count num_blk entries s =
    if num_blk == 0 then some (entries, s) else none
data_loop (suc rounds) cpu end buf c count num_blk entries s =
    let (extent, maps) = do_slot_alloc_range cpu s.log.data_maps num_blk in
    let (nr, allocated) = extent_of extent in
    let bytes = round_bytes count c allocated in
    let unit : EntryUnit = record { blocks = allocated; l_idx = c / 4096; p_idx = nr } in
    let taken = record s { log = record s.log { data_maps = maps } } in
    let allocating =
      data_loop rounds cpu end (λ i. buf (bytes + i)) (c + bytes) (count - bytes)
        (num_blk - allocated) (entries ++ (unit ∷ []))
        (fill end buf c bytes (nr, allocated) taken) in
    let appending : Option (List EntryUnit × WriteState) = elim (small_append end buf c count s) [
      | none ↦ none
      | some (written, s') ↦
          data_loop rounds cpu end (λ i. buf (written + i)) (c + written) (count - written)
            (num_blk - 1) entries s'
    ] in
    if num_blk == 0
    then some (entries, s)
    else if is_small_append s c num_blk
    then appending
    else allocating

-- The fields of `pm_filent_t` have 32 bits.
abbrev pub pm_filent : EntryUnit → ℕ → PmFilent
pm_filent unit ts = record {
  l_idx = unit.l_idx % 2 ^ 32;
  p_idx = unit.p_idx % 2 ^ 32;
  blocks = unit.blocks % 2 ^ 32;
  ts = ts;
  next = 0;
}

-- The loop that adds the entries, from the number `idx` on; with the error of the one that failed.
unfoldable pub append_entries :
    Choices → ℕ → ℕ → List EntryUnit → LogState → Option Error × LogState
append_entries choices ts idx [] log = (none, log)
append_entries choices ts idx (unit ∷ units) log =
    let (r, log') =
      file_append_entry (choices.few idx) (choices.memory idx) false (choices.cpu idx)
        (pm_filent unit ts) log in
    elim r [ inr e ↦ (some e, log') | inl fe ↦ append_entries choices ts (idx + 1) units log' ]

-- After the data: the entries and the size.
unfoldable pub finish_write :
    Choices → ℕ → ℕ → List EntryUnit × WriteState → (ℕ ⊎ Error) × WriteState
finish_write choices len offset (entries, s) =
    let (failed, log) = append_entries choices (s.ts + 1) 0 entries s.log in
    let s' = record s { log = log; ts = s.ts + 1 } in
    elim failed [
      | some e ↦ (inr e, s')
      | none ↦ (inl len, record s' { i_size = max s'.i_size (offset + len) })
    ]

-- `none` is -1: the block has no page.
unfoldable pub inode_write_journal : (ℕ → ℕ) → ℕ → ℕ → WriteState → Option ℕ × WriteState
inode_write_journal buf len offset s = elim (filent_lookup (data_fields s) (offset / 4096)) [
  | none ↦ (none, s)
  | some fe ↦
      let begin = s.slot_table + data_address fe (offset / 4096) (offset % 4096) in
      let (jnl, mgr) = journal_alloc s.jnl_mgr in
      let pm = journal_write jnl s.log.file.i_ino begin len s.pm in
      let (pm', mgr') = journal_commit jnl (write_bytes begin buf len pm, mgr) in
      (some len, record s { pm = pm'; jnl_mgr = mgr' })
]

-- The write by new pages, with a round for each block.
unfoldable pub write_pages :
    Choices → ℕ → (ℕ → ℕ) → ℕ → ℕ → WriteState → Option ((ℕ ⊎ Error) × WriteState)
write_pages choices cpu buf len offset s =
    let num_blk = blocks_of len offset in
    elim (data_loop num_blk cpu (offset + len) buf offset len num_blk [] s) [
      | none ↦ none
      | some written ↦ some (finish_write choices len offset written)
    ]

unfoldable pub is_journaled : ℕ → ℕ → WriteState → Bool
is_journaled len offset s =
    (blocks_of len offset == 1) && (ltb len 1024 && not (offset == s.i_size))

unfoldable pub inode_write_atomic :
    Choices → ℕ → (ℕ → ℕ) → ℕ → ℕ → WriteState → Option ((ℕ ⊎ Error) × WriteState)
inode_write_atomic choices cpu buf len offset s =
    let (ret, s') = inode_write_journal buf len offset s in
    if is_journaled len offset s
    then elim ret [
      | none ↦ write_pages choices cpu buf len offset s'
      | some n ↦ if ltb 0 n then some (inl n, s') else write_pages choices cpu buf len offset s'
    ]
    else write_pages choices cpu buf len offset s
