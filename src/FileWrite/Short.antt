-- ===== src/FileWrite/Short.antt =====
-- A small write in the last block of a file that goes on behind its end.
use slotfs_eurosys.Base.{
  true, false, some, inl, refl, ℕ, ◌<◌, ◌≡◌, ◌+◌, ◌^◌, ◌/◌, ◌%◌, ◌-◌, ◌==◌, arith, ltb, leb, ap,
}
use slotfs_eurosys.Base.Word.{sub64}
use slotfs_eurosys.FileWrite.{
  sub64, journal_write, journal_alloc, data_pages, data_fields, blocks_of, Filent, WriteState,
  Choices, write_bytes, journal_commit, inode_write_journal, is_journaled, inode_write_atomic,
}
use slotfs_eurosys.Journal.{journal_write, journal_alloc, write_bytes, journal_commit}
use slotfs_eurosys.FileData.{data_address, filent_lookup, read_length}
use slotfs_eurosys.File.{Filent}

-- The state after the write through the journal, at an entry of the file.
journaled : (ℕ → ℕ) → ℕ → ℕ → Filent → WriteState → WriteState
journaled buf len offset fe s =
    let begin = s.slot_table + data_address fe (offset / 4096) (offset % 4096) in
    let (jnl, mgr) = journal_alloc s.jnl_mgr in
    let pm = journal_write jnl s.log.file.i_ino begin len s.pm in
    let (pm', mgr') = journal_commit jnl (write_bytes begin buf len pm, mgr) in
    record s { pm = pm'; jnl_mgr = mgr' }

inode_write_journal-some :
    (buf : ℕ → ℕ) (len offset : ℕ) (s : WriteState) {fe : Filent}
    → filent_lookup (data_fields s) (offset / 4096) ≡ some fe
    → inode_write_journal buf len offset s ≡ (some len, journaled buf len offset fe s)
unfolding inode_write_journal journaled
inode_write_journal-some buf len offset s got = rw (inode_write_journal, got) refl

journaled-byte :
    (buf : ℕ → ℕ) (len offset i : ℕ) (fe : Filent) (s : WriteState)
    → i < len
    → data_pages
        (journaled buf len offset fe s)
        (data_address fe (offset / 4096) (offset % 4096) + i)
      ≡ buf i
unfolding journaled journal_commit write_bytes
journaled-byte buf len offset i fe s lt =
    let begin = s.slot_table + data_address fe (offset / 4096) (offset % 4096) in
    let a = s.slot_table + (data_address fe (offset / 4096) (offset % 4096) + i) in
    let low : leb begin a ≡ true = ground arith in
    let high : ltb a (begin + len) ≡ true = ground (arith, lt) in
    let at : a - begin ≡ i = omega arith in rw (low, high, at) refl

-- A write of less than 1024 bytes in one block that the file has, which begins inside the file and
-- ends behind its end, is put in place and its length returned, but the size stays: a read at the
-- same place stops at the old end.
pub inode_write_atomic_short :
    (choices : Choices) (cpu : ℕ) (buf : ℕ → ℕ) (len offset : ℕ) (s : WriteState) {fe : Filent}
    → 0 < len
    → len < 1024
    → blocks_of len offset ≡ 1
    → offset < s.i_size
    → s.i_size < offset + len
    → s.i_size < 2 ^ 64
    → filent_lookup (data_fields s) (offset / 4096) ≡ some fe
    → (s' : WriteState) × (inode_write_atomic choices cpu buf len offset s ≡ some (inl len, s'))
      × ((i : ℕ)
          → i < len
          → data_pages s' (data_address fe (offset / 4096) (offset % 4096) + i) ≡ buf i)
      × (read_length (data_fields s') len offset ≡ s.i_size - offset)
unfolding inode_write_atomic is_journaled read_length journaled
inode_write_atomic_short choices cpu buf len offset s {fe} some_byte few one inside beyond small
      got =
    let one_block : blocks_of len offset == 1 ≡ true = ground (arith, one) in
    let short : ltb len 1024 ≡ true = ground (arith, few) in
    let not_at_end : offset == s.i_size ≡ false = ground (arith, inside) in
    let written : ltb 0 len ≡ true = ground (arith, some_byte) in
    let room : sub64 s.i_size offset ≡ s.i_size - offset = omega (arith, inside, small) in
    let cut : ltb (s.i_size - offset) len ≡ true = ground (arith, inside, beyond) in
    let write = inode_write_journal-some buf len offset s got in
    (
      journaled buf len offset fe s,
      rw (one_block, short, not_at_end, write) (rw written (ap (λ r. some (inl len, r.1)) write)),
      λ i lt. journaled-byte buf len offset i fe s lt,
      rw (room, cut) refl,
    )
