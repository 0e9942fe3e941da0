-- ===== src/Journal/Undo.antt =====
-- The undo journal: replaying it takes back an in-place write that a crash cut short.
use slotfs_eurosys.Base.{false, refl, ℕ, ◌+◌, ◌≤◌, ◌⊎◌, ◌<◌, ◌≡◌, arith}
use slotfs_eurosys.Journal.{
  journal_free, JnlMgr, Pm, copy_offset, memcpy, journal_write, write_bytes, journal_commit,
  journal_replay_write,
}

-- The bytes of `len` from `begin` on and the copy in the journal's page are apart.
abbrev pub IsApart : ℕ → ℕ → ℕ → Type 0
IsApart jnl begin len = (begin + len ≤ jnl + copy_offset) ⊎ (jnl + copy_offset + len ≤ begin)

-- If the bytes to be written and their copy in the journal's page are apart, then after any first
-- part of the write `journal_replay_write` gives every byte outside the copy the value that it
-- had before `journal_write`.
pub replay-write :
    (jnl ino begin len written : ℕ) (buf : ℕ → ℕ) (pm : Pm)
    → IsApart jnl begin len
    → written ≤ len
    → (a : ℕ) → (a < jnl + copy_offset) ⊎ (jnl + copy_offset + len ≤ a)
    → (journal_replay_write jnl
          (write_bytes begin buf written (journal_write jnl ino begin len pm))).byte
        a
      ≡ pm.byte a
unfolding journal_replay_write write_bytes journal_write memcpy
replay-write jnl ino begin len written buf pm apart partial a out = ground arith

-- If the bytes to be written and their copy in the journal's page are apart, then after the write
-- and `journal_commit` the journal is not valid, the new bytes are there, and the manager is the
-- one after `journal_free`.
pub commit-write :
    (jnl ino begin len : ℕ) (buf : ℕ → ℕ) (pm : Pm) (mgr : JnlMgr)
    → IsApart jnl begin len
    → let (pm', mgr') =
        journal_commit jnl (write_bytes begin buf len (journal_write jnl ino begin len pm), mgr) in
      ((pm'.wjnl jnl).valid ≡ false)
      × ((i : ℕ) → i < len → pm'.byte (begin + i) ≡ buf i)
      × (mgr' ≡ journal_free jnl mgr)
unfolding journal_commit write_bytes journal_write memcpy
commit-write jnl ino begin len buf pm mgr apart = (ground arith, ground arith, refl)
