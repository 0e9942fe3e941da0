-- ===== src/Recovery/Steps.antt =====
-- The threads of the recovery as steps: the root is put into the queue, and each thread takes an
-- inode from the queue, starts it, and handles the entries of its log one by one, in any order with
-- the others. A handler is one step.
use slotfs_eurosys.Base.{some, inl, ℕ, ◌≡◌}
use slotfs_eurosys.Queue.{pushed, queue_push, Queue, queue_pop}
use slotfs_eurosys.Recovery.{
  rc_handle_filent, rc_handle_dirent, rc_start, rc_iget, RcInode, Queue, RcMgr, RcPm, RcMalloc,
}

pub data RcStep (malloc : RcMalloc) (pm : RcPm) : RcMgr → RcMgr → Type 0 where
  push_root :
      {s : RcMgr} {q : Queue}
      → queue_push s.queue 0 ≡ pushed q
      → RcStep malloc pm s (record s { queue = q })
  pop :
      {s : RcMgr} {ino : ℕ} {q : Queue}
      → queue_pop s.queue ≡ some (ino, q)
      → RcStep malloc pm s (record s { queue = q })
  start :
      {s s' : RcMgr} (ino : ℕ) (inode : RcInode)
      → rc_iget malloc ino s ≡ some (inode, s')
      → RcStep malloc pm s (rc_start pm ino inode s')
  dirent :
      {s s' : RcMgr} {next : ℕ} (ino idx : ℕ)
      → rc_handle_dirent malloc pm ino idx s ≡ inl (next, s')
      → RcStep malloc pm s s'
  filent :
      {s s' : RcMgr} {next : ℕ} (ino idx : ℕ)
      → rc_handle_filent malloc pm ino idx s ≡ inl (next, s')
      → RcStep malloc pm s s'

pub data RcReach (malloc : RcMalloc) (pm : RcPm) (s : RcMgr) : RcMgr → Type 0 where
  here : RcReach malloc pm s s
  next : {t u : RcMgr} → RcReach malloc pm s t → RcStep malloc pm t u → RcReach malloc pm s u
