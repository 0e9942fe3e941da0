-- ===== src/Recovery/Scan.antt =====
-- The log of a directory in the recovery: the chain of its entries, and its ghost slot.
use slotfs_eurosys.Base.{
  [], ◌∷◌, zero, suc, true, false, some, inl, refl, ℕ, Bool, ◌≡◌, ◌≢◌, ◌||◌, ◌==◌, List, arith, ◌+◌,
  ◌∙◌, length, ◌≤◌, ap, ◌%◌, ◌^◌,
}
use slotfs_eurosys.Bitmap.Bits.{bit-set_bit, bit}
use slotfs_eurosys.Bitmap.{Bytes, set_bit}
use slotfs_eurosys.Base.Memory.{store_same, store}
use slotfs_eurosys.Recovery.{
  store, set_bit, has_dir_bit, rc_start, rc_handle_inode, RcInode, rc_handle_dirent, RcMgr, RcPm,
  RcMalloc, rc_entries,
}
use slotfs_eurosys.Recovery.Links.{
  rc_iget_lem, less_room, rc_handle_dirent_lem, HasRoom, Handles, HasMemory,
}
use slotfs_eurosys.Dir.{Dirent}
use slotfs_eurosys.Dir.Chain.{has_idx, Linked}

Handles-next :
    {ino n : ℕ} {f g h : ℕ → Bool} {s t u : RcMgr}
    → ((k : ℕ) → h k ≡ (f k || g k))
    → Handles ino 1 f s t
    → Handles ino n g t u
    → Handles ino (suc n) h s u
Handles-next {n} {s} {t} {u} both a b = record {
  dirs = λ k. ground (arith, both k, a.dirs k, b.dirs k);
  inodes = b.inodes ∙ a.inodes;
  files = b.files ∙ a.files;
  pages = b.pages ∙ a.pages;
  counted = λ inode found.
      let (mid, at_mid, once) = a.counted inode found in
      let (last, at_last, more) = b.counted mid at_mid in
      (last, at_last, omega (arith, once, more));
  room = λ m r. b.room m (a.room (n + m) (less_room (omega arith) r));
}

rc_entries-done :
    (malloc : RcMalloc) (pm : RcPm) (dir : Bool) (rounds ino : ℕ) (s : RcMgr)
    → rc_entries malloc pm dir rounds ino 0 s ≡ some (inl s)
unfolding rc_entries
rc_entries-done malloc pm dir zero ino s = refl
rc_entries-done malloc pm dir (suc rounds) ino s = refl

-- A round.
rc_entries-step :
    (malloc : RcMalloc) (pm : RcPm) (rounds ino idx next : ℕ) (s s' : RcMgr)
    → idx ≢ 0
    → rc_handle_dirent malloc pm ino idx s ≡ inl (next, s')
    → rc_entries malloc pm true (suc rounds) ino idx s
      ≡ rc_entries malloc pm true rounds ino next s'
unfolding rc_entries
rc_entries-step malloc pm rounds ino idx next s s' used handled =
    let test : idx == 0 ≡ false = ground (arith, used) in rw (test, handled) refl

module _ (malloc : RcMalloc) (pm : RcPm) (ino to : ℕ) (memory : HasMemory malloc) (used : to ≢ 0)
    (last : (pm.dirent to).next ≡ 0) where
  rc_entries-Handles :
      (ds : List Dirent) (rounds from : ℕ) (s : RcMgr) (inode : RcInode)
      → HasRoom (suc (length ds)) s.queue
      → length ds + 1 ≤ rounds
      → Linked pm.dirent from ds to
      → has_idx 0 ds ≡ false
      → s.inode_table ino ≡ some inode
      → (s' : RcMgr) × (rc_entries malloc pm true rounds ino from s ≡ some (inl s'))
        × Handles ino (suc (length ds)) (λ k. has_idx k ds || (to == k)) s s'
  unfolding Linked has_idx
  rc_entries-Handles ds zero from s inode room enough linked above found =
      absurd (omega (arith, enough))
  rc_entries-Handles [] (suc rounds) from s inode room enough linked above found =
      let (s', handled, does) =
        rc_handle_dirent_lem malloc pm ino to s memory (less_room (omega arith) room) in
      let step = rc_entries-step malloc pm rounds ino to (pm.dirent to).next s s' used handled in
      (
        s',
        ap (λ i. rc_entries malloc pm true (suc rounds) ino i s) linked
            ∙ step
            ∙ rw last (rc_entries-done malloc pm true rounds ino s'),
        does inode found,
      )
  rc_entries-Handles (d ∷ ds) (suc rounds) from s inode room enough (at_d, mirrors, linked) above
        found =
      let (s1, handled, does) =
        rc_handle_dirent_lem malloc pm ino d.idx s memory (less_room (omega arith) room) in
      let once = does inode found in
      let (inode1, found1, number) = once.counted inode found in
      let not_null : d.idx ≢ 0 = ground (arith, above) in
      let step =
        rc_entries-step malloc pm rounds ino d.idx (pm.dirent d.idx).next s s1 not_null handled in
      let left = once.room (suc (length ds)) (less_room (omega arith) room) in
      let (s', rest, does_rest) =
        rc_entries-Handles ds rounds (pm.dirent d.idx).next s1 inode1 left (omega (arith, enough))
          linked (ground (arith, above)) found1 in
      (
        s',
        ap (λ i. rc_entries malloc pm true (suc rounds) ino i s) at_d ∙ step ∙ rest,
        Handles-next (λ k. ground arith) once does_rest,
      )

-- Let the log of a directory be linked from its `log_head` through the slots of its entries to its
-- ghost slot, whose `next` is 0, and none of these be slot 0; let `malloc` return blocks, and the
-- queue have room for all entries. Then `rc_handle_inode` ends after as many rounds as there are
-- entries and one more. It sets just the inode's bit, and those of the entries' slots and the ghost
-- slot; and an inode that was found before gets an `entry_num` larger by the number of entries and
-- one, as the ghost slot is counted too.
pub rc_handle_inode-Linked :
    (malloc : RcMalloc) (pm : RcPm) (ino to : ℕ) (ds : List Dirent) (rounds : ℕ) (s : RcMgr)
    → HasMemory malloc
    → has_dir_bit (pm.i_mode ino) ≡ true
    → HasRoom (suc (length ds)) s.queue
    → length ds + 1 ≤ rounds
    → Linked pm.dirent (pm.log_head ino) ds to
    → has_idx 0 ds ≡ false
    → to ≢ 0
    → (pm.dirent to).next ≡ 0
    → (s' : RcMgr) × (rc_handle_inode malloc pm rounds ino s ≡ some (inl s'))
      × ((k : ℕ) → bit s'.inode_map k ≡ ((ino == k) || bit s.inode_map k))
      × ((k : ℕ) → bit s'.dir_map k ≡ ((has_idx k ds || (to == k)) || bit s.dir_map k))
      × (s'.file_map ≡ s.file_map)
      × ((inode : RcInode)
          → s.inode_table ino ≡ some inode
          → (inode' : RcInode) × (s'.inode_table ino ≡ some inode')
            × (inode'.entry_num % 2 ^ 64 ≡ (inode.entry_num + length ds + 1) % 2 ^ 64))
unfolding rc_handle_inode rc_start
rc_handle_inode-Linked malloc pm ino to ds rounds s memory dir room enough linked above used last =
    let (child, table, got, kept, same_child) = rc_iget_lem malloc ino s memory in
    let s1 = record s { inode_table = table } in
    let opened : RcInode = record child { mode = pm.i_mode ino; log_head = pm.log_head ino } in
    let started = record s1 {
      inode_map = set_bit ino s.inode_map;
      inode_table = store table ino (some opened);
    } in
    let begun : rc_start pm ino child s1 ≡ started = rw dir refl in
    let at_ino : started.inode_table ino ≡ some opened = store_same table ino (some opened) in
    let (s', scanned, does) =
      rc_entries-Handles malloc pm ino to memory used last ds rounds (pm.log_head ino) started
        opened room enough linked above at_ino in
    (
      s',
      rw (rc_handle_inode, got) (rw dir scanned),
      λ k. ap (λ (m : Bytes). bit m k) does.inodes ∙ bit-set_bit ino s.inode_map k,
      does.dirs,
      does.files,
      λ inode found.
          let (last_inode, at_last, number) = does.counted opened at_ino in
          let same : child.entry_num ≡ inode.entry_num =
            ap (λ (x : RcInode). x.entry_num) (same_child inode found) in
          (last_inode, at_last, omega (arith, number, same)),
    )
