-- ===== src/Rename/Replay.antt =====
-- `journal_replay_rename` of journal.c where `iget` rebuilds the new directory: `dir_rebuild` has not
-- read its ghost slot.
use slotfs_eurosys.Dir.{
  Tree, Dirent, Inode, PmDirent, DirState, dirent_lookup, bkdr_hash, dir_append_entry,
  dir_remove_entry, below_minus_one, slot_dirent_alloc, max_name_len, write_prev, set_next,
  next_index, Pm, dir_rebuild,
}
use slotfs_eurosys.Base.{
  zero, suc, true, false, none, some, inl, inr, refl, ◌∙◌, ap, ◌==◌, ◌≡◌, ◌≢◌, ◌<◌, ◌≤◌, Bool, List,
  ℕ, length, ltb, sym, arith, Bool-cases, Option-cases, get_elem?,
}
use slotfs_eurosys.Base.Memory.{store_same, store_other}
use slotfs_eurosys.Dir.Rebuild.{dir_rebuild-ghost_slot}
use slotfs_eurosys.Vfs.{
  Sbi, VfsState, VfsInode, iget, inode_rebuild, is_dir, read_inode, inode_lock, inode_unlock, ok,
  err, fault, Result,
}
use slotfs_eurosys.Rename.{
  RenameState, append_new_name, remove_old_name, replay_in, journal_replay_rename, with_pm,
  position_of,
}

ghost_of : Result VfsInode → ℕ
ghost_of (ok i) = i.dir.ghost_slot
ghost_of (err e) = 0
ghost_of fault = 0

-- A directory that is rebuilt, with at least one entry, has the uninitialised `next` as ghost slot.
inode_rebuild-ghost_slot :
    (sbi : Sbi) (ino : ℕ) {i : VfsInode}
    → is_dir (read_inode sbi ino) ≡ true
    → 0 < (sbi.pm_inode ino).entry_num
    → inode_rebuild sbi ino ≡ ok i
    → i.dir.ghost_slot ≡ sbi.pd.next
unfolding inode_rebuild read_inode ghost_of
inode_rebuild-ghost_slot sbi ino {i} dir some_entry h =
    elim (Option-cases
      (dir_rebuild sbi.rb_insert_color sbi.entries sbi.pd (read_inode sbi ino).dir)) [
        | inl out ↦ absurd (cc (rw (inode_rebuild, dir, out) at h))
        | inr (rebuilt, got) ↦
            let runs : inode_rebuild sbi ino ≡ ok (record (read_inode sbi ino) { dir = rebuilt }) =
              rw (inode_rebuild, dir, got) refl in
            ap ghost_of (sym h ∙ runs)
            ∙ dir_rebuild-ghost_slot sbi.rb_insert_color sbi.entries sbi.pd (read_inode sbi ino).dir
                some_entry got
      ]

-- Where the cache does not have the inode, what `iget` returns has been rebuilt.
iget-rebuilt :
    (sbi : Sbi) (ino : ℕ) (v : VfsState) {i : VfsInode}
    → v.inode_table ino ≡ none
    → (iget sbi ino v).0 ≡ ok i
    → inode_rebuild sbi ino ≡ ok i
unfolding iget
iget-rebuilt sbi ino v {i} missing h = elim (Bool-cases (v.inode_arena == 0)) [
  | inl full ↦ absurd (cc (rw (missing, full, iget) at h))
  | inr some_item ↦ go (inode_rebuild sbi ino) refl
]
  where
    go : (r : Result VfsInode) → inode_rebuild sbi ino ≡ r → inode_rebuild sbi ino ≡ ok i
    go (ok x) e = ground (arith, e, missing, h)
    go (err x) e = ground (arith, e, missing, h)
    go fault e = ground (arith, e, missing, h)

-- It leaves the other inodes of the cache.
iget-other :
    (sbi : Sbi) (ino other : ℕ) (v : VfsState)
    → ino ≢ other
    → (iget sbi ino v).1.inode_table other ≡ v.inode_table other
unfolding iget inode_lock inode_unlock
iget-other sbi ino other v ne = ground arith

-- The removal changes no name.
set_next-name : (m : ℕ → PmDirent) (i next j : ℕ) → (set_next m i next j).name ≡ (m j).name
unfolding set_next
set_next-name m i next j = elim (Bool-cases (i == j)) [
  | inl e ↦
      let same : i ≡ j = ground (arith, e) in rw (← same) (ap (λ x. x.name) (store_same m i _))
  | inr e ↦ ap (λ x. x.name) (store_other m _ (λ (q : i ≡ j). ground (arith, e, q)))
]

write_prev-name :
    (dir : Inode) (i next j : ℕ) (pm : Pm)
    → ((write_prev dir i next pm).dirent j).name ≡ (pm.dirent j).name
unfolding write_prev
write_prev-name dir zero next j pm = refl
write_prev-name dir (suc i) next j pm = elim (Option-cases (get_elem? dir.list i)) [
  | inl missing ↦ rw (missing, write_prev) refl
  | inr (prev, got) ↦ rw (got, write_prev) (set_next-name pm.dirent prev.idx next j)
]

dir_remove_entry-name :
    (rb_erase : Dirent → Tree → Tree) (i j : ℕ) (s : DirState)
    → ((dir_remove_entry rb_erase i s).pm.dirent j).name ≡ (s.pm.dirent j).name
unfolding dir_remove_entry
dir_remove_entry-name rb_erase i j s = elim (Option-cases (get_elem? s.dir.list i)) [
  | inl missing ↦ rw (missing, dir_remove_entry) refl
  | inr (d, got) ↦ (elim (Bool-cases (s.dir.log_head == d.idx)) [
    | inl head ↦ rw (got, dir_remove_entry) (rw head (set_next-name s.pm.dirent d.idx 0 j))
    | inr later ↦
        rw (got, dir_remove_entry)
          (rw later (
            set_next-name (write_prev s.dir i (next_index s.dir i) s.pm).dirent d.idx 0 j
            ∙ write_prev-name s.dir i (next_index s.dir i) j s.pm))
  ])
]

-- An entry that is appended has its name in the ghost slot.
dir_append_entry-name :
    (rb_insert_color : Tree → Tree) (memory : Bool) (cpu : ℕ) (inode : Inode) (name : List ℕ)
    (s : DirState) {d : Dirent}
    → (dir_append_entry rb_insert_color memory cpu inode name s).0 ≡ inl d
    → ((dir_append_entry rb_insert_color memory cpu inode name s).1.pm.dirent s.dir.ghost_slot).name
      ≡ name
unfolding dir_append_entry
dir_append_entry-name rb_insert_color false cpu inode name s h = absurd (cc h)
dir_append_entry-name rb_insert_color true cpu inode name s h =
    elim (Bool-cases (below_minus_one (slot_dirent_alloc cpu s.maps).0)) [
      | inl full ↦ absurd (cc (rw full at h))
      | inr room ↦ (elim (Bool-cases (ltb max_name_len (length name))) [
        | inl long ↦ absurd (cc (rw (room, long) at h))
        | inr short ↦
            rw (room, short) (ap (λ x. x.name) (store_same s.pm.dirent s.dir.ghost_slot _))
      ])
    ]

-- Let the replay find the old name in the old directory and not the new name in the new one, another
-- inode, which is not in the cache and has at least one entry; let the new name have 64 characters
-- at most, `malloc` succeed and a slot be allocated. Then the replay ends without an error, but it
-- has written the new entry to the slot that the uninitialised variable of `dir_rebuild` held as
-- `next`, whatever the log of the new directory has.
pub journal_replay_rename-name :
    (rb_insert_color : Tree → Tree) (rb_erase : Dirent → Tree → Tree) (sbi : Sbi) (v : VfsState)
    (cpu : ℕ) (fake : Inode) (s : RenameState) {o n : VfsInode} {od : Dirent}
    → s.rjnl.old_parent ≢ s.rjnl.new_parent
    → v.inode_table s.rjnl.new_parent ≡ none
    → is_dir (read_inode (with_pm sbi s.pm) s.rjnl.new_parent) ≡ true
    → 0 < (sbi.pm_inode s.rjnl.new_parent).entry_num
    → let (old, v1) = iget (with_pm sbi s.pm) s.rjnl.old_parent v in
      old ≡ ok o
      → (iget (with_pm sbi s.pm) s.rjnl.new_parent v1).0 ≡ ok n
      → dirent_lookup o.dir.rb_root (bkdr_hash s.rjnl.old_name) ≡ some od
      → dirent_lookup n.dir.rb_root (bkdr_hash s.rjnl.new_name) ≡ none
      → length s.rjnl.new_name ≤ max_name_len
      → below_minus_one (slot_dirent_alloc cpu s.maps).0 ≡ false
      → (t : RenameState) × (journal_replay_rename rb_insert_color rb_erase sbi v true cpu fake s
          ≡ inl t)
        × ((t.pm.dirent sbi.pd.next).name ≡ s.rjnl.new_name)
unfolding journal_replay_rename replay_in append_new_name remove_old_name dir_append_entry
journal_replay_rename-name rb_insert_color rb_erase sbi v cpu fake s {o} {n} {od} other uncached dir
      some_entry got_o got_n found missing short room =
    let ino = s.rjnl.new_parent in
    let v1 = (iget (with_pm sbi s.pm) s.rjnl.old_parent v).1 in
    let rebuilt =
      iget-rebuilt (with_pm sbi s.pm) ino v1
        (iget-other (with_pm sbi s.pm) s.rjnl.old_parent ino v other ∙ uncached) got_n in
    let ghost : n.dir.ghost_slot ≡ sbi.pd.next =
      inode_rebuild-ghost_slot (with_pm sbi s.pm) ino dir some_entry rebuilt in
    let dirs = record s { old_dir = o.dir; new_dir = n.dir } in
    let named = record fake { i_ino = od.ino } in
    let part : DirState = record { dir = n.dir; pm = s.pm; maps = s.maps } in
    let appended =
      append_new_name rb_insert_color rb_erase true cpu fake od.ino s.rjnl.new_name dirs in
    let fits : ltb max_name_len (length s.rjnl.new_name) ≡ false = ground (arith, short) in
    let runs : (dir_append_entry rb_insert_color true cpu named s.rjnl.new_name part).0
        ≡ inl (record {
          idx = n.dir.ghost_slot;
          ts = fake.ts;
          ino = od.ino;
          hash = bkdr_hash s.rjnl.new_name;
        }) =
      rw (dir_append_entry, room, fits) refl in
    let stored = dir_append_entry-name rb_insert_color true cpu named s.rjnl.new_name part runs in
    (
      remove_old_name rb_insert_color rb_erase od appended.1,
      rw (journal_replay_rename, got_o, got_n, replay_in, missing, found, append_new_name, runs)
          refl,
      dir_remove_entry-name rb_erase (position_of od.idx appended.1.old_dir.list) sbi.pd.next
            (record { dir = appended.1.old_dir; pm = appended.1.pm; maps = appended.1.maps })
          ∙ ap (λ j. (appended.1.pm.dirent j).name) (sym ghost)
          ∙ stored,
    )
