-- ===== src/Recovery/DataPages.antt =====
-- No step of the recovery puts a data page into its bitmap: entries only clear positions.
use slotfs_eurosys.Base.{
  false, some, inl, ℕ, Bool, ◌≡◌, arith, ◌+◌, [], ◌∷◌, zero, suc, none, inr, refl, ◌⊎◌,
  Option-cases, if◌then◌else◌, Bool-cases, ◌==◌, ltb, ◌++◌, Option, List, ◌%◌,
}
use slotfs_eurosys.Base.Bits.{testbit-zero}
use slotfs_eurosys.Queue.{queue_init}
use slotfs_eurosys.Recovery.{
  queue_init, rc_init, rc_start, Fault, store, rc_blocks, rc_handle_filent, rc_map_filent, sub64,
  RcInode, RcPm, Bytes, RcFilent, RcMalloc, RcMgr, count_entry, push_child, rc_block,
  btree_get_ptr_hint, rc_handle_dirent, rc_iget,
}
use slotfs_eurosys.Recovery.Steps.{RcStep, RcReach}
use slotfs_eurosys.Bitmap.{set_bit, clear_bit, Bytes}
use slotfs_eurosys.Base.Memory.{store}
use slotfs_eurosys.Base.Word.{sub64}
use slotfs_eurosys.Bitmap.Bits.{bit-clear_bit, bit}

-- No page is marked as in use.
unfoldable pub HasNoPages : RcMgr → Type 0
HasNoPages s = (k : ℕ) → bit s.data_map k ≡ false

rc_iget-data_map :
    (malloc : RcMalloc) (ino : ℕ) (s : RcMgr) {inode : RcInode} {s' : RcMgr}
    → rc_iget malloc ino s ≡ some (inode, s')
    → s'.data_map ≡ s.data_map
unfolding rc_iget
rc_iget-data_map malloc ino s got = ground arith

count_entry-data_map : (ino : ℕ) (s : RcMgr) → (count_entry ino s).data_map ≡ s.data_map
unfolding count_entry
count_entry-data_map ino s = ground arith

push_child-data_map :
    (first : Bool) (child : ℕ) (s : RcMgr) {s' : RcMgr}
    → push_child first child s ≡ inl s'
    → s'.data_map ≡ s.data_map
unfolding push_child
push_child-data_map first child s pushed = ground arith

rc_handle_dirent-data_map :
    (malloc : RcMalloc) (pm : RcPm) (ino idx : ℕ) (s : RcMgr) {next : ℕ} {s' : RcMgr}
    → rc_handle_dirent malloc pm ino idx s ≡ inl (next, s')
    → s'.data_map ≡ s.data_map
unfolding rc_handle_dirent rc_iget push_child count_entry
rc_handle_dirent-data_map malloc pm ino idx s {next} {s'} done = ground arith

clear_bit-false :
    (nr : ℕ) (bmp : Bytes) (k : ℕ) → bit bmp k ≡ false → bit (clear_bit nr bmp) k ≡ false
clear_bit-false nr bmp k e = rw bit-clear_bit (ground (arith, e))

-- What a round does to the data pages.
rc_block-data_map :
    (filent : RcFilent) (i : ℕ) (inode : RcInode) (s : RcMgr)
    → ((rc_block filent i (inode, s)).1.data_map ≡ s.data_map)
      ⊎ ((nr : ℕ) × ((rc_block filent i (inode, s)).1.data_map ≡ clear_bit nr s.data_map))
unfolding rc_block
rc_block-data_map filent i inode s =
    elim (Option-cases (inode.btree (btree_get_ptr_hint (filent.l_idx + i) inode.hint).0)) [
      | inl got ↦ inl (rw (rc_block, got) refl)
      | inr (old, got) ↦ (elim (Bool-cases (ltb old.ts filent.ts)) [
        | inl newer ↦
            inr
              (sub64 (old.p_idx + old.l_idx) (filent.l_idx + i), rw (rc_block, got) (rw newer refl))
        | inr older ↦ inr (
          sub64 (filent.p_idx + filent.l_idx) (filent.l_idx + i),
          rw (rc_block, got) (rw older refl),
        )
      ])
    ]

rc_block-HasNoPages :
    (filent : RcFilent) (i : ℕ) (inode : RcInode) (s : RcMgr)
    → HasNoPages s
    → HasNoPages (rc_block filent i (inode, s)).1
unfolding HasNoPages
rc_block-HasNoPages filent i inode s none_set k = elim (rc_block-data_map filent i inode s) [
  | inl same ↦ rw same (none_set k)
  | inr (nr, cleared) ↦ rw cleared (clear_bit-false nr s.data_map k (none_set k))
]

rc_blocks-HasNoPages :
    (left : ℕ) (filent : RcFilent) (i : ℕ) (inode : RcInode) (s : RcMgr)
    → HasNoPages s
    → HasNoPages (rc_blocks left filent i (inode, s)).1
unfolding rc_blocks
rc_blocks-HasNoPages zero filent i inode s none_set = none_set
rc_blocks-HasNoPages (suc left) filent i inode s none_set =
    let (inode', s') = rc_block filent i (inode, s) in
    rc_blocks-HasNoPages left filent (i + 1) inode' s'
      (rc_block-HasNoPages filent i inode s none_set)

-- The same bitmap has no pages either.
same_pages : (s s' : RcMgr) → s'.data_map ≡ s.data_map → HasNoPages s → HasNoPages s'
unfolding HasNoPages
same_pages s s' same none_set k = rw same (none_set k)

rc_map_filent-HasNoPages :
    (filent : RcFilent) (ino : ℕ) (inode : RcInode) (s : RcMgr)
    → HasNoPages s
    → HasNoPages (rc_map_filent filent ino inode s)
unfolding rc_map_filent
rc_map_filent-HasNoPages filent ino inode s none_set =
    let (mapped, s') = rc_blocks filent.blocks filent 0 (inode, s) in
    let kept =
      if s'.refs filent.id == 0
      then mapped
      else record mapped { list = mapped.list ++ (filent ∷ []) } in
    let stored = record s' { inode_table = store s'.inode_table ino (some kept) } in
    same_pages stored (count_entry ino stored) (count_entry-data_map ino stored)
      (same_pages s' stored refl (rc_blocks-HasNoPages filent.blocks filent 0 inode s none_set))

-- What a handler that returned has left.
left_by :
    {a b : ℕ} {s t : RcMgr}
    → ◌≡◌ {A = (ℕ × RcMgr) ⊎ Fault} (inl (a, s)) (inl (b, t))
    → t.data_map ≡ s.data_map
left_by e = ground (arith, e)

rc_handle_filent-HasNoPages :
    (malloc : RcMalloc) (pm : RcPm) (ino idx : ℕ) (s : RcMgr) {next : ℕ} {s' : RcMgr}
    → HasNoPages s
    → rc_handle_filent malloc pm ino idx s ≡ inl (next, s')
    → HasNoPages s'
unfolding rc_handle_filent
rc_handle_filent-HasNoPages malloc pm ino idx s {next} {s'} none_set done =
    elim (Option-cases (malloc.filent s.next_id)) [
      | inl no_block ↦ absurd (cc (rw (rc_handle_filent, no_block) at done))
      | inr (ref, block) ↦ elim (Bool-cases ((pm.filent idx).next == 0)) [
        | inl ghost ↦
            same_pages s s' (left_by (rw (rc_handle_filent, block, ghost) at done)) none_set
        | inr entry ↦ elim (Option-cases (s.inode_table ino)) [
          | inl missing ↦
              same_pages s s' (left_by (rw (rc_handle_filent, block, entry, missing) at done))
                none_set
          | inr (inode, found) ↦
              let fe = pm.filent idx in
              let filent : RcFilent = record {
                id = s.next_id;
                ts = fe.ts;
                p_idx = fe.p_idx;
                l_idx = fe.l_idx;
                blocks = fe.blocks;
              } in
              let held = record s {
                file_map = set_bit idx s.file_map;
                refs = store s.refs s.next_id ref;
                next_id = s.next_id + 1;
              } in
              same_pages (rc_map_filent filent ino inode held) s'
                (left_by (rw (rc_handle_filent, block, entry, found) at done))
                (rc_map_filent-HasNoPages filent ino inode held (same_pages s held refl none_set))
        ]
      ]
    ]

RcStep-HasNoPages :
    {malloc : RcMalloc} {pm : RcPm} {s s' : RcMgr}
    → RcStep malloc pm s s'
    → HasNoPages s
    → HasNoPages s'
unfolding rc_start
RcStep-HasNoPages {s} {s'} (RcStep.push_root got) none_set = same_pages s s' refl none_set
RcStep-HasNoPages {s} {s'} (RcStep.pop got) none_set = same_pages s s' refl none_set
RcStep-HasNoPages {malloc} {pm} {s} {s'} (RcStep.start ino inode got) none_set =
    same_pages s s' (rc_iget-data_map malloc ino s got) none_set
RcStep-HasNoPages {malloc} {pm} {s} {s'} (RcStep.dirent ino idx done) none_set =
    same_pages s s' (rc_handle_dirent-data_map malloc pm ino idx s done) none_set
RcStep-HasNoPages {malloc} {pm} {s} {s'} (RcStep.filent ino idx done) none_set =
    rc_handle_filent-HasNoPages malloc pm ino idx s none_set done

RcReach-HasNoPages :
    {malloc : RcMalloc} {pm : RcPm} {s s' : RcMgr}
    → HasNoPages s
    → RcReach malloc pm s s'
    → HasNoPages s'
RcReach-HasNoPages none_set RcReach.here = none_set
RcReach-HasNoPages none_set (RcReach.next reach step) =
    RcStep-HasNoPages step (RcReach-HasNoPages none_set reach)

rc_init-data_map :
    (malloc : RcMalloc) (cells : Option (List ℕ)) (inode_num : ℕ) {s : RcMgr}
    → rc_init malloc cells inode_num ≡ some s
    → s.data_map ≡ (λ i. 0)
unfolding rc_init rc_iget queue_init
rc_init-data_map malloc none inode_num got = absurd (cc got)
rc_init-data_map malloc (some cells) inode_num got = ground (arith, got)

rc_init-HasNoPages :
    (malloc : RcMalloc) (cells : Option (List ℕ)) (inode_num : ℕ) {s : RcMgr}
    → rc_init malloc cells inode_num ≡ some s
    → HasNoPages s
unfolding HasNoPages bit
rc_init-HasNoPages malloc cells inode_num {s} got k =
    rw (rc_init-data_map malloc cells inode_num got) (testbit-zero (k % 8))

-- Whatever logs persistent memory holds, and in whichever order the threads handle them after
-- `rc_init` has succeeded: no data page is in its bitmap, so those of all files count as free.
pub recover-HasNoPages :
    (malloc : RcMalloc) (pm : RcPm) (cells : Option (List ℕ)) (inode_num : ℕ) (s s' : RcMgr)
    → rc_init malloc cells inode_num ≡ some s
    → RcReach malloc pm s s'
    → HasNoPages s'
recover-HasNoPages malloc pm cells inode_num s s' got reach =
    RcReach-HasNoPages (rc_init-HasNoPages malloc cells inode_num got) reach
