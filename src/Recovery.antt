-- ===== src/Recovery.antt =====
-- slotfs/recover.c: after a crash, the bitmaps of the slots and the inodes' `entry_num` are found by
-- following the logs from the root. What `malloc` returns is an argument: NULL, or a block with what
-- it holds. The tree of an inode has one leaf and does not grow, so it is a function of the place; a
-- leaf has BRANCH_NUM places, which the code does not check. Debug output is left out.
pub mod Links
pub mod Scan
pub mod Steps
pub mod DataPages
pub mod Flush
mod Tests
use slotfs_eurosys.Base.{
  [], ◌∷◌, zero, suc, true, false, none, some, inl, inr, refl, Bool, ℕ, List, Option, if◌then◌else◌,
  ◌+◌, ◌⊎◌, ◌%◌, ◌==◌, ◌++◌, ◌^◌, ltb, ◌-◌, not, bit_and,
}
use slotfs_eurosys.Bitmap.{clear_bit, set_bit, Bytes}
use slotfs_eurosys.Base.Word.{add64, sub64}
use slotfs_eurosys.File.{PmFilent}
use slotfs_eurosys.Queue.{Queue, queue_push, Push, pushed, full, overrun, queue_pop, queue_init}
use slotfs_eurosys.Base.Memory.{store}
use slotfs_eurosys.Dir.{PmDirent}
use slotfs_eurosys.BTree.{branch_num}

-- `id` is the block that it is in; `ref` of the block is in `refs`.
pub record RcFilent : Type 0 where
  pub id : ℕ
  pub ts : ℕ
  pub p_idx : ℕ
  pub l_idx : ℕ
  pub blocks : ℕ

-- `link` is an `int`; `hint` has the index and the key, and is none while its node is NULL.
pub record RcInode : Type 0 where
  pub log_head : ℕ
  pub entry_num : ℕ
  pub link : ℕ
  pub mode : ℕ
  pub btree : ℕ → Option RcFilent
  pub hint : Option (ℕ × ℕ)
  pub list : List RcFilent

-- The blocks from `malloc`: for an inode, and the `ref` that is in the block for the next entry.
pub record RcMalloc : Type 0 where
  pub inode : ℕ → Option RcInode
  pub filent : ℕ → Option ℕ

-- Persistent memory: the inodes' modes and logs, and the entries.
pub record RcPm : Type 0 where
  pub i_mode : ℕ → ℕ
  pub log_head : ℕ → ℕ
  pub dirent : ℕ → PmDirent
  pub filent : ℕ → PmFilent

-- `map` by slot type.
pub record RcMgr : Type 0 where
  pub inode_map : Bytes
  pub dir_map : Bytes
  pub file_map : Bytes
  pub data_map : Bytes
  pub inode_table : ℕ → Option RcInode
  pub queue : Queue
  pub refs : ℕ → ℕ
  pub next_id : ℕ

-- -ENOMEM, and the assertion in `queue_push`.
pub data Fault : Type 0 where
  no_memory : Fault
  queue_full : Fault

abbrev pub s_ifdir : ℕ
s_ifdir = 16384

unfoldable pub rc_iget : RcMalloc → ℕ → RcMgr → Option (RcInode × RcMgr)
rc_iget malloc ino s = elim (s.inode_table ino) [
  | some inode ↦ some (inode, s)
  | none ↦ elim (malloc.inode ino) [
    | none ↦ none
    | some block ↦
        let inode = record block { list = [] } in
        some (inode, record s { inode_table = store s.inode_table ino (some inode) })
  ]
]

-- An inode of the table with a new `entry_num`.
unfoldable pub count_entry : ℕ → RcMgr → RcMgr
count_entry ino s = elim (s.inode_table ino) [
  | none ↦ s
  | some inode ↦ record s {
    inode_table =
        store s.inode_table ino (some (record inode { entry_num = add64 inode.entry_num 1 }));
  }
]

-- `queue_push`, if `first` holds.
unfoldable pub push_child : Bool → ℕ → RcMgr → RcMgr ⊎ Fault
push_child first child s =
    if first
    then elim (queue_push s.queue child) [
      | pushed q ↦ inl (record s { queue = q })
      | full ↦ inr queue_full
      | overrun ↦ inr queue_full
    ]
    else inl s

-- The entry in slot `idx` of the directory `ino`: the next slot and the state.
unfoldable pub rc_handle_dirent : RcMalloc → RcPm → ℕ → ℕ → RcMgr → (ℕ × RcMgr) ⊎ Fault
rc_handle_dirent malloc pm ino idx s =
    let de = pm.dirent idx in
    elim (rc_iget malloc de.ino s) [
      | none ↦ inr no_memory
      | some (child, s1) ↦
          let link = (child.link + 1) % 2 ^ 32 in
          let linked = record s1 {
            dir_map = set_bit idx s1.dir_map;
            inode_table = store s1.inode_table de.ino (some (record child { link = link }));
          } in
          elim (push_child (link == 1) de.ino linked) [
            | inr e ↦ inr e
            | inl s2 ↦ inl (de.next, count_entry ino s2)
          ]
    ]

-- `free` of an entry that was in the list.
unfoldable pub drop_filent : ℕ → List RcFilent → List RcFilent
drop_filent id [] = []
drop_filent id (f ∷ fs) = if f.id == id then fs else f ∷ drop_filent id fs

-- The place of a key in the leaf, and the new hint. From one key to the next `btree_next` moves on,
-- and from the last place of the leaf to the first.
unfoldable pub btree_get_ptr_hint : ℕ → Option (ℕ × ℕ) → ℕ × (ℕ × ℕ)
btree_get_ptr_hint key none = (key, (key, key))
btree_get_ptr_hint key (some (index, last)) =
    let next = if ltb (index + 1) branch_num then index + 1 else 0 in
    if last == key
    then (index, (index, last))
    else if key == last + 1
    then (next, (next, key))
    else (key, (key, key))

-- A round of the loop over the blocks: the block `filent.l_idx + i`.
unfoldable pub rc_block : RcFilent → ℕ → RcInode × RcMgr → RcInode × RcMgr
rc_block filent i (inode, s) =
    let idx = filent.l_idx + i in
    let (place, hint) = btree_get_ptr_hint idx inode.hint in
    let own_page = sub64 (filent.p_idx + filent.l_idx) idx in
    let taken = record inode { btree = store inode.btree place (some filent); hint = some hint } in
    elim (inode.btree place) [
      | none ↦ (taken, record s { refs = store s.refs filent.id ((s.refs filent.id + 1) % 2 ^ 32) })
      | some old ↦
          if ltb old.ts filent.ts
          then (let ref = (s.refs old.id + 2 ^ 32 - 1) % 2 ^ 32 in
              (
                (if ref == 0 then record taken { list = drop_filent old.id inode.list } else taken),
                record s {
                  refs = store s.refs old.id ref;
                  data_map = clear_bit (sub64 (old.p_idx + old.l_idx) idx) s.data_map;
                },
              ))
          else (
            record inode { hint = some hint },
            record s { data_map = clear_bit own_page s.data_map },
          )
    ]

-- The loop, with the rounds that are left.
unfoldable pub rc_blocks : ℕ → RcFilent → ℕ → RcInode × RcMgr → RcInode × RcMgr
rc_blocks zero filent i st = st
rc_blocks (suc left) filent i st = rc_blocks left filent (i + 1) (rc_block filent i st)

-- The rest of `rc_handle_filent` for an entry of the file that is not its ghost slot.
unfoldable pub rc_map_filent : RcFilent → ℕ → RcInode → RcMgr → RcMgr
rc_map_filent filent ino inode s =
    let (mapped, s') = rc_blocks filent.blocks filent 0 (inode, s) in
    let kept =
      if s'.refs filent.id == 0
      then mapped
      else record mapped { list = mapped.list ++ (filent ∷ []) } in
    count_entry ino (record s' { inode_table = store s'.inode_table ino (some kept) })

unfoldable pub rc_handle_filent : RcMalloc → RcPm → ℕ → ℕ → RcMgr → (ℕ × RcMgr) ⊎ Fault
rc_handle_filent malloc pm ino idx s =
    let fe = pm.filent idx in
    let marked = record s { file_map = set_bit idx s.file_map } in
    elim (malloc.filent s.next_id) [
      | none ↦ inr no_memory
      | some ref ↦
          let filent : RcFilent = record {
            id = s.next_id;
            ts = fe.ts;
            p_idx = fe.p_idx;
            l_idx = fe.l_idx;
            blocks = fe.blocks;
          } in
          let held = record marked { refs = store s.refs s.next_id ref; next_id = s.next_id + 1 } in
          if fe.next == 0 then inl (fe.next, held) else elim (s.inode_table ino) [
            | none ↦ inl (fe.next, held)
            | some inode ↦ inl (fe.next, rc_map_filent filent ino inode held)
          ]
    ]

-- `S_IFDIR` is a bit that other types of files have too.
unfoldable pub has_dir_bit : ℕ → Bool
has_dir_bit mode = not (bit_and mode s_ifdir == 0)

-- The loop over the log of `ino` from slot `idx`, for as many rounds as are given; `none` if the log
-- goes on then.
unfoldable pub rc_entries : RcMalloc → RcPm → Bool → ℕ → ℕ → ℕ → RcMgr → Option (RcMgr ⊎ Fault)
rc_entries malloc pm dir zero ino idx s = if idx == 0 then some (inl s) else none
rc_entries malloc pm dir (suc rounds) ino idx s =
    let handled =
      if dir then rc_handle_dirent malloc pm ino idx s else rc_handle_filent malloc pm ino idx s in
    let rest : Option (RcMgr ⊎ Fault) = elim handled [
      | inr e ↦ some (inr e)
      | inl (next, s') ↦ rc_entries malloc pm dir rounds ino next s'
    ] in
    if idx == 0 then some (inl s) else rest

-- The start of `rc_handle_inode`, on the inode of the table.
unfoldable pub rc_start : RcPm → ℕ → RcInode → RcMgr → RcMgr
rc_start pm ino inode s =
    let opened = record inode { mode = pm.i_mode ino; log_head = pm.log_head ino } in
    let inode' =
      if has_dir_bit (pm.i_mode ino)
      then opened
      else record opened { btree = λ i. none; hint = none } in
    record s {
      inode_map = set_bit ino s.inode_map;
      inode_table = store s.inode_table ino (some inode');
    }

unfoldable pub rc_handle_inode : RcMalloc → RcPm → ℕ → ℕ → RcMgr → Option (RcMgr ⊎ Fault)
rc_handle_inode malloc pm rounds ino s = elim (rc_iget malloc ino s) [
  | none ↦ some (inr no_memory)
  | some (inode, s1) ↦
      rc_entries malloc pm (has_dir_bit (pm.i_mode ino)) rounds ino (pm.log_head ino)
        (rc_start pm ino inode s1)
]

-- `cells` is the array of the queue, NULL if `malloc` failed; the maps are zeroed.
unfoldable pub rc_init : RcMalloc → Option (List ℕ) → ℕ → Option RcMgr
rc_init malloc cells inode_num = elim (queue_init cells inode_num) [
  | none ↦ none
  | some queue ↦
      let empty : RcMgr = record {
        inode_map = λ i. 0;
        dir_map = λ i. 0;
        file_map = λ i. 0;
        data_map = λ i. 0;
        inode_table = λ i. none;
        queue = queue;
        refs = λ i. 0;
        next_id = 0;
      } in
      elim (rc_iget malloc 0 empty) [
        | none ↦ none
        | some (root, s) ↦
            some
              (record s { inode_table = store s.inode_table 0 (some (record root { link = 1 })) })
      ]
]
