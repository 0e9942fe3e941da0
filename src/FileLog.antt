-- ===== src/FileLog.antt =====
-- slotfs/inode.c: an entry is added to the log of a file, in a new slot or in that of an entry none
-- of whose blocks are in use any more. A Filent is a value here; its `ref`, which changes while the
-- tree's leaves point to it, is in `refs` under its slot. The calls run under the inode's lock.
pub mod Append
pub mod Reuse
mod Tests
use slotfs_eurosys.Base.{
  [], ◌∷◌, zero, suc, true, false, none, some, inl, inr, Bool, List, Option, ℕ, if◌then◌else◌, ◌+◌,
  ◌-◌, ◌%◌, ◌^◌, ◌++◌, ◌==◌, ◌⊎◌, not, refl, ltb,
}
use slotfs_eurosys.Dir.{enospc, enomem, Error, below_minus_one, minus_one}
use slotfs_eurosys.Vfs.{enomem}
use slotfs_eurosys.Base.Memory.{store}
use slotfs_eurosys.Base.Word.{sub64, add64}
use slotfs_eurosys.BTree.{BTree, btree_set_range_callback}
use slotfs_eurosys.File.{Filent, PmFilent, FileInode, FilePm}
use slotfs_eurosys.Slot.{DramBitmap, do_slot_alloc, do_slot_free_range}

-- A file with its list `invalid`, persistent memory, and the bitmaps of SLOT_FILE and SLOT_DATA.
pub record LogState : Type 0 where
  pub file : FileInode
  pub invalid : List Filent
  pub invalid_num : ℕ
  pub refs : ℕ → ℕ
  pub pm : FilePm
  pub maps : List DramBitmap
  pub data_maps : List DramBitmap

-- A key as an `int`, and that as a 64-bit word.
unfoldable pub int_of : ℕ → ℕ
int_of key = let low = key % 2 ^ 32 in if ltb low (2 ^ 31) then low else low + (2 ^ 64 - 2 ^ 32)

-- One block of `old` is replaced; the callback takes the key as an `int`.
unfoldable pub filent_insert_callback : Filent → ℕ → LogState → LogState
filent_insert_callback old idx s =
    let ref = (s.refs old.idx + 2 ^ 32 - 1) % 2 ^ 32 in
    let freed = record s {
      refs = store s.refs old.idx ref;
      data_maps = do_slot_free_range s.data_maps (add64 old.p_idx (sub64 (int_of idx) old.l_idx)) 1;
    } in
    if ref == 0
    then record freed { invalid = s.invalid ++ (old ∷ []); invalid_num = add64 s.invalid_num 1 }
    else freed

unfoldable pub file_index_insert : Filent → LogState → LogState
file_index_insert fe s =
    let (ok, tree, s') =
      btree_set_range_callback (λ old idx t. some (filent_insert_callback old idx t)) s.file.b_root
        fe.l_idx (fe.l_idx + fe.blocks) (some fe) s in
    record s' { file = record s'.file { b_root = tree } }

unfoldable pub try_reuse : List Filent → LogState → Option Filent × LogState
try_reuse [] s = (none, s)
try_reuse (fe ∷ rest) s =
    (some fe, record s { invalid = rest; invalid_num = sub64 s.invalid_num 1 })

unfoldable pub filent_try_reuse : LogState → Option Filent × LogState
filent_try_reuse s = try_reuse s.invalid s

-- `few` is the comparison of the ratio of floating-point numbers with APPEND_THRESHOLD.
unfoldable pub filent_dispatch : Bool → LogState → Option Filent × LogState
filent_dispatch few s =
    if few then (none, s) else filent_try_reuse (record s { invalid_num = sub64 s.invalid_num 1 })

-- `reuse_next`: the slot of the entry behind the one in this slot, or the ghost slot.
unfoldable pub reuse_next : ℕ → ℕ → List Filent → ℕ
reuse_next ghost idx [] = ghost
reuse_next ghost idx (f ∷ []) = ghost
reuse_next ghost idx (f ∷ g ∷ fs) =
    let rest = reuse_next ghost idx (g ∷ fs) in if f.idx == idx then g.idx else rest

-- The entry in this slot gets new fields.
unfoldable pub replace : ℕ → Filent → List Filent → List Filent
replace idx fe [] = []
replace idx fe (f ∷ fs) = if f.idx == idx then fe ∷ fs else f ∷ replace idx fe fs

unfoldable pub filent_of : PmFilent → ℕ → Filent
filent_of entry fno = record {
  idx = fno;
  ts = entry.ts;
  l_idx = entry.l_idx;
  p_idx = entry.p_idx;
  blocks = entry.blocks;
  ref = entry.blocks % 2 ^ 32;
}

-- From the fields of `fe` on: the index, and the entry in persistent memory.
unfoldable pub write_entry : PmFilent → ℕ → ℕ → List Filent → LogState → LogState
write_entry entry fno next list s =
    let fe = filent_of entry fno in
    let s' = file_index_insert fe (record s {
      file = record s.file { list = list };
      refs = store s.refs fno (entry.blocks % 2 ^ 32);
    }) in
    record s' {
      pm = record s'.pm { filent = store s'.pm.filent fno (record entry { next = next }) };
    }

-- `slot_firent_alloc`; a symbolic link's ghost slot is 0.
unfoldable pub new_ghost : Bool → ℕ → List DramBitmap → ℕ × List DramBitmap
new_ghost symlink cpu maps =
    let (index, maps') = do_slot_alloc cpu maps in
    if symlink then (0, maps) else (elim index [ none ↦ minus_one | some i ↦ i ], maps')

-- Without an entry to reuse. `memory`: whether `filent_alloc` returned a block.
unfoldable pub append_new : Bool → Bool → ℕ → PmFilent → LogState → (Filent ⊎ Error) × LogState
append_new memory symlink cpu entry s =
    let fno = s.file.ghost_slot in
    let (ghost, maps') = new_ghost symlink cpu s.maps in
    if not memory
    then (inr enomem, s)
    else if below_minus_one ghost
    then (inr enospc, record s { maps = maps' })
    else (let fe = filent_of entry fno in
        let s1 = record s { file = record s.file { ghost_slot = ghost }; maps = maps' } in
        let s2 = write_entry entry fno ghost (s.file.list ++ (fe ∷ [])) s1 in
        (inl fe, record s2 { file = record s2.file { entry_num = add64 s2.file.entry_num 1 } }))

unfoldable pub file_append_entry :
    Bool → Bool → Bool → ℕ → PmFilent → LogState → (Filent ⊎ Error) × LogState
file_append_entry few memory symlink cpu entry s =
    let (reused, s1) = filent_dispatch few s in
    elim reused [
      | none ↦ append_new memory symlink cpu entry s1
      | some fe ↦
          let next = reuse_next s1.file.ghost_slot fe.idx s1.file.list in
          let new = filent_of entry fe.idx in
          (inl new, write_entry entry fe.idx next (replace fe.idx new s1.file.list) s1)
    ]
