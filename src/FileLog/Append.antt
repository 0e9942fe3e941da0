-- ===== src/FileLog/Append.antt =====
-- `file_append_entry`: the file's tree, its list and persistent memory after an entry has been added
-- to its log.
use slotfs_eurosys.BTree.Range.{contents-btree_set_range_callback, visit}
use slotfs_eurosys.Base.{
  ◌^◌, ◌%◌, [], ◌∷◌, true, false, none, some, inl, inr, refl, ◌++◌, Bool, ap, ltb, arith, ◌&&◌, leb,
  if◌then◌else◌, ◌+◌, ◌≡◌, List, ◌<◌, ℕ, ◌≤◌, ◌⊎◌, zero, suc, Option, Option-cases, ◌∙◌, sym, ◌-◌,
  get_elem?,
}
use slotfs_eurosys.Dir.{enospc, below_minus_one, Error}
use slotfs_eurosys.Base.Word.{add64, sub64}
use slotfs_eurosys.FileLog.{
  replace, reuse_next, filent_try_reuse, new_ghost, sub64, filent_dispatch, append_new,
  file_append_entry, try_reuse, filent_insert_callback, LogState, filent_of, file_index_insert,
  write_entry,
}
use slotfs_eurosys.Base.Memory.{store}
use slotfs_eurosys.BTree.Place.{capacity}
use slotfs_eurosys.BTree.Grow.{contents}
use slotfs_eurosys.BTree.{BTree, btree_set_range_callback}
use slotfs_eurosys.File.{Filent, PmFilent, FileInode, FilePm}

-- `tree'` is `tree` with the blocks of `fe` written over.
unfoldable pub Covers : Filent → BTree Filent → BTree Filent → Type 0
Covers fe tree tree' =
    (k : ℕ)
    → contents tree' k
      ≡ (if leb fe.l_idx k && ltb k (fe.l_idx + fe.blocks) then some fe else contents tree k)

file_index_insert-Covers :
    (fe : Filent) (s : LogState)
    → s.file.b_root.height ≤ 6
    → 0 < fe.blocks
    → fe.l_idx + fe.blocks < capacity 6
    → Covers fe s.file.b_root (file_index_insert fe s).file.b_root
unfolding Covers file_index_insert
file_index_insert-Covers fe s low some_block small =
    let (ok, held, seen) =
      contents-btree_set_range_callback (λ old idx t. some (filent_insert_callback old idx t))
        filent_insert_callback (λ old idx t. refl) s.file.b_root fe.l_idx (fe.l_idx + fe.blocks)
        (some fe) s low (omega (arith, some_block)) small in
    held

write_entry-Covers :
    (entry : PmFilent) (fno next : ℕ) (list : List Filent) (s : LogState)
    → s.file.b_root.height ≤ 6
    → 0 < entry.blocks
    → entry.l_idx + entry.blocks < capacity 6
    → Covers (filent_of entry fno) s.file.b_root (write_entry entry fno next list s).file.b_root
unfolding write_entry filent_of
write_entry-Covers entry fno next list s low some_block small =
    file_index_insert-Covers (filent_of entry fno)
      (record s {
        file = record s.file { list = list };
        refs = store s.refs fno (entry.blocks % 2 ^ 32);
      })
      low some_block small

visit-keeps :
    {A S X : Type 0} (cb : A → ℕ → S → S) (f : S → X)
    → ((old : A) (key : ℕ) (s : S) → f (cb old key s) ≡ f s)
    → (m : ℕ → Option A) (count key : ℕ) (s : S) → f (visit cb m count key s) ≡ f s
unfolding visit
visit-keeps cb f same m zero key s = refl
visit-keeps cb f same m (suc count) key s = elim (Option-cases (m key)) [
  | inl missing ↦ rw missing (visit-keeps cb f same m count (key + 1) s)
  | inr (old, got) ↦
      rw got (visit-keeps cb f same m count (key + 1) (cb old key s) ∙ same old key s)
]

callback-file :
    (old : Filent) (key : ℕ) (s : LogState) → (filent_insert_callback old key s).file ≡ s.file
unfolding filent_insert_callback
callback-file old key s = ground arith

callback-pm : (old : Filent) (key : ℕ) (s : LogState) → (filent_insert_callback old key s).pm ≡ s.pm
unfolding filent_insert_callback
callback-pm old key s = ground arith

-- The callbacks leave all but the tree of the file, and persistent memory.
file_index_insert_same :
    (fe : Filent) (s : LogState)
    → s.file.b_root.height ≤ 6
    → 0 < fe.blocks
    → fe.l_idx + fe.blocks < capacity 6
    → let s' = file_index_insert fe s in
      (s'.file ≡ record s.file { b_root = s'.file.b_root }) × (s'.pm ≡ s.pm)
unfolding file_index_insert
file_index_insert_same fe s low some_block small =
    let (ok, held, seen) =
      contents-btree_set_range_callback (λ old idx t. some (filent_insert_callback old idx t))
        filent_insert_callback (λ old idx t. refl) s.file.b_root fe.l_idx (fe.l_idx + fe.blocks)
        (some fe) s low (omega (arith, some_block)) small in
    let tree =
      (btree_set_range_callback (λ old idx t. some (filent_insert_callback old idx t)) s.file.b_root
        fe.l_idx (fe.l_idx + fe.blocks) (some fe) s).1 in
    let count = fe.l_idx + fe.blocks - fe.l_idx in
    let m = contents s.file.b_root in
    (
      ap (λ (t : LogState). record t.file { b_root = tree }) seen
          ∙ ap (λ (f : FileInode). record f { b_root = tree })
              (visit-keeps filent_insert_callback (λ t. t.file) callback-file m count fe.l_idx s),
      ap (λ (t : LogState). t.pm) seen
          ∙ visit-keeps filent_insert_callback (λ t. t.pm) callback-pm m count fe.l_idx s,
    )

-- `fe` is a new entry, as no entry is looked for or there is none to reuse: it stands in the old ghost slot, behind the others, and `next` is the new
-- ghost slot.
pub record IsNew (few : Bool) (s : LogState) (fe : Filent) (s' : LogState) (next : ℕ) : Type 0 where
  pub none_reused : (few ≡ true) ⊎ (s.invalid ≡ [])
  pub slot : fe.idx ≡ s.file.ghost_slot
  pub list : s'.file.list ≡ s.file.list ++ (fe ∷ [])
  pub link : next ≡ s'.file.ghost_slot
  pub num : s'.file.entry_num ≡ add64 s.file.entry_num 1

-- `fe` takes the slot and the place of `old`, the first entry of `invalid`, and `next` is the slot
-- behind it in the list.
pub record IsReused (few : Bool) (s : LogState) (fe : Filent) (s' : LogState) (next : ℕ)
    (old : Filent) : Type 0 where
  pub looked : few ≡ false
  pub first : get_elem? s.invalid 0 ≡ some old
  pub slot : fe.idx ≡ old.idx
  pub list : s'.file.list ≡ replace old.idx fe s.file.list
  pub link : next ≡ reuse_next s.file.ghost_slot old.idx s.file.list
  pub ghost : s'.file.ghost_slot ≡ s.file.ghost_slot
  pub num : s'.file.entry_num ≡ s.file.entry_num

abbrev pub IsPlaced : Bool → LogState → Filent → LogState → ℕ → Type 0
IsPlaced few s fe s' next =
    IsNew few s fe s' next ⊎ ((old : Filent) × IsReused few s fe s' next old)

-- The entry covers its blocks, and only its slot is written in persistent memory, with its fields
-- and `next`. Or nothing has changed but `maps` and `invalid_num`.
unfoldable pub Appended : Bool → PmFilent → LogState → (Filent ⊎ Error) × LogState → Type 0
Appended few entry s (inl fe, s') =
    Covers fe s.file.b_root s'.file.b_root
    × (fe ≡ filent_of entry fe.idx)
    × (s'.file.log_head ≡ s.file.log_head)
    × ((next : ℕ) × IsPlaced few s fe s' next
        × (s'.pm
            ≡ record s.pm { filent = store s.pm.filent fe.idx (record entry { next = next }) }))
Appended few entry s (inr e, s') =
    (s'.file ≡ s.file)
    × (s'.pm ≡ s.pm)
    × (s'.invalid ≡ s.invalid)
    × (s'.refs ≡ s.refs)
    × (s'.data_maps ≡ s.data_maps)

-- What `write_entry` leaves of the file's fields and of persistent memory.
write_entry_same :
    (entry : PmFilent) (fno next : ℕ) (list : List Filent) (s : LogState)
    → s.file.b_root.height ≤ 6
    → 0 < entry.blocks
    → entry.l_idx + entry.blocks < capacity 6
    → let s' = write_entry entry fno next list s in
      (s'.file ≡ record s.file { list = list; b_root = s'.file.b_root })
      × (s'.pm ≡ record s.pm { filent = store s.pm.filent fno (record entry { next = next }) })
unfolding write_entry filent_of
write_entry_same entry fno next list s low some_block small =
    let (file, pm) =
      file_index_insert_same (filent_of entry fno)
        (record s {
          file = record s.file { list = list };
          refs = store s.refs fno (entry.blocks % 2 ^ 32);
        })
        low some_block small in
    (
      file,
      ap (λ (p : FilePm). record p { filent = store p.filent fno (record entry { next = next }) })
          pm,
    )

append_new-Appended :
    (few memory symlink : Bool) (cpu : ℕ) (entry : PmFilent) (s : LogState)
    → (few ≡ true) ⊎ (s.invalid ≡ [])
    → s.file.b_root.height ≤ 6
    → 0 < entry.blocks
    → entry.l_idx + entry.blocks < capacity 6
    → Appended few entry s (append_new memory symlink cpu entry s)
unfolding append_new Appended filent_of
append_new-Appended few false symlink cpu entry s why low some_block small =
    (refl, refl, refl, refl, refl)
append_new-Appended few true symlink cpu entry s why low some_block small =
    let (ghost, maps') = new_ghost symlink cpu s.maps in
    let fno = s.file.ghost_slot in
    let fe = filent_of entry fno in
    let list = s.file.list ++ (fe ∷ []) in
    let s1 = record s { file = record s.file { ghost_slot = ghost }; maps = maps' } in
    let s2 = write_entry entry fno ghost list s1 in
    let done = record s2 { file = record s2.file { entry_num = add64 s2.file.entry_num 1 } } in
    let (file, pm) = write_entry_same entry fno ghost list s1 low some_block small in
    elim (below_minus_one ghost)
      as (λ b.
        Appended few entry s
          (if b then (inr enospc, record s { maps = maps' }) else (inl fe, done))) [
            | true ↦ (refl, refl, refl, refl, refl)
            | false ↦ (
              write_entry-Covers entry fno ghost list s1 low some_block small,
              refl,
              ap (λ (f : FileInode). f.log_head) file,
              (
                ghost,
                inl (record {
                  none_reused = why;
                  slot = refl;
                  list = ap (λ (f : FileInode). f.list) file;
                  link = sym (ap (λ (f : FileInode). f.ghost_slot) file);
                  num = ap (λ (f : FileInode). add64 f.entry_num 1) file;
                }),
                pm,
              ),
            )
          ]

-- The same for a given list of entries to reuse; `invalid_num` is one less already.
reuse-Appended :
    (memory symlink : Bool) (cpu : ℕ) (entry : PmFilent) (s : LogState) (invalid : List Filent)
    → s.invalid ≡ invalid
    → s.file.b_root.height ≤ 6
    → 0 < entry.blocks
    → entry.l_idx + entry.blocks < capacity 6
    → let (reused, s1) = try_reuse invalid (record s { invalid_num = sub64 s.invalid_num 1 }) in
      Appended false entry s (elim reused [
        | none ↦ append_new memory symlink cpu entry s1
        | some fe ↦
            let next = reuse_next s1.file.ghost_slot fe.idx s1.file.list in
            let new = filent_of entry fe.idx in
            (inl new, write_entry entry fe.idx next (replace fe.idx new s1.file.list) s1)
      ])
unfolding try_reuse Appended filent_of
reuse-Appended memory symlink cpu entry s [] same low some_block small =
    counted (append_new memory symlink cpu entry (record s { invalid_num = sub64 s.invalid_num 1 }))
      (append_new-Appended false memory symlink cpu entry
        (record s { invalid_num = sub64 s.invalid_num 1 }) (inr same) low some_block small)
  where
    counted :
        (r : (Filent ⊎ Error) × LogState)
        → Appended false entry (record s { invalid_num = sub64 s.invalid_num 1 }) r
        → Appended false entry s r
    counted (inl fe, s') (covers, form, head, (next, inl new, pm)) = (
      covers,
      form,
      head,
      (
        next,
        inl (record {
          none_reused = new.none_reused;
          slot = new.slot;
          list = new.list;
          link = new.link;
          num = new.num;
        }),
        pm,
      ),
    )
    counted (inl fe, s') (covers, form, head, (next, inr (old, r), pm)) = (
      covers,
      form,
      head,
      (
        next,
        inr (
          old,
          record {
            looked = r.looked;
            first = r.first;
            slot = r.slot;
            list = r.list;
            link = r.link;
            ghost = r.ghost;
            num = r.num;
          },
        ),
        pm,
      ),
    )
    counted (inr e, s') h = h
reuse-Appended memory symlink cpu entry s (fe ∷ rest) same low some_block small =
    let s1 = record s { invalid = rest; invalid_num = sub64 (sub64 s.invalid_num 1) 1 } in
    let next = reuse_next s.file.ghost_slot fe.idx s.file.list in
    let new = filent_of entry fe.idx in
    let list = replace fe.idx new s.file.list in
    let (file, pm) = write_entry_same entry fe.idx next list s1 low some_block small in
    (
      write_entry-Covers entry fe.idx next list s1 low some_block small,
      refl,
      ap (λ (f : FileInode). f.log_head) file,
      (
        next,
        inr (
          fe,
          record {
            looked = refl;
            first = rw same refl;
            slot = refl;
            list = ap (λ (f : FileInode). f.list) file;
            link = refl;
            ghost = ap (λ (f : FileInode). f.ghost_slot) file;
            num = ap (λ (f : FileInode). f.entry_num) file;
          },
        ),
        pm,
      ),
    )

-- On a tree of height 6 at most, and for an entry of at least one block that ends below 2 ^ 56,
-- `file_append_entry` returns an entry with the given fields. If no entry is looked for, or there is
-- none to reuse, it is a new one, at the end of the list and in the old ghost slot, linked to the new
-- ghost slot; otherwise it stands in the slot and the place of the first entry to reuse, linked to
-- the slot behind that one. The tree has it at its blocks, and is as before elsewhere; persistent
-- memory has its fields and the link in its slot, and all other slots, and `log_head`, are as before.
-- Or it fails: then the file, persistent memory, the entries to reuse and the data pages in use are
-- as before.
pub file_append_entry-Appended :
    (few memory symlink : Bool) (cpu : ℕ) (entry : PmFilent) (s : LogState)
    → s.file.b_root.height ≤ 6
    → 0 < entry.blocks
    → entry.l_idx + entry.blocks < capacity 6
    → Appended few entry s (file_append_entry few memory symlink cpu entry s)
unfolding file_append_entry filent_dispatch filent_try_reuse try_reuse filent_of
file_append_entry-Appended true memory symlink cpu entry s low some_block small =
    append_new-Appended true memory symlink cpu entry s (inl refl) low some_block small
file_append_entry-Appended false memory symlink cpu entry s low some_block small =
    reuse-Appended memory symlink cpu entry s s.invalid refl low some_block small
