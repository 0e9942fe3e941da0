-- ===== src/Rename/Moves.antt =====
-- `rename_entry` of slotfs_func.c: the entry goes from one directory to the other, in the trees, the
-- lists and in persistent memory.
use slotfs_eurosys.Dir.{
  Error, Tree, Dirent, Inode, DirState, dirent_lookup, bkdr_hash, below_minus_one,
  slot_dirent_alloc, max_name_len, remove_at,
}
use slotfs_eurosys.Base.{
  [], ◌∷◌, true, false, none, some, inl, inr, refl, arith, ◌∙◌, ◌⊎◌, ap, sym, get_elem?, ◌==◌,
  if◌then◌else◌, ◌≡◌, ◌≢◌, ◌≤◌, ◌++◌, List, ℕ, length, leb, Bool-cases, ◌&&◌, ◌||◌,
}
use slotfs_eurosys.Dir.Chain.{has_idx, has_idx-append, Linked-frame}
use slotfs_eurosys.Dir.Log.{IsValid, dir_remove_entry-IsValid}
use slotfs_eurosys.Rename.Steps.{
  append_new_name_lem, remove_old_name_lem, HasNewName, dir_remove_entry-dirent,
  dir_remove_entry-log_head,
}
use slotfs_eurosys.Rename.{
  commit_rename, rename_entry, position_of, remove_old_name, journal_rename, RenameState, old_part,
  new_part, names_fit,
}

-- The directories are different inodes, and no slot of an entry of the old one is in the new one.
pub record AreApart (old new : Inode) : Type 0 where
  pub inodes : old.i_ino ≢ new.i_ino
  pub entries : (j : ℕ) → has_idx j old.list ≡ true → has_idx j new.list ≡ false
  pub new_ghost : has_idx new.ghost_slot old.list ≡ false

-- The entry `od` has moved from `s` to `t`: to the entry `d` of the new directory.
pub record IsMoved (od : Dirent) (new_name : List ℕ) (s : RenameState) (d : Dirent)
    (t : RenameState) : Type 0 where
  pub number : d.ino ≡ od.ino
  pub old_lookups :
      (h : ℕ)
      → dirent_lookup t.old_dir.rb_root h
        ≡ (if od.hash == h then none else dirent_lookup s.old_dir.rb_root h)
  pub new_lookups :
      (h : ℕ)
      → dirent_lookup t.new_dir.rb_root h
        ≡ (if bkdr_hash new_name == h then some d else dirent_lookup s.new_dir.rb_root h)
  pub old_list : t.old_dir.list ≡ remove_at s.old_dir.list (position_of od.idx s.old_dir.list)
  pub new_list : t.new_dir.list ≡ s.new_dir.list ++ (d ∷ [])
  pub old_valid : IsValid (old_part t)
  pub new_valid : IsValid (new_part t)
  pub stored : (t.pm.dirent d.idx).name ≡ new_name
  pub committed : t.rjnl.valid ≡ false

-- A directory stays valid where persistent memory keeps its entries and its head.
IsValid-frame :
    {s t : DirState}
    → IsValid s
    → t.dir ≡ s.dir
    → t.pm.log_head s.dir.i_ino ≡ s.pm.log_head s.dir.i_ino
    → ((j : ℕ) → has_idx j s.dir.list ≡ true → t.pm.dirent j ≡ s.pm.dirent j)
    → IsValid t
IsValid-frame {s} {t} valid same head entries = rw same (record {
  head = head ∙ valid.head;
  chain =
      Linked-frame s.pm.dirent t.pm.dirent s.dir.log_head s.dir.ghost_slot s.dir.list entries
        valid.chain;
  apart = valid.apart;
  ghost_apart = valid.ghost_apart;
})

module _ (rb_insert_color : Tree → Tree) (rb_erase : Dirent → Tree → Tree)
    (keeps : (t : Tree) (h : ℕ) → dirent_lookup (rb_insert_color t) h ≡ dirent_lookup t h)
    (od : Dirent) (new_name : List ℕ) (s : RenameState) (old_valid : IsValid (old_part s))
    (apart : AreApart s.old_dir s.new_dir)
    (listed : get_elem? s.old_dir.list (position_of od.idx s.old_dir.list) ≡ some od)
    (erases : (h : ℕ)
      → dirent_lookup (rb_erase od s.old_dir.rb_root) h
        ≡ (if od.hash == h then none else dirent_lookup s.old_dir.rb_root h)) where
  -- The old entry goes, in a state that has the new one.
  finish :
      (t : RenameState) (d : Dirent)
      → HasNewName od.ino new_name s d t
      → IsMoved od new_name s d (commit_rename (remove_old_name rb_insert_color rb_erase od t))
  unfolding commit_rename remove_old_name
  finish t d has =
      let place = position_of od.idx t.old_dir.list in
      let at_list : get_elem? t.old_dir.list place ≡ some od = rw has.old listed in
      let (root, other, journal) =
        remove_old_name_lem rb_insert_color rb_erase keeps od t at_list in
      let before : IsValid (old_part t) =
        IsValid-frame old_valid has.old (ap (λ (m : ℕ → ℕ). m s.old_dir.i_ino) has.heads) (λ j k.
          has.others j (λ (e : d.idx ≡ j).
            cc
              (sym k ∙ ap (λ i. has_idx i s.old_dir.list) (sym e ∙ has.slot) ∙ apart.new_ghost))) in
      let (valid, list, ghost) = dir_remove_entry-IsValid rb_erase place before at_list in
      let out : (j : ℕ) → has_idx j t.new_dir.list ≡ true → has_idx j t.old_dir.list ≡ false =
        λ j k. rw has.old (elim (Bool-cases (has_idx j s.old_dir.list)) [
          | inr no_entry ↦ no_entry
          | inl shared ↦
              let in_new : has_idx j s.new_dir.list || (d.idx == j) ≡ true =
                sym (has_idx-append j s.new_dir.list d)
                ∙ ap (λ ds. has_idx j ds) (sym has.list)
                ∙ k in
              let at_ghost : d.idx ≡ j = ground (arith, in_new, apart.entries j shared) in
              cc (
                sym shared
                ∙ ap (λ i. has_idx i s.old_dir.list) (sym at_ghost ∙ has.slot)
                ∙ apart.new_ghost)
        ]) in
      let in_new : has_idx d.idx t.new_dir.list ≡ true =
        ap (λ ds. has_idx d.idx ds) has.list
        ∙ has_idx-append d.idx s.new_dir.list d
        ∙ ground arith in
      let inodes : t.old_dir.i_ino ≢ t.new_dir.i_ino =
        λ e. apart.inodes (ap (λ (i : Inode). i.i_ino) (sym has.old) ∙ e ∙ has.inode) in
      record {
        number = has.number;
        old_lookups = λ h.
            ap (λ r. dirent_lookup r h) root
            ∙ ap (λ (i : Inode). dirent_lookup (rb_erase od i.rb_root) h) has.old
            ∙ erases h;
        new_lookups = has.lookups;
        old_list = list ∙ ap (λ (i : Inode). remove_at i.list (position_of od.idx i.list)) has.old;
        new_list = has.list;
        old_valid = valid;
        new_valid =
            IsValid-frame has.valid refl
              (dir_remove_entry-log_head rb_erase place (old_part t) at_list t.new_dir.i_ino inodes)
              (λ j k. dir_remove_entry-dirent rb_erase place (old_part t) at_list j (out j k));
        stored =
            ap (λ e. e.name)
              (dir_remove_entry-dirent rb_erase place (old_part t) at_list d.idx (out d.idx in_new))
            ∙ has.stored;
        committed = refl;
      }

  -- Let both directories be valid and different inodes, and no slot of an entry of the old one be
  -- in the new one. Let `rb_insert_color` change no lookup, and `rb_erase` of the old entry take that
  -- out of the lookups and nothing else. Let the entry be in the old directory's list, and the new
  -- name not in the new directory's tree; let the names have 64 characters at most, `malloc` succeed,
  -- and the allocation give a slot, not -2 or below, that the new directory does not have. Then the
  -- rename goes through, and the entry has moved:
  -- the old directory has it no more, in the tree, the list and the chain; the new one has, as its
  -- last, one for the same inode, found under the new name, which persistent memory has in its slot;
  -- all other entries are as before, both directories are valid, and the journal is not valid.
  pub rename_entry-IsMoved :
      (cpu : ℕ) (fake : Inode) (old_name : List ℕ)
      → IsValid (new_part s)
      → length old_name ≤ max_name_len
      → length new_name ≤ max_name_len
      → let ghost = (slot_dirent_alloc cpu s.maps).0 in
        below_minus_one ghost ≡ false
        → has_idx ghost s.new_dir.list ≡ false
        → s.new_dir.ghost_slot ≢ ghost
        → dirent_lookup s.new_dir.rb_root (bkdr_hash new_name) ≡ none
        → (d : Dirent) × (t : RenameState) × (rename_entry rb_insert_color rb_erase true cpu fake od
              old_name new_name s
            ≡ some t)
          × IsMoved od new_name s d t
  unfolding rename_entry journal_rename names_fit
  rename_entry-IsMoved cpu fake old_name new_valid short_old short_new room fresh other missing =
      let s1 = record s {
        rjnl = record {
          valid = true;
          old_parent = s.old_dir.i_ino;
          new_parent = s.new_dir.i_ino;
          old_name = old_name;
          new_name = new_name;
        };
      } in
      let fit : leb (length old_name) max_name_len && leb (length new_name) max_name_len ≡ true =
        ground (arith, short_old, short_new) in
      let (d, t, runs, has) =
        append_new_name_lem rb_insert_color rb_erase keeps cpu fake od.ino new_name s1 new_valid
          short_new room fresh other missing in
      (
        d,
        commit_rename (remove_old_name rb_insert_color rb_erase od t),
        rw (rename_entry, journal_rename, names_fit, fit)
            (ap
              (λ (r : (Dirent ⊎ Error) × RenameState). some (elim r.0 [
                | inr e ↦ r.1
                | inl _ ↦ commit_rename (remove_old_name rb_insert_color rb_erase od r.1)
              ]))
              runs),
        finish t d (record {
          number = has.number;
          slot = has.slot;
          lookups = has.lookups;
          valid = has.valid;
          list = has.list;
          inode = has.inode;
          stored = has.stored;
          others = has.others;
          heads = has.heads;
          old = has.old;
        }),
      )
