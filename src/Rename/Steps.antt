-- ===== src/Rename/Steps.antt =====
-- The calls of a rename, by what they do to lookups and to the chains in persistent memory.
use slotfs_eurosys.Dir.{
  Error, Tree, Dirent, Inode, DirState, dirent_lookup, inserted, dir_append_entry, dir_index_insert,
  dir_remove_entry, bkdr_hash, below_minus_one, slot_dirent_alloc, max_name_len, write_prev,
  set_next, next_index, Pm,
}
use slotfs_eurosys.Base.{
  [], ◌∷◌, zero, suc, true, false, none, some, inl, inr, refl, ◌++◌, ◌∙◌, ◌⊎◌, ap, ◌==◌, List,
  get_elem?, if◌then◌else◌, ◌≡◌, ◌≢◌, ◌≤◌, ℕ, length, ltb, sym, arith, Bool-cases, Option-cases,
  ◌+◌,
}
use slotfs_eurosys.Base.Memory.{store, store_other, store_same}
use slotfs_eurosys.Dir.Chain.{has_idx, has_idx-get}
use slotfs_eurosys.Dir.Log.{IsValid, dir_append_entry-IsValid}
use slotfs_eurosys.Rename.Lookups.{dirent_lookup-link_node}
use slotfs_eurosys.Rename.{position_of, RenameState, append_new_name, remove_old_name, new_part}

-- A slot that no entry of the directory has keeps its entry when the directory removes one.
write_prev-dirent :
    (dir : Inode) (i next j : ℕ) (pm : Pm)
    → has_idx j dir.list ≡ false
    → (write_prev dir i next pm).dirent j ≡ pm.dirent j
unfolding write_prev set_next
write_prev-dirent dir zero next j pm out = refl
write_prev-dirent dir (suc i) next j pm out = elim (Option-cases (get_elem? dir.list i)) [
  | inl missing ↦ rw (missing, write_prev) refl
  | inr (prev, got) ↦
      rw (got, write_prev)
        (store_other pm.dirent (record (pm.dirent prev.idx) { next = next })
          (λ (e : prev.idx ≡ j).
            cc (sym (has_idx-get dir.list i got) ∙ ap (λ k. has_idx k dir.list) e ∙ out)))
]

write_prev-log_head :
    (dir : Inode) (i next : ℕ) (pm : Pm) → (write_prev dir i next pm).log_head ≡ pm.log_head
unfolding write_prev
write_prev-log_head dir zero next pm = refl
write_prev-log_head dir (suc i) next pm = elim (Option-cases (get_elem? dir.list i)) [
  | inl missing ↦ rw (missing, write_prev) refl
  | inr (prev, got) ↦ rw (got, write_prev) refl
]

module _ (rb_erase : Dirent → Tree → Tree) (i : ℕ) (s : DirState) {d : Dirent}
    (got : get_elem? s.dir.list i ≡ some d) where
  pub dir_remove_entry-dirent :
      (j : ℕ)
      → has_idx j s.dir.list ≡ false
      → (dir_remove_entry rb_erase i s).pm.dirent j ≡ s.pm.dirent j
  unfolding dir_remove_entry set_next
  dir_remove_entry-dirent j out =
      let ne : d.idx ≢ j =
        λ e. cc (sym (has_idx-get s.dir.list i got) ∙ ap (λ k. has_idx k s.dir.list) e ∙ out) in
      elim (Bool-cases (s.dir.log_head == d.idx)) [
        | inl head ↦ rw (got, dir_remove_entry) (rw head (store_other s.pm.dirent _ ne))
        | inr later ↦
            rw (got, dir_remove_entry)
              (rw later (
                store_other (write_prev s.dir i (next_index s.dir i) s.pm).dirent _ ne
                ∙ write_prev-dirent s.dir i (next_index s.dir i) j s.pm out))
      ]

  pub dir_remove_entry-log_head :
      (ino : ℕ)
      → s.dir.i_ino ≢ ino
      → (dir_remove_entry rb_erase i s).pm.log_head ino ≡ s.pm.log_head ino
  unfolding dir_remove_entry
  dir_remove_entry-log_head ino ne = elim (Bool-cases (s.dir.log_head == d.idx)) [
    | inl head ↦ rw (got, dir_remove_entry) (rw head (store_other s.pm.log_head _ ne))
    | inr later ↦
        rw (got, dir_remove_entry)
          (rw later
            (ap (λ (m : ℕ → ℕ). m ino) (write_prev-log_head s.dir i (next_index s.dir i) s.pm)))
  ]

-- `t` is `s` with the entry `d` of the given name added to the new directory.
pub record HasNewName (ino : ℕ) (name : List ℕ) (s : RenameState) (d : Dirent) (t : RenameState)
    : Type 0 where
  pub number : d.ino ≡ ino
  pub slot : d.idx ≡ s.new_dir.ghost_slot
  pub lookups :
      (h : ℕ)
      → dirent_lookup t.new_dir.rb_root h
        ≡ (if bkdr_hash name == h then some d else dirent_lookup s.new_dir.rb_root h)
  pub valid : IsValid (new_part t)
  pub list : t.new_dir.list ≡ s.new_dir.list ++ (d ∷ [])
  pub inode : t.new_dir.i_ino ≡ s.new_dir.i_ino
  pub stored : (t.pm.dirent d.idx).name ≡ name
  pub others : (j : ℕ) → d.idx ≢ j → t.pm.dirent j ≡ s.pm.dirent j
  pub heads : t.pm.log_head ≡ s.pm.log_head
  pub old : t.old_dir ≡ s.old_dir

module _ (rb_insert_color : Tree → Tree) (rb_erase : Dirent → Tree → Tree)
    (keeps : (t : Tree) (h : ℕ) → dirent_lookup (rb_insert_color t) h ≡ dirent_lookup t h) where
  inserted-lookup :
      (tree : Tree) (d : Dirent)
      → dirent_lookup tree d.hash ≡ none
      → (h : ℕ)
      → dirent_lookup (inserted rb_insert_color tree d) h
        ≡ (if d.hash == h then some d else dirent_lookup tree h)
  unfolding inserted dir_index_insert
  inserted-lookup tree d missing h =
      let (t, linked, found) = dirent_lookup-link_node d tree missing in
      let root : inserted rb_insert_color tree d ≡ rb_insert_color t =
        rw (inserted, dir_index_insert, linked) refl in
      rw root (keeps t h ∙ found h)

  pub append_new_name_lem :
      (cpu : ℕ) (fake : Inode) (ino : ℕ) (name : List ℕ) (s : RenameState)
      → IsValid (new_part s)
      → length name ≤ max_name_len
      → let ghost = (slot_dirent_alloc cpu s.maps).0 in
        below_minus_one ghost ≡ false
        → has_idx ghost s.new_dir.list ≡ false
        → s.new_dir.ghost_slot ≢ ghost
        → dirent_lookup s.new_dir.rb_root (bkdr_hash name) ≡ none
        → (d : Dirent) × (t : RenameState) × (append_new_name rb_insert_color rb_erase true cpu fake
              ino name s
            ≡ (inl d, t))
          × HasNewName ino name s d t
  unfolding append_new_name dir_append_entry
  append_new_name_lem cpu fake ino name s valid short room fresh other missing =
      let d : Dirent = record {
        idx = s.new_dir.ghost_slot;
        ts = fake.ts;
        ino = ino;
        hash = bkdr_hash name;
      } in
      let (ghost, maps') = slot_dirent_alloc cpu s.maps in
      let fits : ltb max_name_len (length name) ≡ false = ground (arith, short) in
      let named = record fake { i_ino = ino } in
      let u : DirState = record {
        dir = record s.new_dir {
          ghost_slot = ghost;
          list = s.new_dir.list ++ (d ∷ []);
          rb_root = inserted rb_insert_color s.new_dir.rb_root d;
        };
        pm = record s.pm {
          dirent =
              store s.pm.dirent s.new_dir.ghost_slot
                (record { name = name; ino = ino; ts = fake.ts; next = ghost });
        };
        maps = maps';
      } in
      let runs : dir_append_entry rb_insert_color true cpu named name (new_part s)
          ≡ (inl d, u, record named { entry_num = fake.entry_num + 1 }) =
        rw (room, fits) refl in
      let (d2, u2, i2, runs2, valid2, _, _, _, stored2, others2) =
        dir_append_entry-IsValid rb_insert_color cpu named name valid short room fresh other in
      let same = sym runs2 ∙ runs in
      let state_same : u2 ≡ u = ap (λ (r : (Dirent ⊎ Error) × DirState × Inode). r.1) same in
      let t = record s { new_dir = u.dir; pm = u.pm; maps = u.maps } in
      (
        d,
        t,
        rw (room, fits) refl,
        record {
          number = refl;
          slot = refl;
          lookups = inserted-lookup s.new_dir.rb_root d missing;
          valid = rw (← state_same) valid2;
          list = refl;
          inode = refl;
          stored = ap (λ e. e.name) (store_same s.pm.dirent s.new_dir.ghost_slot _);
          others = λ j ne. store_other s.pm.dirent _ ne;
          heads = refl;
          old = refl;
        },
      )

  -- What the removal leaves of the state; `i` is the entry's place.
  pub remove_old_name_lem :
      (od : Dirent) (s : RenameState)
      → get_elem? s.old_dir.list (position_of od.idx s.old_dir.list) ≡ some od
      → let t = remove_old_name rb_insert_color rb_erase od s in
        (t.old_dir.rb_root ≡ rb_erase od s.old_dir.rb_root)
        × (t.new_dir ≡ s.new_dir)
        × (t.rjnl ≡ s.rjnl)
  unfolding remove_old_name dir_remove_entry
  remove_old_name_lem od s listed = (rw (listed, dir_remove_entry) refl, refl, refl)
