-- ===== src/Dir/Log.antt =====
-- The log of a directory: appending and removing entries keep the chain in persistent memory equal to
-- the list in DRAM.
use slotfs_eurosys.Dir.Unlink.{
  frame_next, head_other, next_index-next_or, next_or, has_idx-removed, unlink, unlink_first,
}
use slotfs_eurosys.Base.{
  [], ◌∷◌, zero, suc, true, false, some, inl, refl, lt_length_of_get, ◌==◌, get_of_lt, ◌≡◌, ℕ, List,
  get_elem?, ◌≢◌, ◌++◌, arith, ap, ◌∙◌, length, ◌≤◌, ltb,
}
use slotfs_eurosys.Dir.Chain.{
  distinct-remove_at, has_idx-remove_at, has_idx-append, distinct-append, Linked-append, Mirrors,
  Linked-frame, has_idx, distinct, Linked,
}
use slotfs_eurosys.Dir.{
  write_prev, next_index, dir_remove_entry, store, bkdr_hash, below_minus_one, Dirent,
  slot_dirent_alloc, PmDirent, Inode, set_next, remove_at, Tree, DirState, dir_append_entry,
  max_name_len,
}
use slotfs_eurosys.Base.Memory.{store_other, store_same, store}

-- The chain in persistent memory, from `log_head` on, has the entries of the list, in its order, and
-- ends in the ghost slot; no slot is there twice.
pub record IsValid (s : DirState) : Type 0 where
  pub head : s.pm.log_head s.dir.i_ino ≡ s.dir.log_head
  pub chain : Linked s.pm.dirent s.dir.log_head s.dir.list s.dir.ghost_slot
  pub apart : distinct s.dir.list ≡ true
  pub ghost_apart : has_idx s.dir.ghost_slot s.dir.list ≡ false

-- If `dirent_alloc` returns a block, and the name has 64 characters at most, appending to a valid
-- directory gives a valid one with one entry more, provided that the slot that was allocated is
-- neither -2 or below nor one of the directory's. The entry has the number of the inode and the hash
-- of the name; persistent memory has the name, and the entries in other slots are as before.
pub dir_append_entry-IsValid :
    (rb_insert_color : Tree → Tree) (cpu : ℕ) (inode : Inode) (name : List ℕ) {s : DirState}
    → IsValid s
    → length name ≤ max_name_len
    → let ghost = (slot_dirent_alloc cpu s.maps).0 in
      below_minus_one ghost ≡ false
      → has_idx ghost s.dir.list ≡ false
      → s.dir.ghost_slot ≢ ghost
      → (d : Dirent) × (s' : DirState) × (inode' : Inode) × (dir_append_entry rb_insert_color true
            cpu inode name s
          ≡ (inl d, s', inode'))
        × IsValid s'
        × (s'.dir.list ≡ s.dir.list ++ (d ∷ []))
        × (d.ino ≡ inode.i_ino)
        × (d.hash ≡ bkdr_hash name)
        × ((s'.pm.dirent d.idx).name ≡ name)
        × ((j : ℕ) → d.idx ≢ j → s'.pm.dirent j ≡ s.pm.dirent j)
unfolding dir_append_entry
dir_append_entry-IsValid rb_insert_color cpu inode name {s} valid short ok fresh other =
    let fits : ltb max_name_len (length name) ≡ false = ground (arith, short) in
    let ghost = (slot_dirent_alloc cpu s.maps).0 in
    let dno = s.dir.ghost_slot in
    let d : Dirent = record {
      idx = dno;
      ts = inode.ts;
      ino = inode.i_ino;
      hash = bkdr_hash name;
    } in
    let pd : PmDirent = record { name = name; ino = inode.i_ino; ts = inode.ts; next = ghost } in
    let written = store s.pm.dirent dno pd in
    let here : written dno ≡ pd = store_same s.pm.dirent dno pd in
    let mirrors : Mirrors (written dno) d =
      rw here (record { ino = refl; ts = refl; hash = refl }) in
    let old =
      Linked-frame s.pm.dirent written s.dir.log_head dno s.dir.list
        (λ j k.
          store_other s.pm.dirent pd
            (λ q. ground (arith, ap (λ x. has_idx x s.dir.list) q, k, valid.ghost_apart)))
        valid.chain in
    rw (ok, fits)
      (
        d,
        _,
        _,
        refl,
        record {
          head = valid.head;
          chain =
              Linked-append written s.dir.log_head ghost s.dir.list d old mirrors
                (ap (λ (x : PmDirent). x.next) here);
          apart = distinct-append s.dir.list d valid.apart valid.ghost_apart;
          ghost_apart = has_idx-append ghost s.dir.list d ∙ (ground arith);
        },
        refl,
        refl,
        refl,
        ap (λ (x : PmDirent). x.name) here,
        λ j ne. store_other s.pm.dirent pd ne,
      )

still_apart :
    {s : DirState} → IsValid s → (i : ℕ) → has_idx s.dir.ghost_slot (remove_at s.dir.list i) ≡ false
still_apart {s} valid i =
    ground (arith, has_idx-remove_at s.dir.ghost_slot s.dir.list i, valid.ghost_apart)

-- The chain after `dir_remove_entry`, with the `next` of the removed entry cleared.
chain_first :
    {s : DirState} {d : Dirent} (valid : IsValid s)
    → get_elem? s.dir.list 0 ≡ some d
    → (s.dir.log_head ≡ d.idx)
      × Linked
          (set_next s.pm.dirent d.idx 0)
          (next_index s.dir 0)
          (remove_at s.dir.list 0)
          s.dir.ghost_slot
chain_first {s} {d} valid got =
    let (e, link) =
      unlink_first s.pm.dirent s.dir.log_head s.dir.ghost_slot s.dir.list got valid.chain in
    let out = has_idx-removed s.dir.list 0 valid.apart got in
    (e, rw (next_index-next_or s.dir 0) (frame_next s.pm.dirent d.idx 0 _ _ _ out link))

chain_later :
    {s : DirState} {d : Dirent} (k : ℕ) (valid : IsValid s)
    → get_elem? s.dir.list (suc k) ≡ some d
    → (prev : Dirent) × (get_elem? s.dir.list k ≡ some prev)
      × (s.dir.log_head ≢ d.idx)
      × Linked
          (set_next (set_next s.pm.dirent prev.idx (next_index s.dir (suc k))) d.idx 0)
          s.dir.log_head
          (remove_at s.dir.list (suc k))
          s.dir.ghost_slot
chain_later {s} {d} k valid got =
    let ds = s.dir.list in
    let (prev, at_prev) = get_of_lt ds k (omega (arith, lt_length_of_get ds (suc k) got)) in
    let link =
      unlink s.pm.dirent s.dir.ghost_slot ds k prev s.dir.log_head valid.apart at_prev valid.chain
        got in
    let out = has_idx-removed ds (suc k) valid.apart got in
    let index : next_index s.dir (suc k) ≡ next_or ds (suc (suc k)) s.dir.ghost_slot =
      next_index-next_or s.dir (suc k) ∙ ap (λ j. next_or ds j s.dir.ghost_slot) (omega arith) in
    (
      prev,
      at_prev,
      head_other s.pm.dirent s.dir.log_head s.dir.ghost_slot ds k valid.apart got valid.chain,
      rw index (frame_next _ d.idx 0 _ _ _ out link),
    )

-- `dir_remove_entry` on a valid directory gives a valid one without the entry and with the same
-- ghost slot, whichever entry of the list it is.
pub dir_remove_entry-IsValid :
    (rb_erase : Dirent → Tree → Tree) (i : ℕ) {s : DirState} {d : Dirent}
    → IsValid s
    → get_elem? s.dir.list i ≡ some d
    → let s' = dir_remove_entry rb_erase i s in
      IsValid s' × (s'.dir.list ≡ remove_at s.dir.list i) × (s'.dir.ghost_slot ≡ s.dir.ghost_slot)
unfolding dir_remove_entry write_prev
dir_remove_entry-IsValid rb_erase zero {s} {d} valid got =
    let (e, link) = chain_first valid got in
    let test : (s.dir.log_head == d.idx) ≡ true = ground arith in
    rw (got, dir_remove_entry, test)
      (
        record {
          head = store_same s.pm.log_head s.dir.i_ino (next_index s.dir 0);
          chain = link;
          apart = distinct-remove_at s.dir.list 0 valid.apart;
          ghost_apart = still_apart valid 0;
        },
        refl,
        refl,
      )
dir_remove_entry-IsValid rb_erase (suc k) {s} {d} valid got =
    let (prev, at_prev, ne, link) = chain_later k valid got in
    let test : (s.dir.log_head == d.idx) ≡ false = ground arith in
    rw (got, dir_remove_entry, test, at_prev, write_prev)
      (
        record {
          head = valid.head;
          chain = link;
          apart = distinct-remove_at s.dir.list (suc k) valid.apart;
          ghost_apart = still_apart valid (suc k);
        },
        refl,
        refl,
      )
