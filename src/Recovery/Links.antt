-- ===== src/Recovery/Links.antt =====
-- One entry of a directory in the recovery, when `malloc` returns blocks and the queue has room.
use slotfs_eurosys.Base.{
  [], true, false, some, inl, inr, refl, ℕ, Bool, Option, ◌+◌, ◌≡◌, Option-cases, ◌||◌, ◌≤◌, arith,
  length, ◌%◌, ◌^◌, leb, ◌-◌, ltb, ◌==◌, set, length-set, Bool-cases, ap, ◌∙◌, eq_of_some, sym,
}
use slotfs_eurosys.Base.Memory.{store_same, store}
use slotfs_eurosys.Bitmap.Bits.{bit-set_bit, bit}
use slotfs_eurosys.Bitmap.{set_bit}
use slotfs_eurosys.Recovery.{
  set_bit, RcPm, rc_handle_dirent, add64, store, Queue, RcInode, RcMgr, queue_push, RcMalloc,
  count_entry, push_child, rc_iget,
}
use slotfs_eurosys.Base.Word.{add64}
use slotfs_eurosys.Queue.{Queue, queue_push}

-- `malloc` returns a block for every inode.
unfoldable pub HasMemory : RcMalloc → Type 0
HasMemory malloc = (ino : ℕ) → (block : RcInode) × (malloc.inode ino ≡ some block)

-- Room for `n` more elements.
pub record HasRoom (n : ℕ) (q : Queue) : Type 0 where
  pub order : q.front ≤ q.rear
  pub count : q.rear + n ≤ q.front + q.capacity
  pub array : q.rear + n ≤ length q.cells

pub less_room : {m n : ℕ} {q : Queue} → m ≤ n → HasRoom n q → HasRoom m q
less_room le r = record {
  order = r.order;
  count = omega (arith, le, r.count);
  array = omega (arith, le, r.array);
}

-- What handling `n` entries of the directory `ino` does, with the positions that it sets.
pub record Handles (ino n : ℕ) (is_set : ℕ → Bool) (s s' : RcMgr) : Type 0 where
  pub dirs : (k : ℕ) → bit s'.dir_map k ≡ (is_set k || bit s.dir_map k)
  pub inodes : s'.inode_map ≡ s.inode_map
  pub files : s'.file_map ≡ s.file_map
  pub pages : s'.data_map ≡ s.data_map
  pub counted :
      (inode : RcInode)
      → s.inode_table ino ≡ some inode
      → (inode' : RcInode) × (s'.inode_table ino ≡ some inode')
        × (inode'.entry_num % 2 ^ 64 ≡ (inode.entry_num + n) % 2 ^ 64)
  pub room : (m : ℕ) → HasRoom (n + m) s.queue → HasRoom m s'.queue

pub rc_iget_lem :
    (malloc : RcMalloc) (ino : ℕ) (s : RcMgr)
    → HasMemory malloc
    → (child : RcInode) × (table : ℕ → Option RcInode) × (rc_iget malloc ino s
        ≡ some (child, record s { inode_table = table }))
      × ((j : ℕ) (x : RcInode) → s.inode_table j ≡ some x → table j ≡ some x)
      × ((x : RcInode) → s.inode_table ino ≡ some x → child ≡ x)
unfolding rc_iget HasMemory
rc_iget_lem malloc ino s memory = elim (Option-cases (s.inode_table ino)) [
  | inl missing ↦
      let (block, got) = memory ino in
      let inode = record block { list = [] } in
      (
        inode,
        store s.inode_table ino (some inode),
        rw (rc_iget, missing, got) refl,
        λ j x here. ground (arith, here, missing),
        λ x here. ground (arith, here, missing),
      )
  | inr (inode, found) ↦ (
    inode,
    s.inode_table,
    rw (rc_iget, found) refl,
    λ j x here. here,
    λ x here. ground (arith, here, found),
  )
]

push_child_lem :
    (first : Bool) (child : ℕ) (s : RcMgr)
    → HasRoom 1 s.queue
    → (q : Queue) × (push_child first child s ≡ inl (record s { queue = q }))
      × ((m : ℕ) → HasRoom (1 + m) s.queue → HasRoom m q)
unfolding push_child queue_push
push_child_lem false child s room = (
  s.queue,
  refl,
  λ m r. record {
    order = omega (arith, r.order);
    count = omega (arith, r.count);
    array = omega (arith, r.array);
  },
)
push_child_lem true child s room =
    let q = s.queue in
    let free : leb q.capacity (q.rear - q.front) ≡ false = ground (arith, room.count, room.order) in
    let inside : ltb q.rear (length q.cells) ≡ true = ground (arith, room.array) in
    let same : length (set q.cells q.rear child) ≡ length q.cells =
      length-set q.cells q.rear child in
    (
      record q { cells = set q.cells q.rear child; rear = q.rear + 1 },
      rw (free, inside) refl,
      λ m r. record {
        order = omega (arith, r.order);
        count = omega (arith, r.count);
        array = omega (arith, r.array, same);
      },
    )

count_entry_lem :
    (ino : ℕ) (s : RcMgr) (inode : RcInode)
    → s.inode_table ino ≡ some inode
    → count_entry ino s ≡ record s {
      inode_table =
          store s.inode_table ino (some (record inode { entry_num = add64 inode.entry_num 1 }));
    }
unfolding count_entry
count_entry_lem ino s inode found = rw (count_entry, found) refl

-- The entry in slot `idx`.
pub rc_handle_dirent_lem :
    (malloc : RcMalloc) (pm : RcPm) (ino idx : ℕ) (s : RcMgr)
    → HasMemory malloc
    → HasRoom 1 s.queue
    → (s' : RcMgr) × (rc_handle_dirent malloc pm ino idx s ≡ inl ((pm.dirent idx).next, s'))
      × ((inode : RcInode) → s.inode_table ino ≡ some inode → Handles ino 1 (λ k. idx == k) s s')
unfolding rc_handle_dirent
rc_handle_dirent_lem malloc pm ino idx s memory room =
    let de = pm.dirent idx in
    let (child, table, got, kept, same_child) = rc_iget_lem malloc de.ino s memory in
    let linked = record s {
      dir_map = set_bit idx s.dir_map;
      inode_table = store table de.ino (some (record child { link = (child.link + 1) % 2 ^ 32 }));
    } in
    let (q, pushed, more) = push_child_lem ((child.link + 1) % 2 ^ 32 == 1) de.ino linked room in
    let queued = record linked { queue = q } in
    (
      count_entry ino queued,
      rw (rc_handle_dirent, got, pushed) refl,
      λ inode found.
          let (here, at_ino, number) : (x : RcInode) × (linked.inode_table ino ≡ some x)
              × (x.entry_num ≡ inode.entry_num) =
            elim (Bool-cases (de.ino == ino)) [
              | inl self ↦
                  (let e : de.ino ≡ ino = ground (arith, self) in
                    let at_child : s.inode_table de.ino ≡ some inode = ap s.inode_table e ∙ found in
                    (
                      record child { link = (child.link + 1) % 2 ^ 32 },
                      rw self refl,
                      ap (λ (x : RcInode). x.entry_num) (same_child inode at_child),
                    ))
              | inr other ↦ (inode, rw other (kept ino inode found), refl)
            ] in
          let done = count_entry_lem ino queued here at_ino in
          rw done (record {
            dirs = λ k. bit-set_bit idx s.dir_map k;
            inodes = refl;
            files = refl;
            pages = refl;
            counted = λ x at_x.
                let same : x.entry_num ≡ here.entry_num =
                  ap (λ (y : RcInode). y.entry_num) (eq_of_some (sym at_x ∙ found)) ∙ sym number in
                (
                  record here { entry_num = add64 here.entry_num 1 },
                  store_same linked.inode_table ino
                      (some (record here { entry_num = add64 here.entry_num 1 })),
                  omega (arith, same),
                );
            room = more;
          }),
    )
