-- ===== src/Recovery/Flush.antt =====
-- `rc_flush` of slotfs/recover.c: what the recovery found goes to persistent memory.
use slotfs_eurosys.Base.{
  zero, suc, true, false, none, some, inl, inr, refl, ℕ, Option, if◌then◌else◌, ◌+◌, ◌-◌, ◌/◌, ◌<◌,
  ◌≤◌, ◌≡◌, ◌&&◌, ltb, leb, arith, ◌==◌, Bool-cases, Option-cases, ◌∙◌,
}
use slotfs_eurosys.Base.Memory.{store}
use slotfs_eurosys.Bitmap.{Bytes}
use slotfs_eurosys.Mkfs.{PmSlot, PmSlots}
use slotfs_eurosys.Recovery.{RcMgr, RcInode}

-- The loop over the inodes, from the inode `i` on with so many left.
unfoldable pub flush_entry_nums : ℕ → ℕ → (ℕ → Option RcInode) → (ℕ → ℕ) → ℕ → ℕ
flush_entry_nums zero i table entry_num = entry_num
flush_entry_nums (suc left) i table entry_num =
    flush_entry_nums left (i + 1) table
      (elim (table i) [ none ↦ entry_num | some inode ↦ store entry_num i inode.entry_num ])

-- `memcpy` of the bytes of one bitmap.
unfoldable pub flush_map : PmSlot → Bytes → Bytes → Bytes
flush_map slot map byte a =
    if leb slot.bitmap a && ltb a (slot.bitmap + (slot.slot_num + 7) / 8)
    then map (a - slot.bitmap)
    else byte a

-- The bytes of persistent memory and the inodes' `entry_num` in it.
unfoldable pub rc_flush : PmSlots → RcMgr → Bytes × (ℕ → ℕ) → Bytes × (ℕ → ℕ)
rc_flush slots s (byte, entry_num) = (
  flush_map slots.data_slot s.data_map (
      flush_map slots.file s.file_map
        (flush_map slots.dir s.dir_map (flush_map slots.inode s.inode_map byte))),
  flush_entry_nums slots.inode.slot_num 0 s.inode_table entry_num,
)

flush_map_inside :
    (slot : PmSlot) (map byte : Bytes) (t : ℕ)
    → t < (slot.slot_num + 7) / 8
    → flush_map slot map byte (slot.bitmap + t) ≡ map t
unfolding flush_map
flush_map_inside slot map byte t lt =
    let here : slot.bitmap + t - slot.bitmap ≡ t = omega arith in
    let low : leb slot.bitmap (slot.bitmap + t) ≡ true = ground arith in
    let high : ltb (slot.bitmap + t) (slot.bitmap + (slot.slot_num + 7) / 8) ≡ true =
      ground arith in
    rw (low, high, here) refl

flush_map_below :
    (slot : PmSlot) (map byte : Bytes) (a : ℕ)
    → a < slot.bitmap
    → flush_map slot map byte a ≡ byte a
unfolding flush_map
flush_map_below slot map byte a lt =
    let low : leb slot.bitmap a ≡ false = ground arith in rw low refl

flush_entry_nums_below :
    (left i : ℕ) (table : ℕ → Option RcInode) (entry_num : ℕ → ℕ) (ino : ℕ)
    → ino < i
    → flush_entry_nums left i table entry_num ino ≡ entry_num ino
unfolding flush_entry_nums
flush_entry_nums_below zero i table entry_num ino lt = refl
flush_entry_nums_below (suc left) i table entry_num ino lt = elim (Option-cases (table i)) [
  | inl got ↦ rw got (flush_entry_nums_below left (i + 1) table entry_num ino (omega (arith, lt)))
  | inr (inode, got) ↦
      let other : i == ino ≡ false = ground (arith, lt) in
      let rest =
        flush_entry_nums_below left (i + 1) table (store entry_num i inode.entry_num) ino
          (omega (arith, lt)) in
      rw got (rest ∙ rw other refl)
]

flush_entry_nums_at :
    (left i : ℕ) (table : ℕ → Option RcInode) (entry_num : ℕ → ℕ) (ino : ℕ) (inode : RcInode)
    → i ≤ ino
    → ino < i + left
    → table ino ≡ some inode
    → flush_entry_nums left i table entry_num ino ≡ inode.entry_num
unfolding flush_entry_nums
flush_entry_nums_at zero i table entry_num ino inode from to got = absurd (omega (arith, from, to))
flush_entry_nums_at (suc left) i table entry_num ino inode from to got =
    elim (Bool-cases (i == ino)) [
      | inl e ↦
          let same : i ≡ ino = ground (arith, e) in
          let here : table i ≡ some inode = rw same got in
          let rest =
            flush_entry_nums_below left (i + 1) table (store entry_num i inode.entry_num) ino
              (omega (arith, same)) in
          rw here (rest ∙ rw e refl)
      | inr e ↦
          flush_entry_nums_at left (i + 1) table _ ino inode (ground (arith, from, e))
            (omega (arith, to)) got
    ]

flush_entry_nums_unmet :
    (left i : ℕ) (table : ℕ → Option RcInode) (entry_num : ℕ → ℕ) (ino : ℕ)
    → table ino ≡ none
    → flush_entry_nums left i table entry_num ino ≡ entry_num ino
unfolding flush_entry_nums
flush_entry_nums_unmet zero i table entry_num ino unmet = refl
flush_entry_nums_unmet (suc left) i table entry_num ino unmet = elim (Option-cases (table i)) [
  | inl got ↦ rw got (flush_entry_nums_unmet left (i + 1) table entry_num ino unmet)
  | inr (inode, got) ↦ elim (Bool-cases (i == ino)) [
    | inl e ↦
        let same : i ≡ ino = ground (arith, e) in
        let here : table i ≡ none = rw same unmet in absurd (cc)
    | inr other ↦
        let rest =
          flush_entry_nums_unmet left (i + 1) table (store entry_num i inode.entry_num) ino unmet in
        rw got (rest ∙ rw other refl)
  ]
]

-- The bytes of a bitmap are in its place.
unfoldable pub HasMap : PmSlot → Bytes → Bytes → Type 0
HasMap slot map byte = (t : ℕ) → t < (slot.slot_num + 7) / 8 → byte (slot.bitmap + t) ≡ map t

flush_map-HasMap : (slot : PmSlot) (map byte : Bytes) → HasMap slot map (flush_map slot map byte)
unfolding HasMap
flush_map-HasMap slot map byte t lt = flush_map_inside slot map byte t lt

-- A bitmap stays when one behind it is written.
map_stays :
    (slot above : PmSlot) (map other byte : Bytes)
    → slot.bitmap + (slot.slot_num + 7) / 8 ≤ above.bitmap
    → HasMap slot map byte
    → HasMap slot map (flush_map above other byte)
unfolding HasMap
map_stays slot above map other byte order has t lt =
    flush_map_below above other byte (slot.bitmap + t) (omega (arith, lt, order)) ∙ has t lt

-- If the bitmaps of persistent memory follow one another without an overlap, then after `rc_flush`
-- each of them has the bytes that the recovery found for its slot type, and each inode that the
-- recovery met has the `entry_num` that was counted; the other inodes' `entry_num` stays.
pub rc_flush-HasMap :
    (slots : PmSlots) (s : RcMgr) (byte : Bytes) (entry_num : ℕ → ℕ)
    → slots.inode.bitmap + (slots.inode.slot_num + 7) / 8 ≤ slots.dir.bitmap
    → slots.dir.bitmap + (slots.dir.slot_num + 7) / 8 ≤ slots.file.bitmap
    → slots.file.bitmap + (slots.file.slot_num + 7) / 8 ≤ slots.data_slot.bitmap
    → (let (byte', entry_num') = rc_flush slots s (byte, entry_num) in
        HasMap slots.inode s.inode_map byte'
        × HasMap slots.dir s.dir_map byte'
        × HasMap slots.file s.file_map byte'
        × HasMap slots.data_slot s.data_map byte'
        × ((ino : ℕ) (inode : RcInode)
            → ino < slots.inode.slot_num
            → s.inode_table ino ≡ some inode
            → entry_num' ino ≡ inode.entry_num)
        × ((ino : ℕ) → s.inode_table ino ≡ none → entry_num' ino ≡ entry_num ino))
unfolding rc_flush
rc_flush-HasMap slots s byte entry_num dir_above file_above data_above =
    let inode_below : slots.inode.bitmap + (slots.inode.slot_num + 7) / 8 ≤ slots.file.bitmap =
      omega (arith, dir_above, file_above) in
    let inode_lowest : slots.inode.bitmap + (slots.inode.slot_num + 7) / 8
        ≤ slots.data_slot.bitmap =
      omega (arith, dir_above, file_above, data_above) in
    let dir_below : slots.dir.bitmap + (slots.dir.slot_num + 7) / 8 ≤ slots.data_slot.bitmap =
      omega (arith, file_above, data_above) in
    (
      map_stays slots.inode slots.data_slot s.inode_map _ _ inode_lowest (
          map_stays slots.inode slots.file s.inode_map _ _ inode_below (
            map_stays slots.inode slots.dir s.inode_map _ _ dir_above
              (flush_map-HasMap slots.inode s.inode_map _))),
      map_stays slots.dir slots.data_slot s.dir_map _ _ dir_below (
          map_stays slots.dir slots.file s.dir_map _ _ file_above
            (flush_map-HasMap slots.dir s.dir_map _)),
      map_stays slots.file slots.data_slot s.file_map _ _ data_above
          (flush_map-HasMap slots.file s.file_map _),
      flush_map-HasMap slots.data_slot s.data_map _,
      (λ ino inode lt got.
          flush_entry_nums_at slots.inode.slot_num 0 s.inode_table entry_num ino inode (omega arith)
            (omega (arith, lt)) got),
      (λ ino unmet.
          flush_entry_nums_unmet slots.inode.slot_num 0 s.inode_table entry_num ino unmet),
    )
