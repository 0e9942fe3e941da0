-- ===== src/FileResize/Grow.antt =====
-- The size in the inode, which `inode_resize` leaves, and the entry that `inode_extend` looks for.
use slotfs_eurosys.Base.{
  [], zero, suc, none, some, inl, inr, refl, ℕ, ◌≡◌, ltb, ◌+◌, ◌/◌, ◌==◌, Bool-cases, Option-cases,
  List, Option, ◌%◌, ◌∷◌, ◌++◌, true, arith,
}
use slotfs_eurosys.FileResize.{
  journal_replay_truncate, append_units, commit_truncate, TruncateJnl, extend_loop, extend_by,
  inode_extend, shrink_loop, inode_shrink, inode_resize, ResizeState, Outcome, endless, returned,
  null_entry,
}
use slotfs_eurosys.Journal.{journal_alloc}
use slotfs_eurosys.FileWrite.{WriteState, data_fields, Choices, EntryUnit}
use slotfs_eurosys.FileData.{filent_lookup}

-- The inode's size, if the call returns.
unfoldable pub HasSize : ℕ → Outcome → Type 0
HasSize size (returned failed s) = s.file.i_size ≡ size
HasSize size null_entry = Unit
HasSize size endless = Unit

unfoldable GrowsTo : ℕ → Option (List EntryUnit × WriteState) → Type 0
GrowsTo size none = Unit
GrowsTo size (some (entries, s)) = s.i_size ≡ size

unfoldable ShrinksTo : ℕ → Option WriteState → Type 0
ShrinksTo size none = Unit
ShrinksTo size (some s) = s.i_size ≡ size

extend_loop-size :
    (rounds cpu start_blk num_blk : ℕ) (entries : List EntryUnit) (s : WriteState)
    → GrowsTo s.i_size (extend_loop rounds cpu start_blk num_blk entries s)
unfolding extend_loop GrowsTo
extend_loop-size zero cpu start_blk num_blk entries s = elim (Bool-cases (num_blk == 0)) [
  | inl e ↦ rw e refl
  | inr e ↦ rw e tt
]
extend_loop-size (suc rounds) cpu start_blk num_blk entries s = elim (Bool-cases (num_blk == 0)) [
  | inl e ↦ rw e refl
  | inr e ↦ rw e (extend_loop-size rounds cpu start_blk _ _ _)
]

shrink_loop-size :
    (rounds start_blk end_blk : ℕ) (s : WriteState)
    → ShrinksTo s.i_size (shrink_loop rounds start_blk end_blk s)
unfolding shrink_loop ShrinksTo
shrink_loop-size zero start_blk end_blk s = elim (Bool-cases (ltb start_blk end_blk)) [
  | inl e ↦ rw e tt
  | inr e ↦ rw e refl
]
shrink_loop-size (suc rounds) start_blk end_blk s = elim (Bool-cases (ltb start_blk end_blk)) [
  | inr e ↦ rw e refl
  | inl e ↦ elim (Option-cases (filent_lookup (data_fields s) start_blk)) [
    | inl got ↦ rw (e, got) (shrink_loop-size rounds start_blk end_blk s)
    | inr (fe, got) ↦ elim (Bool-cases (ltb end_blk (start_blk + fe.blocks))) [
      | inl out ↦ rw (e, got, out) refl
      | inr inside ↦ rw (e, got, inside) (shrink_loop-size rounds _ end_blk _)
    ]
  ]
]

append_units-size :
    (choices : Choices) (inode_ts size : ℕ) (s : ResizeState)
    (r : Option (List EntryUnit × WriteState))
    → GrowsTo size r
    → HasSize size (append_units choices inode_ts s r)
unfolding append_units HasSize GrowsTo
append_units-size choices inode_ts size s none grown = tt
append_units-size choices inode_ts size s (some (entries, file)) grown = grown

extend_by-size :
    (rounds : ℕ) (choices : Choices) (inode_ts cpu start_blk num_blk : ℕ) (s : ResizeState)
    → HasSize s.file.i_size (extend_by rounds choices inode_ts cpu start_blk num_blk s)
unfolding extend_by
extend_by-size rounds choices inode_ts cpu start_blk num_blk s =
    append_units-size choices inode_ts s.file.i_size s _
      (extend_loop-size rounds cpu start_blk num_blk [] s.file)

inode_extend-size :
    (rounds : ℕ) (choices : Choices) (inode_ts cpu new_size : ℕ) (s : ResizeState)
    → HasSize s.file.i_size (inode_extend rounds choices inode_ts cpu new_size s)
unfolding inode_extend HasSize
inode_extend-size rounds choices inode_ts cpu new_size s =
    elim (Bool-cases (s.file.i_size % 4096 == 0)) [
      | inl e ↦ rw e (extend_by-size rounds choices inode_ts cpu _ _ s)
      | inr e ↦
          elim (Option-cases (filent_lookup (data_fields s.file) ((s.file.i_size + 4095) / 4096))) [
            | inl got ↦ rw (e, got) tt
            | inr (fe, got) ↦ rw (e, got) (extend_by-size rounds choices inode_ts cpu _ _ s)
          ]
    ]

commit_truncate-size :
    (jnl size : ℕ) (tjnl : TruncateJnl) (r : Option WriteState)
    → ShrinksTo size r
    → HasSize size (commit_truncate jnl tjnl r)
unfolding commit_truncate HasSize ShrinksTo
commit_truncate-size jnl size tjnl none shrunk = tt
commit_truncate-size jnl size tjnl (some file) shrunk = shrunk

inode_shrink-size :
    (rounds new_size : ℕ) (s : ResizeState) → HasSize s.file.i_size (inode_shrink rounds new_size s)
unfolding inode_shrink
inode_shrink-size rounds new_size s =
    let file : WriteState = record s.file { jnl_mgr = (journal_alloc s.file.jnl_mgr).1 } in
    commit_truncate-size _ s.file.i_size _ _
      (shrink_loop-size rounds ((new_size + 4095) / 4096) ((s.file.i_size + 4095) / 4096) file)

-- When `inode_resize` returns, the inode has the size that it had before, also when the new one is
-- larger or smaller.
pub inode_resize-HasSize :
    (rounds : ℕ) (choices : Choices) (inode_ts cpu new_size : ℕ) (s : ResizeState)
    → HasSize s.file.i_size (inode_resize rounds choices inode_ts cpu new_size s)
unfolding inode_resize HasSize
inode_resize-HasSize rounds choices inode_ts cpu new_size s =
    elim (Bool-cases (new_size == s.file.i_size)) [
      | inl same ↦ rw same refl
      | inr other ↦ elim (Bool-cases (ltb new_size s.file.i_size)) [
        | inl less ↦ rw (other, less) (inode_shrink-size rounds new_size s)
        | inr more ↦ rw (other, more) (inode_extend-size rounds choices inode_ts cpu new_size s)
      ]
    ]

-- The entries all begin at this block.
unfoldable pub BeginAt : ℕ → List EntryUnit → Type 0
BeginAt start_blk [] = Unit
BeginAt start_blk (unit ∷ units) = (unit.l_idx ≡ start_blk) × BeginAt start_blk units

unfoldable pub UnitsBeginAt : ℕ → Option (List EntryUnit × WriteState) → Type 0
UnitsBeginAt start_blk none = Unit
UnitsBeginAt start_blk (some (units, s)) = BeginAt start_blk units

BeginAt-append :
    (start_blk : ℕ) (units : List EntryUnit) (unit : EntryUnit)
    → BeginAt start_blk units
    → unit.l_idx ≡ start_blk
    → BeginAt start_blk (units ++ (unit ∷ []))
unfolding BeginAt
BeginAt-append start_blk [] unit all here = (here, tt)
BeginAt-append start_blk (first ∷ units) unit (head, all) here =
    (head, BeginAt-append start_blk units unit all here)

-- The entries that the loop of `inode_extend` adds all begin at the same block, however many
-- extents the allocator gives: if the ones before it begin at `start_blk`, so do all that result.
pub extend_loop-UnitsBeginAt :
    (rounds cpu start_blk num_blk : ℕ) (units : List EntryUnit) (s : WriteState)
    → BeginAt start_blk units
    → UnitsBeginAt start_blk (extend_loop rounds cpu start_blk num_blk units s)
unfolding extend_loop UnitsBeginAt
extend_loop-UnitsBeginAt zero cpu start_blk num_blk units s all = elim (Bool-cases (num_blk == 0)) [
  | inl e ↦ rw e all
  | inr e ↦ rw e tt
]
extend_loop-UnitsBeginAt (suc rounds) cpu start_blk num_blk units s all =
    elim (Bool-cases (num_blk == 0)) [
      | inl e ↦ rw e all
      | inr e ↦ rw e (
          extend_loop-UnitsBeginAt rounds cpu start_blk _ _ _
            (BeginAt-append start_blk units _ all refl))
    ]

-- The replay of a truncation only sets the size: the entries of the file stay.
journal_replay_truncate-returned :
    (rounds : ℕ) (choices : Choices) (inode_ts cpu : ℕ) (tjnl : TruncateJnl) (s : ResizeState)
    → journal_replay_truncate rounds choices inode_ts cpu tjnl s
      ≡ returned none (record s { file = record s.file { i_size = tjnl.size } })
unfolding journal_replay_truncate inode_resize
journal_replay_truncate-returned rounds choices inode_ts cpu tjnl s =
    let same : tjnl.size == tjnl.size ≡ true = ground arith in rw same refl
