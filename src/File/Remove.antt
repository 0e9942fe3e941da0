-- ===== src/File/Remove.antt =====
-- What the removal of an entry does to the blocks of a file.
use slotfs_eurosys.Base.{
  zero, none, some, refl, ℕ, Option, get_elem?, ◌≤◌, ◌<◌, ◌≡◌, ◌+◌, arith, if◌then◌else◌, leb, ◌&&◌,
  ltb,
}
use slotfs_eurosys.BTree.Range.{contents-btree_set_range_callback}
use slotfs_eurosys.BTree.Grow.{contents}
use slotfs_eurosys.File.{Filent, FileState, file_remove_entry}
use slotfs_eurosys.BTree.Place.{capacity}
use slotfs_eurosys.BTree.{BTree, btree_set_range}

pub contents-btree_set_range :
    {A : Type 0} (tree : BTree A) (start end : ℕ) (ptr : Option A)
    → tree.height ≤ 6
    → start < end
    → end < capacity 6
    → (k : ℕ)
    → contents (btree_set_range tree start end ptr).1 k
      ≡ (if leb start k && ltb k end then ptr else contents tree k)
unfolding btree_set_range
contents-btree_set_range tree start end ptr low some_key small k =
    (contents-btree_set_range_callback (λ old key s. some s) (λ old key s. s) (λ old key s. refl)
        tree start end ptr zero low some_key small).1
      k

-- In a tree of height 6 at most, and for an entry with blocks that end below 2 ^ 56,
-- `file_remove_entry` unmaps exactly the blocks of the entry, whichever entries they have by
-- then: the tree has nothing for them after it, and for the other blocks what it had.
pub contents-file_remove_entry :
    (i : ℕ) (s : FileState) {fe : Filent}
    → get_elem? s.file.list i ≡ some fe
    → s.file.b_root.height ≤ 6
    → 0 < fe.blocks
    → fe.l_idx + fe.blocks < capacity 6
    → (k : ℕ)
    → contents (file_remove_entry i s).file.b_root k
      ≡ (if leb fe.l_idx k && ltb k (fe.l_idx + fe.blocks) then none else contents s.file.b_root k)
unfolding file_remove_entry
contents-file_remove_entry i s {fe} got low some_block small k =
    rw (got, file_remove_entry)
      (contents-btree_set_range s.file.b_root fe.l_idx (fe.l_idx + fe.blocks) none low (omega arith)
        small k)
