-- ===== src/FileData/Tests.antt =====
-- Witnesses of the reads: a file of 16384 bytes whose blocks 0 and 1 are the pages 5 and 6.
use slotfs_eurosys.Base.{
  none, some, inl, inr, refl, ℕ, ◌≡◌, ◌<◌, ltb, arith, if◌then◌else◌, get_elem?, List, ◌-◌, ◌%◌,
  true, Bool-cases, ◌+◌, ◌∙◌, ap, ◌*◌, eq_of_some,
}
use slotfs_eurosys.Base.Memory.{bytes_at}
use slotfs_eurosys.BTree.{BTree, Node, btree_get, btree_get_node, get_at, place_of}
use slotfs_eurosys.File.{Filent}
use slotfs_eurosys.FileData.{DataInode, filent_lookup, inode_read, read_length}
use slotfs_eurosys.FileData.Extents.{IsWhole, BeginsWell, file_byte}
use slotfs_eurosys.FileData.Ends.{HasBlocks, inode_read-some}
use slotfs_eurosys.FileData.Read.{inode_read-bytes_at}
use slotfs_eurosys.FileData.Overrun.{inode_read_overrun}

abbrev two_blocks : Filent
two_blocks = record { idx = 3; ts = 1; l_idx = 0; p_idx = 5; blocks = 2; ref = 2 }

unfoldable tree : BTree Filent
unfolding Node
tree = record { height = 0; root = λ i. if ltb i 2 then some two_blocks else none }

abbrev file : DataInode
file = record { i_size = 16384; b_root = tree }

abbrev pages : ℕ → ℕ
pages i = i % 251

lookup_two : (k : ℕ) (fe : Filent) → filent_lookup file k ≡ some fe → (k < 2) × (two_blocks ≡ fe)
unfolding filent_lookup tree Node btree_get btree_get_node get_at place_of
lookup_two k fe got = elim (Bool-cases (ltb k 2)) [
  | inl e ↦ (let got' : some two_blocks ≡ some fe = rw e at got in (ground arith, eq_of_some got'))
  | inr e ↦ absurd (cc (rw e at got))
]

lookup_low : (k : ℕ) → k < 2 → filent_lookup file k ≡ some two_blocks
unfolding filent_lookup tree Node btree_get btree_get_node get_at place_of
lookup_low k lt = (let e : ltb k 2 ≡ true = ground arith in rw e refl)

file-IsWhole : IsWhole file
file-IsWhole = record {
  low = λ k fe got. let (lt, e) = lookup_two k fe got in rw (← e) (omega arith);
  high = λ k fe got. let (lt, e) = lookup_two k fe got in rw (← e) (omega (arith, lt));
  all = λ k fe got j low high.
      let (lt, e) = lookup_two k fe got in
      let size : two_blocks.l_idx + two_blocks.blocks ≡ fe.l_idx + fe.blocks =
        ap (λ (x : Filent). x.l_idx + x.blocks) e in
      let top : j < 2 = omega (arith, high, size) in lookup_low j top ∙ ap some e;
  small = λ k fe got. let (lt, e) = lookup_two k fe got in rw (← e) (omega arith);
}

file-HasBlocks : HasBlocks file
unfolding HasBlocks
file-HasBlocks k fe got = let (lt, e) = lookup_two k fe got in rw (← e) (omega arith, omega arith)

begins : BeginsWell file 100 4000
unfolding BeginsWell
begins fe got = let (lt, e) = lookup_two 0 fe got in inl (rw (← e) refl)

inode_read-bytes_at_example :
    inode_read file pages 100 4000 ≡ some (100, bytes_at (file_byte file pages) 4000 100)
inode_read-bytes_at_example =
    inode_read-bytes_at file pages 100 4000 file-IsWhole (omega arith) (omega arith) begins

inode_read-some_example :
    (bytes : List ℕ) × (inode_read file pages 9 20000 ≡ some (read_length file 9 20000, bytes))
inode_read-some_example = inode_read-some file pages 9 20000 file-HasBlocks

inode_read_overrun_example :
    (bytes : List ℕ) × (inode_read file pages 8192 4096 ≡ some (8192, bytes))
    × (get_elem? bytes ((0 + 2) * 4096 - 4096) ≡ some (pages ((5 + 2) * 4096)))
inode_read_overrun_example =
    inode_read_overrun file pages 8192 4096 file-IsWhole (lookup_low 1 (omega arith)) (omega arith)
      (omega arith) (omega arith) (omega arith)
