-- ===== src/FileData/Read.antt =====
-- What `inode_read` returns.
use slotfs_eurosys.Base.{
  zero, suc, some, inl, inr, refl, ℕ, ◌+◌, ◌/◌, ◌%◌, ◌≡◌, ◌≤◌, ◌<◌, ◌-◌, arith, min, Bool-cases,
  Option-cases, ◌^◌, ◌==◌, ap, sym, ◌∙◌,
}
use slotfs_eurosys.FileData.{
  read_length, DataInode, filent_lookup, chunk, copied, read_loop, inode_read, read_clamped,
}
use slotfs_eurosys.Base.Memory.{bytes_at, bytes_at-add}
use slotfs_eurosys.Base.Word.{sub64}
use slotfs_eurosys.FileData.Extents.{file_byte, IsWhole, BeginsWell}
use slotfs_eurosys.FileData.Rounds.{IsRound, hole-IsRound, entry-IsRound}

IsRound-step :
    (inode : DataInode) (data_pages : ℕ → ℕ) (left offset : ℕ)
    → IsWhole inode
    → BeginsWell inode left offset
    → 0 < left
    → let fe = filent_lookup inode (offset / 4096) in
      let nr = chunk fe left (offset % 4096) in
      IsRound inode data_pages left offset nr
        (copied data_pages fe (offset / 4096) (offset % 4096) nr)
unfolding BeginsWell
IsRound-step inode data_pages left offset whole begins pos =
    elim (Option-cases (filent_lookup inode (offset / 4096))) [
      | inl got ↦ rw got (hole-IsRound inode data_pages left offset whole pos got)
      | inr (fe, got) ↦
          rw got (entry-IsRound inode data_pages left offset whole pos got (begins fe got))
    ]

read_loop-bytes_at :
    (rounds : ℕ) (inode : DataInode) (data_pages : ℕ → ℕ) (left offset : ℕ)
    → IsWhole inode
    → BeginsWell inode left offset
    → left ≤ rounds
    → read_loop rounds inode data_pages left offset
      ≡ some (bytes_at (file_byte inode data_pages) offset left)
unfolding read_loop bytes_at
read_loop-bytes_at zero inode data_pages left offset whole begins enough =
    let e : left ≡ 0 = omega (arith, enough) in rw e refl
read_loop-bytes_at (suc rounds) inode data_pages left offset whole begins enough =
    elim (Bool-cases (left == 0)) [
      | inl e ↦ (let z : left ≡ 0 = ground arith in rw z refl)
      | inr e ↦
          let step = IsRound-step inode data_pages left offset whole begins (ground arith) in
          let nr = chunk (filent_lookup inode (offset / 4096)) left (offset % 4096) in
          let rest =
            read_loop-bytes_at rounds inode data_pages (left - nr) (offset + nr) whole step.goes_on
              (omega (arith, enough, step.moves, step.within)) in
          let sum : nr + (left - nr) ≡ left = omega (arith, step.within) in
          let all =
            ap (bytes_at (file_byte inode data_pages) offset) (sym sum)
            ∙ bytes_at-add (file_byte inode data_pages) offset nr (left - nr) in
          rw (read_loop, e, rest, step.right, all) refl
    ]

read_clamped-bytes_at :
    (inode : DataInode) (data_pages : ℕ → ℕ) (n offset : ℕ)
    → IsWhole inode
    → BeginsWell inode n offset
    → read_clamped inode data_pages n offset
      ≡ some (n, bytes_at (file_byte inode data_pages) offset n)
unfolding read_clamped bytes_at
read_clamped-bytes_at inode data_pages n offset whole begins = elim (Bool-cases (n == 0)) [
  | inl e ↦ (let z : n ≡ 0 = ground arith in rw z refl)
  | inr e ↦
      let all = read_loop-bytes_at n inode data_pages n offset whole begins (omega arith) in
      rw (read_clamped, e, all) refl
]

pub read_length-min :
    (inode : DataInode) (len offset : ℕ)
    → offset ≤ inode.i_size
    → inode.i_size < 2 ^ 64
    → read_length inode len offset ≡ min len (inode.i_size - offset)
unfolding read_length
read_length-min inode len offset inside small =
    let room : sub64 inode.i_size offset ≡ inode.i_size - offset = omega (arith, inside, small) in
    ground (arith, room)

-- Let every entry of the file's tree be there for all its blocks and only for them, and be shorter
-- than 2 ^ 64 bytes; let the read begin at no higher offset than the size, which is below 2 ^ 64, and
-- in a hole, at the first block of an entry, or end in the entry where it begins. Then `inode_read`
-- ends within its rounds and returns the number of bytes asked for, or of those up to the end of the
-- file if these are fewer, with just the bytes of the file: those of the page of their block, and 0
-- in holes.
pub inode_read-bytes_at :
    (inode : DataInode) (data_pages : ℕ → ℕ) (len offset : ℕ)
    → IsWhole inode
    → offset ≤ inode.i_size
    → inode.i_size < 2 ^ 64
    → BeginsWell inode (min len (inode.i_size - offset)) offset
    → let n = min len (inode.i_size - offset) in
      inode_read inode data_pages len offset
      ≡ some (n, bytes_at (file_byte inode data_pages) offset n)
unfolding inode_read
inode_read-bytes_at inode data_pages len offset whole inside small begins =
    let n = min len (inode.i_size - offset) in
    ap (λ k. read_clamped inode data_pages k offset) (read_length-min inode len offset inside small)
    ∙ read_clamped-bytes_at inode data_pages n offset whole begins
