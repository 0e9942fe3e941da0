-- ===== src/FileData/Overrun.antt =====
-- Reads that begin behind the first block of an entry, or behind the end of the file.
use mathlib.Core.Path.{subst}
use slotfs_eurosys.FileData.Extents.{IsWhole}
use slotfs_eurosys.Base.{
  zero, suc, false, some, inl, inr, ℕ, ◌+◌, ◌*◌, ◌/◌, ◌%◌, ◌≡◌, ◌≤◌, ◌<◌, ◌-◌, arith, ◌++◌, List,
  get_elem?, ap, ◌^◌, ◌∙◌, ◌==◌, Option-cases, sym, eq_of_some,
}
use slotfs_eurosys.FileData.{
  read_clamped, read_length, DataInode, filent_lookup, chunk, copied, data_address, read_loop,
  inode_read,
}
use slotfs_eurosys.FileData.Read.{read_length-min}
use slotfs_eurosys.Base.Memory.{bytes_at}
use slotfs_eurosys.File.{Filent}
use slotfs_eurosys.FileData.Rounds.{chunk-some}
use slotfs_eurosys.FileData.Ends.{HasBlocks, read_clamped-some}

get_elem?-bytes_at :
    (memory : ℕ → ℕ) (from n i : ℕ) (more : List ℕ)
    → i < n
    → get_elem? (bytes_at memory from n ++ more) i ≡ some (memory (from + i))
unfolding bytes_at
get_elem?-bytes_at memory from zero i more lt = absurd (omega (arith, lt))
get_elem?-bytes_at memory from (suc n) zero more lt = ap (λ k. some (memory k)) (omega arith)
get_elem?-bytes_at memory from (suc n) (suc i) more lt =
    get_elem?-bytes_at memory (from + 1) n i more (omega (arith, lt))
    ∙ ap (λ k. some (memory k)) (omega arith)

chunk-full :
    (left page_offset : ℕ) (fe : Filent)
    → page_offset < 4096
    → 0 < fe.blocks
    → fe.blocks * 4096 < 2 ^ 64
    → fe.blocks * 4096 ≤ left
    → chunk (some fe) left page_offset ≡ fe.blocks * 4096 - page_offset
chunk-full left page_offset fe lt pos small long =
    elim (chunk-some left page_offset fe lt pos small) [
      | inl (all, fits) ↦ omega (arith, all, fits, long)
      | inr (full, less) ↦ omega (arith, full)
    ]

IsWhole-HasBlocks : (inode : DataInode) → IsWhole inode → HasBlocks inode
unfolding HasBlocks
IsWhole-HasBlocks inode whole k fe got =
    (omega (arith, whole.low k fe got, whole.high k fe got), whole.small k fe got)

-- The first round copies so much and the rest follows.
read_clamped-first :
    (inode : DataInode) (data_pages : ℕ → ℕ) (n offset : ℕ) {fe : Filent} {m : ℕ} {bytes : List ℕ}
    → filent_lookup inode (offset / 4096) ≡ some fe
    → 0 < n
    → read_clamped inode data_pages n offset ≡ some (m, bytes)
    → (more : List ℕ) × (bytes
        ≡ bytes_at data_pages
            (data_address fe (offset / 4096) (offset % 4096))
            (chunk (some fe) n (offset % 4096))
          ++ more)
unfolding read_clamped read_loop copied
read_clamped-first inode data_pages zero offset got pos done = absurd (omega (arith, pos))
read_clamped-first inode data_pages (suc n) offset {fe} {m} {bytes} got pos done =
    let found = filent_lookup inode (offset / 4096) in
    let nr = chunk found (suc n) (offset % 4096) in
    let test : (suc n == 0) ≡ false = ground arith in
    elim (Option-cases (read_loop n inode data_pages (suc n - nr) (offset + nr))) [
      | inl out ↦ absurd (cc (rw (read_clamped, read_loop, test, out) at done))
      | inr (more, rest) ↦
          let h : some (suc n, copied data_pages found (offset / 4096) (offset % 4096) nr ++ more)
              ≡ some (m, bytes) =
            rw (read_clamped, read_loop, test, rest) at done in
          let copy : bytes ≡ copied data_pages found (offset / 4096) (offset % 4096) nr ++ more =
            ap (λ (p : ℕ × List ℕ). p.1) (sym (eq_of_some h)) in
          (
            more,
            subst
                (λ o.
                  bytes
                  ≡ copied data_pages o (offset / 4096) (offset % 4096)
                      (chunk o (suc n) (offset % 4096))
                    ++ more)
                got copy,
          )
    ]

-- Let every entry of the file's tree be there for all its blocks and only for them, and let a read
-- within the file begin in an entry, behind its first block, and ask for as many bytes at least as the
-- entry has. Then the read returns, and for the first offset behind the entry it returns the first
-- byte of the page behind the entry's pages, whatever that block of the file has.
pub inode_read_overrun :
    (inode : DataInode) (data_pages : ℕ → ℕ) (len offset : ℕ) {fe : Filent}
    → IsWhole inode
    → filent_lookup inode (offset / 4096) ≡ some fe
    → fe.l_idx < offset / 4096
    → offset + len ≤ inode.i_size
    → inode.i_size < 2 ^ 64
    → fe.blocks * 4096 ≤ len
    → (bytes : List ℕ) × (inode_read inode data_pages len offset ≡ some (len, bytes))
      × (get_elem? bytes ((fe.l_idx + fe.blocks) * 4096 - offset)
          ≡ some (data_pages ((fe.p_idx + fe.blocks) * 4096)))
unfolding inode_read
inode_read_overrun inode data_pages len offset {fe} whole got behind inside size long =
    let within = whole.high (offset / 4096) fe got in
    let small = whole.small (offset / 4096) fe got in
    let length : read_length inode len offset ≡ len =
      read_length-min inode len offset (omega (arith, inside)) size ∙ omega (arith, inside) in
    let (bytes, done) =
      read_clamped-some inode data_pages len offset (IsWhole-HasBlocks inode whole) in
    let (more, copy) =
      read_clamped-first inode data_pages len offset got (omega (arith, within, behind, long))
        done in
    let nr : chunk (some fe) len (offset % 4096) ≡ fe.blocks * 4096 - offset % 4096 =
      chunk-full len (offset % 4096) fe (omega arith) (omega (arith, within, behind)) small long in
    let i = (fe.l_idx + fe.blocks) * 4096 - offset in
    let address : data_address fe (offset / 4096) (offset % 4096) + i
        ≡ (fe.p_idx + fe.blocks) * 4096 =
      omega (arith, within, behind) in
    let byte =
      get_elem?-bytes_at data_pages (data_address fe (offset / 4096) (offset % 4096))
        (chunk (some fe) len (offset % 4096)) i more (omega (arith, nr, within, behind))
      ∙ ap (λ k. some (data_pages k)) address in
    (
      bytes,
      ap (λ k. read_clamped inode data_pages k offset) length ∙ done,
      ap (λ bs. get_elem? bs i) copy ∙ byte,
    )
