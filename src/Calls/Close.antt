-- ===== src/Calls/Close.antt =====
-- `slotfs_close` keeps the counts, and releases no inode that is still open.
use slotfs_eurosys.Base.{
  ◌∷◌, ℕ, ◌+◌, ◌-◌, ◌%◌, ◌==◌, ◌&&◌, ◌≡◌, arith, refl, ◌⊎◌, inl, inr, ◌^◌, Bool-cases, true, false,
  none, some, length, ◌<◌, Option-cases, get_elem?, set, ◌∙◌, ap, ◌≢◌, sym,
}
use slotfs_eurosys.Base.Memory.{store_other, store_same, store}
use slotfs_eurosys.Calls.{
  RuntimeState, fd_free, set_errno, FHeader, slotfs_close, CallState, put_inode,
}
use slotfs_eurosys.Runtime.{RuntimeState, fd_free, FHeader}
use slotfs_eurosys.Calls.Counts.{
  weight_other, weight_held, opens-length, weight-none, opens-set, IsCounted, opens,
}
use slotfs_eurosys.Vfs.{VfsInode}

-- `s'` releases what `s` has released, or one inode more that no descriptor has.
unfoldable pub ReleasesUnused : CallState → CallState → Type 0
ReleasesUnused s s' =
    (s'.release_list ≡ s.release_list)
    ⊎ ((ino : ℕ) × (s'.release_list ≡ ino ∷ s.release_list) × (opens ino s'.rt.f_table ≡ 0))

put_inode-fields :
    (inode : VfsInode) (ino : ℕ) (s : CallState)
    → let s' = put_inode inode ino s in
      let ref = (s.refs ino + 2 ^ 32 - 1) % 2 ^ 32 in
      (s'.rt ≡ s.rt)
      × (s'.refs ≡ store s.refs ino ref)
      × ((s'.release_list ≡ s.release_list)
          ⊎ ((s'.release_list ≡ ino ∷ s.release_list) × (ref ≡ 0)))
unfolding put_inode
put_inode-fields inode ino s =
    let ref = (s.refs ino + 2 ^ 32 - 1) % 2 ^ 32 in
    elim (Bool-cases ((ref == 0) && (inode.i_link == 0))) [
      | inl e ↦ rw (put_inode, e) (refl, refl, inr (refl, ground arith))
      | inr e ↦ elim (Bool-cases (ref == 0)) [
        | inl e2 ↦ rw (put_inode, e, e2) (refl, refl, inl refl)
        | inr e2 ↦ rw (put_inode, e, e2) (refl, refl, inl refl)
      ]
    ]

abbrev freed : FHeader → FHeader
freed fh = record fh { valid = false; file = none }

-- The counts without one descriptor.
freed_counts :
    (fd ino : ℕ) (fh : FHeader) (s : CallState)
    → IsCounted s
    → length s.rt.f_table < 2 ^ 32
    → get_elem? s.rt.f_table fd ≡ some fh
    → fh.valid ≡ true
    → fh.file ≡ some ino
    → (k : ℕ)
    → store s.refs ino ((s.refs ino + 2 ^ 32 - 1) % 2 ^ 32) k
      ≡ opens k (set s.rt.f_table fd (freed fh))
unfolding IsCounted
freed_counts fd ino fh s counted small got used file k =
    let moved = opens-set k s.rt.f_table fd (freed fh) got in
    let gone = weight-none k (freed fh) refl in
    let count = counted k in
    let few = opens-length k s.rt.f_table in
    elim (Bool-cases (ino == k)) [
      | inl e ↦
          let q : ino ≡ k = ground arith in
          let one = weight_held k fh used (file ∙ ap some q) in
          rw (q, store_same s.refs k ((s.refs k + 2 ^ 32 - 1) % 2 ^ 32))
            (omega (arith, moved, gone, count, few, one, small))
      | inr e ↦
          let ne : ino ≢ k = ground arith in
          let zero_weight = weight_other k ino fh file ne in
          store_other s.refs ((s.refs ino + 2 ^ 32 - 1) % 2 ^ 32) ne
          ∙ omega (arith, moved, gone, count, zero_weight)
    ]

closed_table :
    (fd : ℕ) (fh : FHeader) (rt rt' : RuntimeState)
    → get_elem? rt.f_table fd ≡ some fh
    → rt' ≡ rt
    → (fd_free fd rt').f_table ≡ set rt.f_table fd (freed fh)
unfolding fd_free
closed_table fd fh rt rt' got same =
    ap (λ r. (fd_free fd r).f_table) same ∙ (rw (fd_free, got) refl)

closed_counts :
    (fd ino : ℕ) (fh : FHeader) (inode : VfsInode) (s : CallState)
    → IsCounted s
    → length s.rt.f_table < 2 ^ 32
    → get_elem? s.rt.f_table fd ≡ some fh
    → fh.valid ≡ true
    → fh.file ≡ some ino
    → let s1 = put_inode inode ino s in
      let s' = record s1 { rt = fd_free fd s1.rt } in IsCounted s' × ReleasesUnused s s'
unfolding IsCounted ReleasesUnused
closed_counts fd ino fh inode s counted small got used file =
    let (same_rt, refs, released) = put_inode-fields inode ino s in
    let table = closed_table fd fh s.rt (put_inode inode ino s).rt got same_rt in
    let counts = freed_counts fd ino fh s counted small got used file in
    (
      λ k. ap (λ f. f k) refs ∙ counts k ∙ ap (opens k) (sym table),
      elim released [
        | inl same ↦ inl same
        | inr (more, unused) ↦ inr (
          ino,
          more,
          ap (opens ino) table
              ∙ sym (counts ino)
              ∙ store_same s.refs ino ((s.refs ino + 2 ^ 32 - 1) % 2 ^ 32)
              ∙ unused,
        )
      ],
    )

-- Let each inode count the descriptors that have it, in a table of fewer than 2 ^ 32 headers. Then
-- after `slotfs_close`, on every branch, each still does, and if an inode has been put on the release
-- list, it is one, and no descriptor has it any more.
pub slotfs_close-IsCounted :
    (fd : ℕ) (s : CallState)
    → IsCounted s
    → length s.rt.f_table < 2 ^ 32
    → let s' = (slotfs_close fd s).1 in IsCounted s' × ReleasesUnused s s'
unfolding slotfs_close IsCounted ReleasesUnused set_errno
slotfs_close-IsCounted fd s counted small = elim (Option-cases (get_elem? s.rt.f_table fd)) [
  | inl out ↦ rw (slotfs_close, out) (counted, inl refl)
  | inr (fh, got) ↦ elim (Option-cases fh.file) [
    | inl no_file ↦ rw (slotfs_close, got, no_file) (counted, inl refl)
    | inr (ino, file) ↦ elim (Bool-cases fh.valid) [
      | inr closed ↦ rw (slotfs_close, got, file, closed) (counted, inl refl)
      | inl used ↦ elim (Option-cases (s.vfs.inode_table ino)) [
        | inl lost ↦ rw (slotfs_close, got, file, used, lost) (counted, inl refl)
        | inr (inode, cached) ↦
            rw (slotfs_close, got, file, used, cached)
              (closed_counts fd ino fh inode s counted small got used file)
      ]
    ]
  ]
]
