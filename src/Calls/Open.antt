-- ===== src/Calls/Open.antt =====
-- `slotfs_open` keeps the counts, and loses a descriptor when it fails.
use mathlib.Core.Path.{subst}
use slotfs_eurosys.Base.{
  true, false, none, some, inl, inr, refl, Bool, List, ℕ, Option, ◌+◌, ◌%◌, ◌&&◌, ◌≡◌, ◌⊎◌,
  Bool-cases, Option-cases, ◌^◌, not, get_elem?, ◌≤◌, length, set, arith, get_elem?-set_self,
  if◌then◌else◌, ◌==◌, lt_length_of_get, ◌∙◌, ap, sym, ◌≢◌, eq_of_some, ◌<◌,
}
use slotfs_eurosys.Calls.{
  open_with, slotfs_open, returned, minus_one, crashed, Ret, fd_max, RuntimeState, FHeader, install,
  CallState, do_slotfs_open, take_inode, start_of, nameidata_init, set_errno,
}
use slotfs_eurosys.Runtime.Descriptors.{fd_alloc_cases}
use slotfs_eurosys.Calls.Counts.{
  opens-length, weight_other, weight_closed, weight-none, opens-set, weight_held, weight, opens,
  IsCounted,
}
use slotfs_eurosys.Base.Memory.{store_other, store_same, store}
use slotfs_eurosys.Runtime.{fresh_header, fd_max, RuntimeState, FHeader, open_fd}
use slotfs_eurosys.Vfs.{VfsInode, is_dir, path_lookup}
use slotfs_eurosys.Vfs.Lookup.Steps.{Result-cases}

-- What `do_slotfs_open` does to the table and to the counts.
unfoldable pub Takes : CallState → Option ℕ × CallState × Bool → Type 0
Takes s (file, s', bad) =
    (s'.rt ≡ s.rt)
    × (((file ≡ none) × (s'.refs ≡ s.refs))
        ⊎ ((ino : ℕ) × (file ≡ some ino)
            × (bad ≡ false)
            × (s'.refs ≡ store s.refs ino ((s.refs ino + 1) % 2 ^ 32))))

take_inode-Takes :
    (directory : Bool) (cur : VfsInode) (s : CallState)
    → let (file, s') = take_inode directory cur s in Takes s (file, s', false)
unfolding take_inode Takes set_errno
take_inode-Takes directory cur s = elim (Bool-cases (directory && not (is_dir cur))) [
  | inl e ↦ rw (take_inode, e) (refl, inl (refl, refl))
  | inr e ↦ rw (take_inode, e) (refl, inr (cur.dir.i_ino, refl, refl, refl))
]

pub do_slotfs_open-Takes :
    (dfd : ℕ) (path : List ℕ) (directory nofollow : Bool) (s : CallState)
    → Takes s (do_slotfs_open dfd path directory nofollow s)
unfolding do_slotfs_open Takes set_errno
do_slotfs_open-Takes dfd path directory nofollow s = elim (Option-cases (start_of dfd path s)) [
  | inl bad_fd ↦ rw (do_slotfs_open, bad_fd) (refl, inl (refl, refl))
  | inr (start, from) ↦
      let (ret, nd, vfs) = path_lookup s.sbi 12 (nameidata_init start path nofollow) s.vfs in
      elim (Result-cases ret) [
        | inr (inr r) ↦ rw (do_slotfs_open, from, r) (refl, inl (refl, refl))
        | inr (inl (e, r)) ↦ rw (do_slotfs_open, from, r) (refl, inl (refl, refl))
        | inl (u, r) ↦ elim (Option-cases nd.current) [
          | inl lost ↦ rw (do_slotfs_open, from, r, lost) (refl, inl (refl, refl))
          | inr (cur, at) ↦
              rw (do_slotfs_open, from, r, at)
                (take_inode-Takes directory cur (record s { vfs = vfs }))
        ]
      ]
]

module _ (fd : ℕ) (fhs : List FHeader) (old : FHeader) (got : get_elem? fhs fd ≡ some old)
    (closed : old.valid ≡ false) where
  fresh_opens : (k : ℕ) → opens k (set fhs fd (fresh_header fd)) ≡ opens k fhs
  unfolding fresh_header
  fresh_opens k = omega (
    arith,
    opens-set k fhs fd (fresh_header fd) got,
    weight_closed k old closed,
    weight-none k (fresh_header fd) refl,
  )

  fresh_there : get_elem? (set fhs fd (fresh_header fd)) fd ≡ some (fresh_header fd)
  fresh_there = get_elem?-set_self fhs fd (fresh_header fd) (lt_length_of_get fhs fd got)

  installed_opens :
      (k : ℕ) (new : FHeader)
      → opens k (set (set fhs fd (fresh_header fd)) fd new) ≡ opens k fhs + weight k new
  unfolding fresh_header
  installed_opens k new = omega (
    arith,
    fresh_opens k,
    opens-set k (set fhs fd (fresh_header fd)) fd new fresh_there,
    weight-none k (fresh_header fd) refl,
  )

-- The count of one inode more.
taken_counts :
    (refs : ℕ → ℕ) (ino k : ℕ) (n : ℕ) (new : FHeader)
    → refs k ≡ n
    → n ≤ fd_max
    → new.valid ≡ true
    → new.file ≡ some ino
    → store refs ino ((refs ino + 1) % 2 ^ 32) k ≡ n + weight k new
taken_counts refs ino k n new count few used file = elim (Bool-cases (ino == k)) [
  | inl e ↦
      let q : ino ≡ k = ground arith in
      let one = weight_held k new used (file ∙ ap some q) in
      rw (q, store_same refs k ((refs k + 1) % 2 ^ 32)) (omega (arith, count, few, one))
  | inr e ↦
      let ne : ino ≢ k = ground arith in
      store_other refs ((refs ino + 1) % 2 ^ 32) ne
      ∙ omega (arith, count, weight_other k ino new file ne)
]

pub open_table :
    (fd : ℕ) (rt : RuntimeState) → (open_fd fd rt).f_table ≡ set rt.f_table fd (fresh_header fd)
unfolding open_fd
open_table fd rt = refl

install-table :
    (fd ino flags : ℕ) (s : CallState) {fh : FHeader}
    → get_elem? s.rt.f_table fd ≡ some fh
    → let s' = install fd ino flags s in
      (s'.rt.f_table ≡ set s.rt.f_table fd (record fh { file = some ino; flags = flags }))
      × (s'.refs ≡ s.refs)
unfolding install
install-table fd ino flags s got = rw (install, got) (refl, refl)

kept_counts :
    (fd : ℕ) (s : CallState) (old : FHeader)
    → get_elem? s.rt.f_table fd ≡ some old
    → old.valid ≡ false
    → IsCounted s
    → (file : Option ℕ) (s' : CallState) (bad : Bool)
    → Takes (record s { rt = open_fd fd s.rt }) (file, s', bad)
    → file ≡ none
    → IsCounted s'
unfolding Takes IsCounted
kept_counts fd s old got closed counted file s' bad (rt, inr (ino, is_file, fine, refs)) no_file =
    absurd (cc (sym no_file ∙ is_file))
kept_counts fd s old got closed counted file s' bad (rt, inl (absent, refs)) no_file = λ k.
    ap (λ f. f k) refs
    ∙ counted k
    ∙ sym (fresh_opens fd s.rt.f_table old got closed k)
    ∙ ap (opens k) (sym (open_table fd s.rt))
    ∙ ap (λ (r : RuntimeState). opens k r.f_table) (sym rt)

-- The states that `slotfs_open` may leave after `fd_alloc` has returned `fd`.
open_ends :
    (fd flags : ℕ) (s : CallState) (old : FHeader)
    → get_elem? s.rt.f_table fd ≡ some old
    → old.valid ≡ false
    → IsCounted s
    → length s.rt.f_table ≡ fd_max
    → (file : Option ℕ) (s' : CallState) (bad : Bool)
    → Takes (record s { rt = open_fd fd s.rt }) (file, s', bad)
    → let out : Ret × CallState = if bad then (crashed, s') else elim file [
      | none ↦ (minus_one, s')
      | some ino ↦ (returned fd, install fd ino flags s')
    ] in
      IsCounted out.1
unfolding Takes IsCounted fresh_header
open_ends fd flags s old got closed counted full none s' true (rt, how) =
    kept_counts fd s old got closed counted none s' true (rt, how) refl
open_ends fd flags s old got closed counted full none s' false (rt, how) =
    kept_counts fd s old got closed counted none s' false (rt, how) refl
open_ends fd flags s old got closed counted full (some ino) s' bad (rt, inl (no_file, refs)) =
    absurd cc
open_ends fd flags s old got closed counted full (some ino) s' bad
      (rt, inr (i, is_file, fine, refs)) =
    let new = record (fresh_header fd) { file = some ino; flags = flags } in
    let there : get_elem? s'.rt.f_table fd ≡ some (fresh_header fd) =
      ap (λ (r : RuntimeState). get_elem? r.f_table fd) rt
      ∙ ap (λ t. get_elem? t fd) (open_table fd s.rt)
      ∙ fresh_there fd s.rt.f_table old got closed in
    let (table, kept) = install-table fd ino flags s' there in
    let q : i ≡ ino = sym (eq_of_some is_file) in
    rw fine (λ k.
      let few : opens k s.rt.f_table ≤ fd_max = omega (arith, opens-length k s.rt.f_table, full) in
      let whole : opens k (install fd ino flags s').rt.f_table
          ≡ opens k s.rt.f_table + weight k new =
        ap (opens k) table
        ∙ ap (λ (r : RuntimeState). opens k (set r.f_table fd new)) rt
        ∙ ap (λ t. opens k (set t fd new)) (open_table fd s.rt)
        ∙ installed_opens fd s.rt.f_table old got closed k new in
      ap (λ f. f k) kept
      ∙ ap (λ f. f k) refs
      ∙ ap (λ n. store s.refs n ((s.refs n + 1) % 2 ^ 32) k) q
      ∙ taken_counts s.refs ino k (opens k s.rt.f_table) new (counted k) few refl refl
      ∙ sym whole)

-- In a table of FD_MAX headers with the hint below FD_MAX, let each inode count the descriptors that
-- have it. Then it still does after `slotfs_open` without O_CREAT, on every branch.
pub slotfs_open-IsCounted :
    (dfd : ℕ) (path : List ℕ) (flags : ℕ) (directory nofollow : Bool) (s : CallState)
    → IsCounted s
    → length s.rt.f_table ≡ fd_max
    → s.rt.fd_hint < fd_max
    → IsCounted (slotfs_open dfd path flags directory nofollow s).1
unfolding slotfs_open open_with IsCounted set_errno
slotfs_open-IsCounted dfd path flags directory nofollow s counted full hint =
    elim (fd_alloc_cases s.rt full hint) [
      | inr (failed, used) ↦
          subst (λ a. IsCounted (open_with dfd path flags directory nofollow s a).1) (sym failed)
            counted
      | inl (fd, (old, got, closed), allocated) ↦
          let s1 = record s { rt = open_fd fd s.rt } in
          let (file, s', bad) = do_slotfs_open dfd path directory nofollow s1 in
          subst (λ a. IsCounted (open_with dfd path flags directory nofollow s a).1) (sym allocated)
            (open_ends fd flags s old got closed counted full file s' bad
              (do_slotfs_open-Takes dfd path directory nofollow s1))
    ]
