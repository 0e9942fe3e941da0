-- ===== src/Calls/Leak.antt =====
-- The descriptor of a `slotfs_open` that fails.
use mathlib.Core.Path.{subst, ap, sym}
use slotfs_eurosys.Base.{
  if◌then◌else◌, false, none, some, inl, inr, refl, lt_length_of_get, eq_of_some, ◌∙◌, ap, sym,
  Bool, List, ℕ, get_elem?, length, Option, ◌≡◌, ◌<◌, get_elem?-set_self,
}
use slotfs_eurosys.Runtime.{FHeader, RuntimeState, fd_alloc, open_fd, fresh_header, fd_max}
use slotfs_eurosys.Runtime.Descriptors.{fd_alloc_cases, IsOpen}
use slotfs_eurosys.Calls.{
  CallState, Ret, slotfs_open, crashed, returned, install, slotfs_close, open_with, do_slotfs_open,
  set_errno, minus_one,
}
use slotfs_eurosys.Calls.Open.{Takes, do_slotfs_open-Takes, open_table}

-- `do_slotfs_open` leaves the table.
same_table : (s : CallState) (out : Option ℕ × CallState × Bool) → Takes s out → out.1.rt ≡ s.rt
unfolding Takes
same_table s (file, s', bad) (rt, how) = rt

no_file_close :
    (fd : ℕ) (s : CallState) {fh : FHeader}
    → get_elem? s.rt.f_table fd ≡ some fh
    → fh.file ≡ none
    → ((slotfs_close fd s).0 ≡ minus_one) × ((slotfs_close fd s).1.rt ≡ s.rt)
unfolding slotfs_close set_errno
no_file_close fd s got no_file = rw (slotfs_close, got, no_file) (refl, refl)

alloc_header :
    (rt rt' : RuntimeState) (fd : ℕ)
    → length rt.f_table ≡ fd_max
    → rt.fd_hint < fd_max
    → fd_alloc rt ≡ (some fd, rt')
    → get_elem? rt'.f_table fd ≡ some (fresh_header fd)
alloc_header rt rt' fd full hint h = elim (fd_alloc_cases rt full hint) [
  | inr (failed, used) ↦ absurd (cc (sym h ∙ failed))
  | inl (d, (fh, got, closed), r) ↦
      let e = sym h ∙ r in
      let same : fd ≡ d = eq_of_some (ap (λ (t : Option ℕ × RuntimeState). t.0) e) in
      let new : rt' ≡ open_fd d rt = ap (λ (t : Option ℕ × RuntimeState). t.1) e in
      rw (same, new)
        (ap (λ t. get_elem? t d) (open_table d rt)
          ∙ get_elem?-set_self rt.f_table d (fresh_header d) (lt_length_of_get rt.f_table d got))
]

-- In a table of FD_MAX headers with the hint below FD_MAX, if `fd_alloc` returns a descriptor and then
-- `do_slotfs_open` returns an error, without O_CREAT, `slotfs_open` returns -1, but the descriptor
-- stays in use, and `slotfs_close` refuses it and leaves the table as it is.
pub slotfs_open_leak :
    (dfd : ℕ) (path : List ℕ) (flags : ℕ) (directory nofollow : Bool) (s s1 : CallState) {fd : ℕ}
    {rt' : RuntimeState}
    → length s.rt.f_table ≡ fd_max
    → s.rt.fd_hint < fd_max
    → fd_alloc s.rt ≡ (some fd, rt')
    → do_slotfs_open dfd path directory nofollow (record s { rt = rt' }) ≡ (none, s1, false)
    → let (ret, s') = slotfs_open dfd path flags directory nofollow s in
      (ret ≡ minus_one)
      × IsOpen s'.rt fd
      × ((slotfs_close fd s').0 ≡ minus_one)
      × ((slotfs_close fd s').1.rt ≡ s'.rt)
unfolding slotfs_open open_with fresh_header
slotfs_open_leak dfd path flags directory nofollow s s1 {fd} {rt'} full hint allocated failed =
    let table : s1.rt ≡ rt' =
      ap (λ (o : Option ℕ × CallState × Bool). o.1.rt) (sym failed)
      ∙ same_table (record s { rt = rt' }) _
          (do_slotfs_open-Takes dfd path directory nofollow (record s { rt = rt' })) in
    let header : get_elem? s1.rt.f_table fd ≡ some (fresh_header fd) =
      ap (λ (r : RuntimeState). get_elem? r.f_table fd) table
      ∙ alloc_header s.rt rt' fd full hint allocated in
    let (refused, same) = no_file_close fd s1 header refl in
    let whole : open_with dfd path flags directory nofollow s (fd_alloc s.rt) ≡ (minus_one, s1) =
      ap (open_with dfd path flags directory nofollow s) allocated
      ∙ ap
          (λ (o : Option ℕ × CallState × Bool). if o.2 then (crashed, o.1) else elim o.0 [
            | none ↦ (minus_one, o.1)
            | some ino ↦ (returned fd, install fd ino flags o.1)
          ])
          failed in
    subst
      (λ (o : Ret × CallState).
        (o.0 ≡ minus_one)
        × IsOpen o.1.rt fd
        × ((slotfs_close fd o.1).0 ≡ minus_one)
        × ((slotfs_close fd o.1).1.rt ≡ o.1.rt))
      (sym whole) (refl, (fresh_header fd, header, refl), refused, same)
