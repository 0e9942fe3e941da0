-- ===== src/Runtime/Descriptors.antt =====
-- What the descriptor table promises.
use slotfs_eurosys.Base.{
  zero, suc, true, false, none, some, inl, inr, refl, length, ℕ, ◌≡◌, get_elem?, ◌+◌, ◌%◌, ◌<◌, ◌≤◌,
  Option-cases, arith, ◌≢◌, Bool-cases, ◌⊎◌, get_of_lt, sym, ◌-◌, ◌==◌, ◌∙◌, eq_of_some, ap, Option,
  lt_length_of_get, set, length-set, get_elem?-set_self, get_elem?-set_ne,
}
use slotfs_eurosys.Runtime.{
  fresh_header, open_fd, fd_max, FHeader, RuntimeState, fd_alloc, fd_free, fd_scan,
}
use slotfs_eurosys.Base.Cycle.{around}

-- The header of descriptor `fd` is in use.
abbrev pub IsOpen : RuntimeState → ℕ → Type 0
IsOpen rt fd = (fh : FHeader) × (get_elem? rt.f_table fd ≡ some fh) × (fh.valid ≡ true)

abbrev pub IsClosed : RuntimeState → ℕ → Type 0
IsClosed rt fd = (fh : FHeader) × (get_elem? rt.f_table fd ≡ some fh) × (fh.valid ≡ false)

fd_scan-some :
    (rounds i : ℕ) (rt : RuntimeState) {index : ℕ}
    → fd_scan rounds i rt ≡ some index
    → IsClosed rt index
unfolding fd_scan
fd_scan-some zero i rt h = absurd (cc)
fd_scan-some (suc rounds) i rt {index} h =
    let j = (rt.fd_hint + i) % fd_max in
    elim (Option-cases (get_elem? rt.f_table j)) [
      | inl out ↦ ground arith
      | inr (fh, got) ↦ elim (Bool-cases fh.valid) [
        | inl used ↦ fd_scan-some rounds (i + 1) rt (ground arith)
        | inr free ↦ (let e : j ≡ index = ground arith in rw (← e) (fh, got, free))
      ]
    ]

fd_scan-none :
    (rounds i : ℕ) (rt : RuntimeState)
    → length rt.f_table ≡ fd_max
    → fd_scan rounds i rt ≡ none
    → (k : ℕ) → i ≤ k
    → k < i + rounds
    → IsOpen rt ((rt.fd_hint + k) % fd_max)
unfolding fd_scan
fd_scan-none zero i rt full h k lo hi = absurd (omega arith)
fd_scan-none (suc rounds) i rt full h k lo hi =
    let j = (rt.fd_hint + i) % fd_max in
    elim (Option-cases (get_elem? rt.f_table j)) [
      | inl out ↦ ground (arith, get_of_lt rt.f_table j)
      | inr (fh, got) ↦ elim (Bool-cases (i == k)) [
        | inl e ↦ let q : i ≡ k = ground arith in rw (← q) (fh, got, ground arith)
        | inr e ↦ fd_scan-none rounds (i + 1) rt full (ground arith) k (ground arith) (omega arith)
      ]
    ]

-- In a table of FD_MAX headers with the hint below FD_MAX, `fd_alloc` returns a descriptor that
-- was not in use and gives it a fresh header, leaving every other one alone; it returns NULL, and
-- changes nothing, only if every descriptor is in use.
pub fd_alloc_cases :
    (rt : RuntimeState)
    → length rt.f_table ≡ fd_max
    → rt.fd_hint < fd_max
    → ((fd : ℕ) × IsClosed rt fd × (fd_alloc rt ≡ (some fd, open_fd fd rt)))
      ⊎ ((fd_alloc rt ≡ (none, rt)) × ((fd : ℕ) → fd < fd_max → IsOpen rt fd))
unfolding fd_alloc
fd_alloc_cases rt full hint = elim (Option-cases (fd_scan fd_max 0 rt)) [
  | inr (fd, got) ↦ inl (fd, fd_scan-some fd_max 0 rt got, rw (fd_alloc, got))
  | inl out ↦ inr (
    rw (fd_alloc, out, out),
    λ fd lt.
        let i = (fd + fd_max - rt.fd_hint) % fd_max in
        let e : (rt.fd_hint + i) % fd_max ≡ fd = around fd_max rt.fd_hint fd hint lt in
        rw (← e) (fd_scan-none fd_max 0 rt full out i (omega arith) (omega arith)),
  )
]

fd_free_open :
    (fd : ℕ) (rt : RuntimeState)
    → fd < length rt.f_table
    → IsClosed (fd_free fd (open_fd fd rt)) fd
      × ((k : ℕ)
          → fd ≢ k
          → get_elem? (fd_free fd (open_fd fd rt)).f_table k ≡ get_elem? rt.f_table k)
unfolding fd_free open_fd
fd_free_open fd rt lt =
    let new = set rt.f_table fd (fresh_header fd) in
    let old = record (fresh_header fd) { valid = false; file = none } in
    let inside : fd < length new = omega (arith, length-set rt.f_table fd (fresh_header fd)) in
    rw (get_elem?-set_self rt.f_table fd (fresh_header fd) lt, fd_free)
      (
        (old, get_elem?-set_self new fd old inside, refl),
        λ k ne. get_elem?-set_ne new old ne ∙ get_elem?-set_ne rt.f_table (fresh_header fd) ne,
      )

-- In a table of FD_MAX headers with the hint below FD_MAX, a descriptor that `fd_alloc` returned,
-- once freed, is closed, and the other headers are what they were before the allocation.
fd_free-fd_alloc :
    (rt : RuntimeState) {fd : ℕ} {rt' : RuntimeState}
    → length rt.f_table ≡ fd_max
    → rt.fd_hint < fd_max
    → fd_alloc rt ≡ (some fd, rt')
    → IsClosed (fd_free fd rt') fd
      × ((k : ℕ) → fd ≢ k → get_elem? (fd_free fd rt').f_table k ≡ get_elem? rt.f_table k)
unfolding fd_free
fd_free-fd_alloc rt {fd} {rt'} full hint h = elim (fd_alloc_cases rt full hint) [
  | inr (r, used) ↦ absurd (cc (sym h ∙ r))
  | inl (d, (fh, got, closed), r) ↦
      let e = sym h ∙ r in
      let same : fd ≡ d = eq_of_some (ap (λ (t : Option ℕ × RuntimeState). t.0) e) in
      let new : rt' ≡ open_fd d rt = ap (λ (t : Option ℕ × RuntimeState). t.1) e in
      rw (same, new) (fd_free_open d rt (lt_length_of_get rt.f_table d got))
]
