-- ===== src/Journal/Pages.antt =====
-- The allocation of journal pages, in the branch that counts them.
use slotfs_eurosys.Base.{
  [], ◌∷◌, zero, suc, true, false, none, some, inl, inr, refl, ℕ, List, Bool, ◌≡◌, get_elem?,
  length, ◌<◌, arith, ◌+◌, ◌*◌, ◌≢◌, set, ◌⊎◌, Option-cases, ap, sym, ◌∙◌, lt_length_of_get, ◌/◌,
  set-set_restore,
}
use slotfs_eurosys.Base.Int.{dec-inc, inc, is_zero}
use slotfs_eurosys.Base.Word.{sub64}
use slotfs_eurosys.Journal.{
  sub64, journal_start, is_zero, JnlMgr, first_unused, journal_alloc, journal_free,
}
use slotfs_eurosys.Config.{page_size, journal_num, journal_start}

first_unused-get :
    (base : ℕ) (us : List Bool) {i : ℕ}
    → first_unused base us ≡ some i
    → (k : ℕ) × (i ≡ base + k) × (get_elem? us k ≡ some false)
unfolding first_unused
first_unused-get base [] h = absurd (cc)
first_unused-get base (true ∷ us) h =
    let (k, e, got) = first_unused-get (base + 1) us h in (suc k, omega arith, got)
first_unused-get base (false ∷ us) h = (0, ground arith, refl)

first_unused-none :
    (base : ℕ) (us : List Bool)
    → first_unused base us ≡ none
    → (i : ℕ) → i < length us
    → get_elem? us i ≡ some true
unfolding first_unused
first_unused-none base [] h i lt = absurd (omega arith)
first_unused-none base (true ∷ us) h zero lt = refl
first_unused-none base (true ∷ us) h (suc i) lt = first_unused-none (base + 1) us h i (omega arith)
first_unused-none base (false ∷ us) h i lt = cc

-- While journals are counted, `journal_alloc` returns a page that was not in use and counts it, or 0
-- if every page is in use; then it changes nothing.
pub journal_alloc_counted :
    (mgr : JnlMgr)
    → is_zero mgr.count ≡ false
    → ((i : ℕ) × (get_elem? mgr.in_use i ≡ some false)
        × (journal_alloc mgr ≡ (
          journal_start + i * page_size,
          record { in_use = set mgr.in_use i true; count = inc mgr.count },
        )))
      ⊎ ((journal_alloc mgr ≡ (0, mgr))
          × ((i : ℕ) → i < length mgr.in_use → get_elem? mgr.in_use i ≡ some true))
unfolding journal_alloc
journal_alloc_counted mgr h = elim (Option-cases (first_unused 0 mgr.in_use)) [
  | inl full ↦ inr (rw (h, full), first_unused-none 0 mgr.in_use full)
  | inr (i, got) ↦
      let (k, e, free) = first_unused-get 0 mgr.in_use got in
      let same : i ≡ k = omega arith in inl (i, rw same free, rw (h, got))
]

-- While journals are counted and the manager has JOURNAL_NUM flags, freeing the page that
-- `journal_alloc` has just returned, if it returned one, restores the manager.
journal_free-journal_alloc :
    (mgr : JnlMgr)
    → is_zero mgr.count ≡ false
    → length mgr.in_use ≡ journal_num
    → {jnl : ℕ} {mgr' : JnlMgr} → journal_alloc mgr ≡ (jnl, mgr')
    → jnl ≢ 0
    → journal_free jnl mgr' ≡ mgr
unfolding journal_free
journal_free-journal_alloc mgr h full e got = elim (journal_alloc_counted mgr h) [
  | inr (full, used) ↦ absurd (got (ap (λ (r : ℕ × JnlMgr). r.0) (sym e ∙ full)))
  | inl (i, free, r) ↦
      let j = ap (λ (t : ℕ × JnlMgr). t.0) (sym e ∙ r) in
      let m = ap (λ (t : ℕ × JnlMgr). t.1) (sym e ∙ r) in
      let small : i < journal_num = omega (arith, lt_length_of_get mgr.in_use i free) in
      let idx : sub64 (journal_start + i * page_size) journal_start / page_size ≡ i = omega arith in
      rw (j, m, idx, set-set_restore mgr.in_use i true false free, dec-inc mgr.count)
]
