-- ===== src/Slot/Rotate.antt =====
-- The loop over the bitmaps: `do_slot_alloc` finds a free slot wherever there is one.
use native.Mathlib.Nat.{mod-add-mod, mod-lt, mod-eq_of_lt, add-zero}
use slotfs_eurosys.Base.{
  zero, suc, none, some, inl, inr, refl, ℕ, ◌+◌, ◌-◌, ◌%◌, ◌<◌, ◌≡◌, arith, ◌==◌, ◌⊎◌, Bool-cases,
  Option-cases, Option, sym, ◌∙◌, ap, List, length, get_elem?, set, eq_of_some, get_of_lt,
  get_elem?-set_self, get_elem?-set_ne, lt_length_of_get,
}
use slotfs_eurosys.Base.Cycle.{around}
use mathlib.Core.Path.{subst}
use slotfs_eurosys.Slot.{DramBitmap, rotate, do_slot_alloc}
use slotfs_eurosys.Slot.Count.{IsValid}
use slotfs_eurosys.Slot.Alloc.{Takes, Takes-of_step, alloc_one-none}

-- Every bitmap of the array satisfies `P`.
abbrev pub Every {ℓ} : (DramBitmap → Type ℓ) → List DramBitmap → Type ℓ
Every P bitmaps = (c : ℕ) (b : DramBitmap) → get_elem? bitmaps c ≡ some b → P b

pub Every-set {ℓ} :
    {P : DramBitmap → Type ℓ} (bitmaps : List DramBitmap) (c : ℕ) (b : DramBitmap)
    → c < length bitmaps
    → Every P bitmaps
    → P b
    → Every P (set bitmaps c b)
Every-set {P} bitmaps c b lt all new i x e = elim (Bool-cases (c == i)) [
  | inl same ↦
      let q : c ≡ i = ground arith in
      let p : some b ≡ some x =
        sym (get_elem?-set_self bitmaps c b lt) ∙ ap (get_elem? (set bitmaps c b)) q ∙ e in
      subst P (eq_of_some p) new
  | inr other ↦ all i x (sym (get_elem?-set_ne bitmaps b (ground arith)) ∙ e)
]

module _ {ℓ} {A : Type ℓ} (step : DramBitmap → Option (A × DramBitmap)) where
  -- the step succeeded on the bitmap at `c`, and only that bitmap was replaced
  pub record Hit (bitmaps : List DramBitmap) (r : Option A × List DramBitmap) : Type ℓ where
    pub place : ℕ
    pub before : DramBitmap
    pub after : DramBitmap
    pub value : A
    pub was : get_elem? bitmaps place ≡ some before
    pub stepped : step before ≡ some (value, after)
    pub result : r ≡ (some value, set bitmaps place after)

  abbrev Missed : List DramBitmap → ℕ → ℕ → Type ℓ
  Missed bitmaps rounds current =
      (i : ℕ)
      → i < rounds
      → (b : DramBitmap) → get_elem? bitmaps ((current + i) % length bitmaps) ≡ some b
      → step b ≡ none

  Missed-step :
      (rounds current : ℕ) (bitmaps : List DramBitmap)
      → current < length bitmaps
      → (b : DramBitmap) → get_elem? bitmaps current ≡ some b
      → step b ≡ none
      → Missed bitmaps rounds ((current + 1) % length bitmaps)
      → Missed bitmaps (suc rounds) current
  Missed-step rounds current bitmaps lt b got miss missed zero h x e =
      let here : (current + 0) % length bitmaps ≡ current =
        ap (λ k. k % length bitmaps) (add-zero current) ∙ mod-eq_of_lt lt in
      let p : some b ≡ some x = sym got ∙ (rw here at e) in
      subst (λ y. step y ≡ none) (eq_of_some p) miss
  Missed-step rounds current bitmaps lt b got miss missed (suc i) h x e =
      let n = length bitmaps in
      let p : ((current + 1) % n + i) % n ≡ (current + suc i) % n =
        mod-add-mod (current + 1) n i ∙ ap (λ k. k % n) (omega arith) in
      missed i (omega arith) x (rw p e)

  rotate-cases :
      (rounds current : ℕ) (bitmaps : List DramBitmap)
      → current < length bitmaps
      → Hit bitmaps (rotate step rounds current bitmaps)
        ⊎ ((rotate step rounds current bitmaps ≡ (none, bitmaps)) × Missed bitmaps rounds current)
  unfolding rotate
  rotate-cases zero current bitmaps lt = inr (refl, λ i h. absurd (omega arith))
  rotate-cases (suc rounds) current bitmaps lt =
      let n = length bitmaps in
      let (b, got) = get_of_lt bitmaps current lt in
      elim (Option-cases (step b)) [
        | inr ((a, b'), e) ↦ inl (record {
          place = current;
          before = b;
          after = b';
          value = a;
          was = got;
          stepped = e;
          result = rw (got, rotate, e);
        })
        | inl miss ↦
            elim (rotate-cases rounds ((current + 1) % n) bitmaps (mod-lt _ (omega arith))) [
              | inl hit ↦ inl (record {
                place = hit.place;
                before = hit.before;
                after = hit.after;
                value = hit.value;
                was = hit.was;
                stepped = hit.stepped;
                result = rw (got, rotate, miss) hit.result;
              })
              | inr (r, missed) ↦ inr (
                rw (got, rotate, miss) r,
                Missed-step rounds current bitmaps lt b got miss missed,
              )
            ]
      ]

  -- a whole round: the step is tried on every bitmap
  pub rotate_round :
      (start : ℕ) (bitmaps : List DramBitmap)
      → start < length bitmaps
      → Hit bitmaps (rotate step (length bitmaps) start bitmaps)
        ⊎ ((rotate step (length bitmaps) start bitmaps ≡ (none, bitmaps))
            × Every (λ b. step b ≡ none) bitmaps)
  rotate_round start bitmaps lt = elim (rotate-cases (length bitmaps) start bitmaps lt) [
    | inl hit ↦ inl hit
    | inr (r, missed) ↦ inr (
      r,
      λ c b e.
          let n = length bitmaps in
          let inside = lt_length_of_get bitmaps c e in
          let i = (c + n - start) % n in
          let p : (start + i) % n ≡ c = around n start c lt inside in
          missed i (mod-lt _ (omega arith)) b (rw p e),
    )
  ]

-- `do_slot_alloc` took the slot `index`, which was free, from one bitmap.
pub record Allocates (bitmaps : List DramBitmap) (r : Option ℕ × List DramBitmap) : Type 0 where
  pub place : ℕ
  pub before : DramBitmap
  pub after : DramBitmap
  pub index : ℕ
  pub was : get_elem? bitmaps place ≡ some before
  pub takes : Takes before index after
  pub result : r ≡ (some index, set bitmaps place after)
  pub valid : Every IsValid r.1

-- What a step over one valid bitmap promises: it takes a free slot, and it does so while one is left.
pub record IsAllocator (step : DramBitmap → Option (ℕ × DramBitmap)) : Type 0 where
  pub takes :
      {b : DramBitmap} → IsValid b → {r : ℕ × DramBitmap} → step b ≡ some r → Takes b r.0 r.1
  pub complete : {b : DramBitmap} → IsValid b → step b ≡ none → b.remain ≡ 0

-- The loop with such a step.
pub rotate-Allocates :
    {step : DramBitmap → Option (ℕ × DramBitmap)} (start : ℕ) (bitmaps : List DramBitmap)
    → IsAllocator step
    → start < length bitmaps
    → Every IsValid bitmaps
    → Allocates bitmaps (rotate step (length bitmaps) start bitmaps)
      ⊎ ((rotate step (length bitmaps) start bitmaps ≡ (none, bitmaps))
          × Every (λ b. b.remain ≡ 0) bitmaps)
rotate-Allocates {step} start bitmaps alloc lt valid = elim (rotate_round step start bitmaps lt) [
  | inr (r, missed) ↦ inr (r, λ c b e. alloc.complete (valid c b e) (missed c b e))
  | inl hit ↦
      let takes = alloc.takes (valid hit.place hit.before hit.was) hit.stepped in
      let inside = lt_length_of_get bitmaps hit.place hit.was in
      inl (record {
        place = hit.place;
        before = hit.before;
        after = hit.after;
        index = hit.value;
        was = hit.was;
        takes = takes;
        result = hit.result;
        valid = rw hit.result (Every-set bitmaps hit.place hit.after inside valid takes.valid);
      })
]

-- Over at least one bitmap, all of them valid, `do_slot_alloc` takes a slot that was free and
-- keeps them valid, or it returns -1 and changes nothing; and it returns -1 only if no bitmap has
-- a slot left, whatever the CPU.
pub do_slot_alloc_cases :
    (cpu : ℕ) (bitmaps : List DramBitmap)
    → 0 < length bitmaps
    → Every IsValid bitmaps
    → Allocates bitmaps (do_slot_alloc cpu bitmaps)
      ⊎ ((do_slot_alloc cpu bitmaps ≡ (none, bitmaps)) × Every (λ b. b.remain ≡ 0) bitmaps)
unfolding do_slot_alloc
do_slot_alloc_cases cpu bitmaps some_map valid =
    rotate-Allocates (cpu % length bitmaps) bitmaps
      (record { takes = Takes-of_step; complete = alloc_one-none }) (mod-lt cpu some_map) valid
