-- ===== src/Vfs/Paths.antt =====
-- The components of a path.
use slotfs_eurosys.Base.{
  [], ◌∷◌, false, refl, List, ℕ, if◌then◌else◌, length, ◌==◌, ◌≡◌, ◌≤◌, arith, inl, inr, Bool-cases,
}
use slotfs_eurosys.Vfs.{slash, span_name, skip_slashes}

-- A name in front of the others, if it is not empty.
unfoldable pub with_name : List ℕ → List (List ℕ) → List (List ℕ)
with_name [] names = names
with_name (c ∷ cs) names = (c ∷ cs) ∷ names

-- What comes before the first slash, and the names after it.
unfoldable pub pieces : List ℕ → List ℕ × List (List ℕ)
pieces [] = ([], [])
pieces (c ∷ cs) =
    let (first, names) = pieces cs in
    if c == slash then ([], with_name first names) else (c ∷ first, names)

-- The names between the slashes of a path.
unfoldable pub components : List ℕ → List (List ℕ)
components path = with_name (pieces path).0 (pieces path).1

pub components_empty : components [] ≡ []
unfolding components pieces with_name
components_empty = refl

pub components-slash : (cs : List ℕ) → components (slash ∷ cs) ≡ components cs
unfolding components pieces with_name
components-slash cs = refl

pub components-skip_slashes : (cs : List ℕ) → components (skip_slashes cs) ≡ components cs
unfolding skip_slashes
components-skip_slashes [] = refl
components-skip_slashes (c ∷ cs) = elim (Bool-cases (c == slash)) [
  | inl e ↦
      let q : c ≡ slash = ground arith in
      rw (e, q, components-slash cs) (components-skip_slashes cs)
  | inr e ↦ rw e refl
]

-- `skip_slashes` ends at a character of a name or at the end.
pub skip_slashes-head :
    (cs : List ℕ) {c : ℕ} {rest : List ℕ} → skip_slashes cs ≡ c ∷ rest → (c == slash) ≡ false
unfolding skip_slashes
skip_slashes-head [] h = absurd cc
skip_slashes-head (x ∷ cs) {c} {rest} h = elim (Bool-cases (x == slash)) [
  | inl e ↦ skip_slashes-head cs {rest = rest} (ground arith)
  | inr e ↦ (let q : x ≡ c = ground arith in rw (← q) e)
]

pub skip_slashes-length : (cs : List ℕ) → length (skip_slashes cs) ≤ length cs
unfolding skip_slashes
skip_slashes-length [] = omega arith
skip_slashes-length (c ∷ cs) = ground (arith, skip_slashes-length cs)

pub span_name-length : (cs : List ℕ) → length (span_name cs).1 ≤ length cs
unfolding span_name
span_name-length [] = omega arith
span_name-length (c ∷ cs) = ground (arith, span_name-length cs)

pieces-span_name : (cs : List ℕ) → pieces cs ≡ ((span_name cs).0, components (span_name cs).1)
unfolding pieces span_name components with_name
pieces-span_name [] = refl
pieces-span_name (c ∷ cs) = elim (Bool-cases (c == slash)) [
  | inl e ↦ let q : c ≡ slash = ground arith in rw (e, q, components-slash cs) refl
  | inr e ↦ rw (e, pieces-span_name cs) refl
]

-- The first name is what `span_name` finds; the others are those of the rest.
pub components-span_name :
    (c : ℕ) (cs : List ℕ)
    → (c == slash) ≡ false
    → (components (c ∷ cs) ≡ (span_name (c ∷ cs)).0 ∷ components (span_name (c ∷ cs)).1)
      × (length (span_name (c ∷ cs)).1 ≤ length cs)
unfolding components pieces with_name span_name
components-span_name c cs e = rw (e, pieces-span_name cs) (refl, span_name-length cs)
