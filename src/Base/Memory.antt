-- ===== src/Base/Memory.antt =====
-- Memory as a function of the index: an array that the code addresses by pointer arithmetic.
use Prim.Native.Nat.{ℕ, zero, suc, ◌+◌, ◌<◌}
use slotfs_eurosys.Base.{◌≢◌}
use mathlib.Core.Path.{◌≡◌, refl, ap, sym, ◌∙◌}
use mathlib.Core.List.{List, [], ◌∷◌, ◌++◌}
use native.Mathlib.Omega.{arith}
use slotfs_eurosys.Base.Tests.{◌==◌, if◌then◌else◌}

-- The array with one element written.
abbrev pub store {ℓ} : {A : Type ℓ} → (ℕ → A) → ℕ → A → ℕ → A
store m i v j = if i == j then v else m j

pub store_same {ℓ} : {A : Type ℓ} (m : ℕ → A) (i : ℕ) (v : A) → store m i v i ≡ v
store_same m i v = ground arith

pub store_other {ℓ} : {A : Type ℓ} (m : ℕ → A) {i j : ℕ} (v : A) → i ≢ j → store m i v j ≡ m j
store_other m v ne = ground arith

-- A number of elements from an index on.
unfoldable pub bytes_at : (ℕ → ℕ) → ℕ → ℕ → List ℕ
bytes_at memory from zero = []
bytes_at memory from (suc n) = memory from ∷ bytes_at memory (from + 1) n

pub bytes_at-add :
    (memory : ℕ → ℕ) (from a b : ℕ)
    → bytes_at memory from (a + b) ≡ bytes_at memory from a ++ bytes_at memory (from + a) b
unfolding bytes_at
bytes_at-add memory from zero b =
    let e : 0 + b ≡ b = omega arith in
    let start : from + 0 ≡ from = omega arith in rw (e, start) refl
bytes_at-add memory from (suc a) b =
    let e : suc a + b ≡ suc (a + b) = omega arith in
    let start : from + suc a ≡ from + 1 + a = omega arith in
    rw (e, start) (ap (λ bs. memory from ∷ bs) (bytes_at-add memory (from + 1) a b))

pub bytes_at_same :
    (m m' : ℕ → ℕ) (from from' n : ℕ)
    → ((t : ℕ) → t < n → m (from + t) ≡ m' (from' + t))
    → bytes_at m from n ≡ bytes_at m' from' n
unfolding bytes_at
bytes_at_same m m' from from' zero same = refl
bytes_at_same m m' from from' (suc n) same =
    let start : from + 0 ≡ from = omega arith in
    let start' : from' + 0 ≡ from' = omega arith in
    let first : m from ≡ m' from' = ap m (sym start) ∙ same 0 (omega arith) ∙ ap m' start' in
    let next : (t : ℕ) → t < n → m (from + 1 + t) ≡ m' (from' + 1 + t) = λ t lt.
      let e : from + 1 + t ≡ from + (t + 1) = omega arith in
      let e' : from' + 1 + t ≡ from' + (t + 1) = omega arith in
      ap m e ∙ same (t + 1) (omega arith) ∙ ap m' (sym e') in
    rw first (ap (λ bs. m' from' ∷ bs) (bytes_at_same m m' (from + 1) (from' + 1) n next))
