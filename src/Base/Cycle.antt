-- ===== src/Base/Cycle.antt =====
-- Going round an array of `n` elements by indices modulo `n`.
use native.Mathlib.Nat.{mod-eq_of_lt, add-mod_right, add-mod-mod}
use Prim.Native.Nat.{ℕ, ◌+◌, ◌-◌, ◌%◌, ◌<◌}
use mathlib.Core.Path.{◌≡◌}
use native.Mathlib.Omega.{arith}

-- From `start` on, `c` is `c - start` steps round.
pub around : (n start c : ℕ) → start < n → c < n → (start + (c + n - start) % n) % n ≡ c
around n start c h k =
    let e : (start + (c + n - start) % n) % n ≡ (start + (c + n - start)) % n =
      add-mod-mod start (c + n - start) n in
    let r : start + (c + n - start) ≡ c + n = omega arith in
    rw (e, r, add-mod_right) (mod-eq_of_lt k)
