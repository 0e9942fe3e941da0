-- ===== src/FileLog/Reuse.antt =====
-- `filent_dispatch`: the length of a file's list `invalid` and its count `invalid_num`.
use slotfs_eurosys.FileLog.{
  LogState, filent_dispatch, filent_insert_callback, Filent, filent_try_reuse, sub64, try_reuse,
}
use slotfs_eurosys.Base.{
  [], ◌∷◌, false, refl, length-append, ap, List, arith, ◌-◌, ◌^◌, ℕ, ◌<◌, length, ◌≡◌,
}
use slotfs_eurosys.Base.Word.{sub64}
use slotfs_eurosys.File.{Filent}

-- `invalid_num` is the length of the list.
unfoldable pub IsCounted : LogState → Type 0
IsCounted s = (s.invalid_num ≡ length s.invalid) × (length s.invalid < 2 ^ 64 - 1)

-- The callback counts each entry that it puts on the list.
pub filent_insert_callback-invalid_num :
    (old : Filent) (idx : ℕ) (s : LogState)
    → IsCounted s
    → (filent_insert_callback old idx s).invalid_num
      ≡ length (filent_insert_callback old idx s).invalid
unfolding filent_insert_callback IsCounted
filent_insert_callback-invalid_num old idx s (counted, short) =
    ground (arith, length-append s.invalid (old ∷ []))

try_reuse-invalid_num :
    (invalid : List Filent) (s : LogState)
    → length invalid < 2 ^ 64 - 1
    → s.invalid ≡ invalid
    → s.invalid_num ≡ sub64 (length invalid) 1
    → ¬ ((try_reuse invalid s).1.invalid_num ≡ length (try_reuse invalid s).1.invalid)
unfolding try_reuse
try_reuse-invalid_num [] s short same num e =
    let none_left : length s.invalid ≡ 0 = ap length same in omega (arith, num, e, none_left)
try_reuse-invalid_num (fe ∷ rest) s short same num e = omega (arith, short, num, e)

-- Where `invalid_num` is the length of `invalid`, and that is below 2 ^ 64 - 1, a `filent_dispatch`
-- that looks for an entry to reuse leaves an `invalid_num` that is not the length of `invalid`.
pub filent_dispatch-invalid_num :
    (s : LogState)
    → IsCounted s
    → ¬ ((filent_dispatch false s).1.invalid_num ≡ length (filent_dispatch false s).1.invalid)
unfolding filent_dispatch filent_try_reuse IsCounted
filent_dispatch-invalid_num s (counted, short) =
    try_reuse-invalid_num s.invalid (record s { invalid_num = sub64 s.invalid_num 1 }) short refl
      (ap (λ n. sub64 n 1) counted)
