-- ===== src/Runtime.antt =====
-- slotfs/runtime.c and runtime.h: the table of open files. `lock` makes `fd_alloc` and `fd_free` one
-- step each.
pub mod Descriptors
mod Tests
use slotfs_eurosys.Base.{
  ℕ, zero, suc, ◌+◌, ◌%◌, Bool, true, false, if◌then◌else◌, Option, none, some, List, get_elem?,
  set, [], ◌∷◌, inl, inr, refl, ◌*◌,
}

abbrev pub fd_max : ℕ
fd_max = 4096 * 2

-- A pointer is its address, `none` for NULL.
pub record FHeader : Type 0 where
  pub fd : ℕ
  pub file : Option ℕ
  pub offset : ℕ
  pub flags : ℕ
  pub valid : Bool
  pub temp_dirent : Option ℕ

-- The fields that the descriptors use; `f_table` has FD_MAX elements.
pub record RuntimeState : Type 0 where
  pub f_table : List FHeader
  pub fd_hint : ℕ

-- One pass of the loop, with the rounds that are left: the index of a header whose flag was clear.
unfoldable pub fd_scan : ℕ → ℕ → RuntimeState → Option ℕ
fd_scan zero i rt = none
fd_scan (suc rounds) i rt =
    let index = (rt.fd_hint + i) % fd_max in
    let rest = fd_scan rounds (i + 1) rt in
    elim (get_elem? rt.f_table index) [
      | none ↦ none
      | some fh ↦ if fh.valid then rest else some index
    ]

unfoldable pub fresh_header : ℕ → FHeader
fresh_header index = record {
  fd = index;
  file = none;
  offset = 0;
  flags = 0;
  valid = true;
  temp_dirent = none;
}

unfoldable pub open_fd : ℕ → RuntimeState → RuntimeState
open_fd index rt = record {
  f_table = set rt.f_table index (fresh_header index);
  fd_hint = (index + 1) % fd_max;
}

-- The loop is run a second time if the first pass finds nothing.
unfoldable pub fd_alloc : RuntimeState → Option ℕ × RuntimeState
fd_alloc rt = elim (fd_scan fd_max 0 rt) [
  | some index ↦ (some index, open_fd index rt)
  | none ↦ elim (fd_scan fd_max 0 rt) [
    | some index ↦ (some index, open_fd index rt)
    | none ↦ (none, rt)
  ]
]

unfoldable pub fd_free : ℕ → RuntimeState → RuntimeState
fd_free fd rt = elim (get_elem? rt.f_table fd) [
  | none ↦ rt
  | some fh ↦ record rt { f_table = set rt.f_table fd (record fh { valid = false; file = none }) }
]
