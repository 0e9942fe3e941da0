-- ===== src/Journal.antt =====
-- slotfs/journal.c and journal.h: the pages for journals, and the undo journal of in-place writes.
-- `lock` makes `journal_alloc` and `journal_free` one step each.
pub mod Pages
pub mod Undo
mod Tests
use slotfs_eurosys.Base.{
  ℕ, zero, suc, ◌+◌, ◌-◌, ◌*◌, ◌/◌, ◌&&◌, Bool, true, false, ltb, leb, if◌then◌else◌, Option, none,
  some, List, [], ◌∷◌, set, onto, inl, inr, refl,
}
use slotfs_eurosys.Base.Word.{sub64}
use slotfs_eurosys.Base.Memory.{store}
use slotfs_eurosys.Base.Int.{ℤ, pos, inc, dec, is_zero}
use slotfs_eurosys.Config.{page_size, journal_start, journal_num}

-- `use` (a reserved word) is `in_use`, an array of JOURNAL_NUM flags.
pub record JnlMgr : Type 0 where
  pub in_use : List Bool
  pub count : ℤ

unfoldable pub clear_all : List Bool → List Bool
clear_all [] = []
clear_all (u ∷ us) = false ∷ clear_all us

unfoldable pub journal_mgr_init : JnlMgr → JnlMgr
journal_mgr_init mgr = record { in_use = clear_all mgr.in_use; count = pos 0 }

-- The index of the first page that is not in use.
unfoldable pub first_unused : ℕ → List Bool → Option ℕ
first_unused i [] = none
first_unused i (u ∷ us) = if u then first_unused (i + 1) us else some i

-- The relative address of the page; 0 if there is none. The first branch does not count the page.
unfoldable pub journal_alloc : JnlMgr → ℕ × JnlMgr
journal_alloc mgr =
    if is_zero mgr.count
    then (journal_start, record mgr { in_use = set mgr.in_use 0 true })
    else elim (first_unused 0 mgr.in_use) [
      | none ↦ (0, mgr)
      | some i ↦ (
        journal_start + i * page_size,
        record { in_use = set mgr.in_use i true; count = inc mgr.count },
      )
    ]

unfoldable pub journal_free : ℕ → JnlMgr → JnlMgr
journal_free jnl mgr =
    let idx = sub64 jnl journal_start / page_size in
    record { in_use = set mgr.in_use idx false; count = dec mgr.count }

pub record WriteJnl : Type 0 where
  pub valid : Bool
  pub kind : ℕ
  pub ino : ℕ
  pub begin : ℕ
  pub len : ℕ

abbrev pub jnl_write : ℕ
jnl_write = 1

-- `wjnl + sizeof(write_jnl_t)` counts in structures: 40 of them, of 40 bytes each.
abbrev pub copy_offset : ℕ
copy_offset = 40 * 40

-- Persistent memory by relative address. The structure at the start of a journal page, 40 bytes
-- that nothing else uses, is kept apart from the other bytes.
pub record Pm : Type 0 where
  pub byte : ℕ → ℕ
  pub wjnl : ℕ → WriteJnl

-- `memcpy` of `len` bytes; source and destination do not overlap.
unfoldable pub memcpy : (ℕ → ℕ) → ℕ → ℕ → ℕ → ℕ → ℕ
memcpy byte dest src len a =
    if leb dest a && ltb a (dest + len) then byte (src + (a - dest)) else byte a

unfoldable pub journal_write : ℕ → ℕ → ℕ → ℕ → Pm → Pm
journal_write jnl ino begin len pm = record {
  byte = memcpy pm.byte (jnl + copy_offset) begin len;
  wjnl =
      store pm.wjnl jnl
        (record { valid = true; kind = jnl_write; ino = ino; begin = begin; len = len });
}

-- The journal is no longer valid, and its page is free.
unfoldable pub journal_commit : ℕ → Pm × JnlMgr → Pm × JnlMgr
journal_commit jnl (pm, mgr) = (
  record pm { wjnl = store pm.wjnl jnl (record (pm.wjnl jnl) { valid = false }) },
  journal_free jnl mgr,
)

unfoldable pub journal_replay_write : ℕ → Pm → Pm
journal_replay_write jnl pm =
    let j = pm.wjnl jnl in record pm { byte = memcpy pm.byte j.begin (jnl + copy_offset) j.len }

-- The in-place write of `inode_write_journal`: the first `count` bytes of `buf` at `begin`.
unfoldable pub write_bytes : ℕ → (ℕ → ℕ) → ℕ → Pm → Pm
write_bytes begin buf count pm = record pm {
  byte = λ a. if leb begin a && ltb a (begin + count) then buf (a - begin) else pm.byte a;
}
