-- ===== src/Journal/Tests.antt =====
-- Witnesses of the journal's properties.
use slotfs_eurosys.Base.{
  [], ◌∷◌, zero, suc, true, false, inr, refl, ℕ, List, set, ◌%◌, ◌≡◌, Bool, ◌+◌, arith,
}
use slotfs_eurosys.Base.Int.{pos}
use slotfs_eurosys.Config.{journal_start}
use slotfs_eurosys.Journal.Undo.{replay-write}
use slotfs_eurosys.Journal.{
  journal_write, first_unused, journal_start, pos, write_bytes, JnlMgr, Pm, journal_alloc,
  journal_replay_write,
}

abbrev unused : ℕ → List Bool
unused zero = []
unused (suc n) = false ∷ unused n

-- the first page is in use and counted
abbrev one_page : JnlMgr
one_page = record { in_use = set (unused 256) 0 true; count = pos 1 }

abbrev two_pages : JnlMgr
two_pages = record { in_use = set (set (unused 256) 0 true) 1 true; count = pos 2 }

one_more : journal_alloc one_page ≡ (journal_start + 4096, two_pages)
unfolding journal_alloc first_unused
one_more = refl

abbrev memory : Pm
memory = record {
  byte = λ a. a % 256;
  wjnl = λ a. record { valid = false; kind = 0; ino = 0; begin = 0; len = 0 };
}

replay-write_example :
    (journal_replay_write 8192
        (write_bytes 2000000 (λ i. 7) 50 (journal_write 8192 3 2000000 100 memory))).byte
      2000010
    ≡ memory.byte 2000010
replay-write_example =
    replay-write 8192 3 2000000 100 50 (λ i. 7) memory (inr (omega arith)) (omega arith) 2000010
      (inr (omega arith))
