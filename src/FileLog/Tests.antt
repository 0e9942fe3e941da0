-- ===== src/FileLog/Tests.antt =====
-- Witnesses of a file's log: a file without entries, and one with an entry to reuse.
use slotfs_eurosys.BTree.{btree_create}
use slotfs_eurosys.Base.{[], ◌∷◌, true, false, inl, refl, length, ◌<◌, arith, ◌≡◌}
use slotfs_eurosys.FileLog.{
  filent_of, reuse_next, try_reuse, filent_try_reuse, LogState, file_append_entry, filent_dispatch,
}
use slotfs_eurosys.BTree.Place.{capacity}
use slotfs_eurosys.File.{Filent, PmFilent}
use slotfs_eurosys.FileLog.Append.{Appended, file_append_entry-Appended}
use slotfs_eurosys.FileLog.Reuse.{IsCounted, filent_dispatch-invalid_num}

abbrev entry : PmFilent
entry = record { l_idx = 250; p_idx = 40; blocks = 20; ts = 1; next = 0 }

abbrev old : Filent
old = record { idx = 3; ts = 0; l_idx = 0; p_idx = 8; blocks = 1; ref = 0 }

-- The file has slot 3 in its log and slot 5 as its ghost; there is no free slot.
abbrev state : LogState
state = record {
  file = record {
    i_ino = 1;
    entry_num = 1;
    log_head = 3;
    ghost_slot = 5;
    list = old ∷ [];
    b_root = btree_create;
  };
  invalid = old ∷ [];
  invalid_num = 1;
  refs = λ idx. 0;
  pm = record { filent = λ idx. entry; log_head = λ ino. 3 };
  maps = [];
  data_maps = [];
}

state-height : state.file.b_root.height ≡ 0
unfolding btree_create
state-height = refl

small_key : 270 < capacity 6
unfolding capacity
small_key = omega arith

file_append_entry-Appended_example :
    Appended false entry state (file_append_entry false true false 0 entry state)
file_append_entry-Appended_example =
    file_append_entry-Appended false true false 0 entry state (omega (arith, state-height))
      (omega arith) small_key

state-IsCounted : IsCounted state
unfolding IsCounted
state-IsCounted = (refl, omega arith)

filent_dispatch-invalid_num_example :
    ¬ ((filent_dispatch false state).1.invalid_num ≡ length (filent_dispatch false state).1.invalid)
filent_dispatch-invalid_num_example = filent_dispatch-invalid_num state state-IsCounted

-- The slot of the entry that is reused is written.
reused_slot : (file_append_entry false true false 0 entry state).0 ≡ inl (filent_of entry 3)
unfolding file_append_entry filent_dispatch filent_try_reuse try_reuse reuse_next
reused_slot = refl
