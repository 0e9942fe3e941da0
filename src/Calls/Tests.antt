-- ===== src/Calls/Tests.antt =====
-- Witnesses of the calls: the root directory alone, with a table of FD_MAX headers.
use slotfs_eurosys.Base.{
  [], ◌∷◌, zero, suc, true, false, none, some, List, ℕ, length, ◌≡◌, arith, refl, if◌then◌else◌,
  ◌==◌, sym,
}
use slotfs_eurosys.Calls.{
  ebadfd, file_table_get, set_errno, start_of, CallState, slotfs_open, slotfs_close, do_slotfs_open,
  at_fdcwd, minus_one,
}
use slotfs_eurosys.Dir.{Tree}
use slotfs_eurosys.BTree.{btree_create}
use slotfs_eurosys.Runtime.{FHeader, fd_max, fd_alloc, fd_scan, open_fd, fresh_header}
use slotfs_eurosys.Runtime.Descriptors.{IsOpen}
use slotfs_eurosys.Vfs.{is_absolute, VfsInode}
use slotfs_eurosys.Calls.Counts.{IsCounted, opens, weight}
use slotfs_eurosys.Calls.Open.{slotfs_open-IsCounted}
use slotfs_eurosys.Calls.Close.{slotfs_close-IsCounted, ReleasesUnused}
use slotfs_eurosys.Calls.Leak.{slotfs_open_leak}

abbrev closed : FHeader
closed = record { fd = 0; file = none; offset = 0; flags = 0; valid = false; temp_dirent = none }

abbrev table : ℕ → List FHeader
table zero = []
table (suc n) = closed ∷ table n

length-table : (n : ℕ) → length (table n) ≡ n
length-table zero = refl
length-table (suc n) = omega (arith, length-table n)

opens-table : (ino n : ℕ) → opens ino (table n) ≡ 0
unfolding opens weight
opens-table ino zero = refl
opens-table ino (suc n) = omega (arith, opens-table ino n)

abbrev root : VfsInode
root = record {
  dir = record {
    i_ino = 0;
    ts = 0;
    entry_num = 0;
    log_head = 0;
    ghost_slot = 0;
    list = [];
    rb_root = Tree.empty;
  };
  i_size = 0;
  i_link = 0;
  i_mode = 16384;
  b_root = btree_create;
}

abbrev state : CallState
state = record {
  rt = record { f_table = table fd_max; fd_hint = 3 };
  cwd = root;
  errno = none;
  sbi = record {
    pm_inode = λ ino. record { i_size = 0; i_link = 0; i_mode = 0; log_head = 0; entry_num = 0 };
    entries = record {
      dirent = λ i. record { name = []; ino = 0; ts = 0; next = 0 };
      log_head = λ i. 0;
    };
    data_pages = λ i. 0;
    root = root;
    rb_insert_color = λ t. t;
    pd = record { name = []; ino = 0; ts = 0; next = 0 };
    heap_alloc = λ size. true;
  };
  vfs = record {
    inode_table = λ ino. if ino == 0 then some root else none;
    held = [];
    inode_arena = 4;
  };
  refs = λ ino. 0;
  release_list = [];
}

state-IsCounted : IsCounted state
unfolding IsCounted
state-IsCounted ino = sym (opens-table ino fd_max)

-- the path `/`
slotfs_open-IsCounted_example : IsCounted (slotfs_open at_fdcwd (47 ∷ []) 0 true false state).1
slotfs_open-IsCounted_example =
    slotfs_open-IsCounted at_fdcwd (47 ∷ []) 0 true false state state-IsCounted
      (length-table fd_max) (omega arith)

-- the header 2 in use for inode 7
abbrev used : FHeader
used = record closed { valid = true; file = some 7 }

abbrev one_open : CallState
one_open = record state {
  rt = record { f_table = closed ∷ closed ∷ used ∷ []; fd_hint = 0 };
  refs = λ ino. if ino == 7 then 1 else 0;
  vfs = record state.vfs { inode_table = λ ino. some root };
}

one_open-IsCounted : IsCounted one_open
unfolding IsCounted opens weight
one_open-IsCounted ino = ground arith

slotfs_close-IsCounted_example :
    IsCounted (slotfs_close 2 one_open).1 × ReleasesUnused one_open (slotfs_close 2 one_open).1
slotfs_close-IsCounted_example = slotfs_close-IsCounted 2 one_open one_open-IsCounted (omega arith)

first_fd : fd_alloc state.rt ≡ (some 3, open_fd 3 state.rt)
unfolding fd_alloc fd_scan
first_fd = refl

abbrev after_alloc : CallState
after_alloc = record state { rt = open_fd 3 state.rt }

-- the path `a` in a directory that is not open
no_directory : start_of 9 (97 ∷ []) after_alloc ≡ none
unfolding start_of file_table_get is_absolute open_fd fresh_header
no_directory = refl

no_entry :
    do_slotfs_open 9 (97 ∷ []) false false after_alloc ≡ (none, set_errno ebadfd after_alloc, false)
unfolding do_slotfs_open
no_entry = rw (do_slotfs_open, no_directory) refl

slotfs_open_leak_example :
    let (ret, s') = slotfs_open 9 (97 ∷ []) 0 false false state in
    (ret ≡ minus_one)
    × IsOpen s'.rt 3
    × ((slotfs_close 3 s').0 ≡ minus_one)
    × ((slotfs_close 3 s').1.rt ≡ s'.rt)
slotfs_open_leak_example =
    slotfs_open_leak 9 (97 ∷ []) 0 false false state _ (length-table fd_max) (omega arith) first_fd
      no_entry
