-- ===== src/Calls.antt =====
-- slotfs/slotfs_func.c: the system calls on descriptors. An `int` is its 32-bit word. An inode in use
-- is the one of its number in the inode cache, and a header's `file` is that number. `refs` has the
-- inodes' `ref`, an atomic_uint.
pub mod Counts
pub mod Close
pub mod Open
pub mod Leak
mod Tests
use slotfs_eurosys.Base.{
  [], ◌∷◌, zero, suc, true, false, none, some, Bool, List, Option, ℕ, if◌then◌else◌, get_elem?, set,
  ◌+◌, ◌*◌, ◌-◌, ◌%◌, ◌^◌, ◌==◌, ltb, leb, not, ◌&&◌, ◌||◌, inl, inr, refl,
}
use slotfs_eurosys.Base.Memory.{store}
use slotfs_eurosys.Base.Word.{add64}
use slotfs_eurosys.Runtime.{FHeader, RuntimeState, fd_alloc, fd_free, fd_max}
use slotfs_eurosys.Vfs.{
  ok, err, fault, VfsInode, VfsState, Sbi, NameiData, PmInode, path_lookup, inode_lock,
  inode_unlock, is_dir, is_absolute, LookupError,
}
use slotfs_eurosys.FileData.{DataInode, inode_read}

pub data CallError : Type 0 where
  ebadfd einval emfile : CallError
  lookup_failed : LookupError → CallError

-- A returned number, -1, or the use of a pointer that points to nothing.
pub data Ret : Type 0 where
  returned : ℕ → Ret
  minus_one : Ret
  crashed : Ret

-- `cwd` and `_errno` are of the runtime, `release_list` of the super block.
pub record CallState : Type 0 where
  pub rt : RuntimeState
  pub cwd : VfsInode
  pub errno : Option CallError
  pub sbi : Sbi
  pub vfs : VfsState
  pub refs : ℕ → ℕ
  pub release_list : List ℕ

unfoldable pub set_errno : CallError → CallState → CallState
set_errno e s = record s { errno = some e }

-- -100
abbrev pub at_fdcwd : ℕ
at_fdcwd = 2 ^ 32 - 100

-- `none` is ERR_PTR(-EBADFD); a NULL file is `some none`.
unfoldable pub file_table_get : ℕ → CallState → Option (Option VfsInode)
file_table_get fd s = if leb fd_max fd then none else elim (get_elem? s.rt.f_table fd) [
  | none ↦ none
  | some fh ↦
      if not fh.valid
      then none
      else elim fh.file [ none ↦ some none | some ino ↦ some (s.vfs.inode_table ino) ]
]

unfoldable pub start_of : ℕ → List ℕ → CallState → Option (Option VfsInode)
start_of dfd path s =
    if is_absolute path
    then some (some s.sbi.root)
    else if dfd == at_fdcwd
    then some (some s.cwd)
    else file_table_get dfd s

-- `nofollow` is the flag O_NOFOLLOW; `nd.last` and the other fields are not set here.
unfoldable pub nameidata_init : Option VfsInode → List ℕ → Bool → NameiData
nameidata_init start path nofollow = record {
  path = path;
  start = start;
  current = none;
  parent = none;
  depth = 0;
  nd_parent = false;
  nd_nofollow = nofollow;
  last = [];
  last_len = 0;
}

-- The end of `do_slotfs_open` without O_CREAT, at the inode that has been found.
unfoldable pub take_inode : Bool → VfsInode → CallState → (Option ℕ) × CallState
take_inode directory cur s =
    let ino = cur.dir.i_ino in
    if directory && not (is_dir cur)
    then (
      none,
      set_errno (lookup_failed LookupError.enotdir) (record s { vfs = inode_unlock ino s.vfs }),
    )
    else (
      some ino,
      record s {
        refs = store s.refs ino ((s.refs ino + 1) % 2 ^ 32);
        vfs = inode_unlock ino s.vfs;
      },
    )

-- What `do_slotfs_open` returns without O_CREAT: the inode's number, or `none` with the error in
-- `_errno`, where `slotfs_open` puts it; the last component says that a bad pointer was used.
unfoldable pub do_slotfs_open : ℕ → List ℕ → Bool → Bool → CallState → Option ℕ × CallState × Bool
do_slotfs_open dfd path directory nofollow s = elim (start_of dfd path s) [
  | none ↦ (none, set_errno ebadfd s, false)
  | some start ↦
      let (ret, nd, vfs) = path_lookup s.sbi 12 (nameidata_init start path nofollow) s.vfs in
      let s' = record s { vfs = vfs } in
      elim ret [
        | fault ↦ (none, s', true)
        | err e ↦ (none, set_errno (lookup_failed e) s', false)
        | ok done ↦ elim nd.current [
          | none ↦ (none, s', true)
          | some cur ↦ (let (file, s2) = take_inode directory cur s' in (file, s2, false))
        ]
      ]
]

-- `fh->file = inode; fh->flags = flags`
unfoldable pub install : ℕ → ℕ → ℕ → CallState → CallState
install fd ino flags s = elim (get_elem? s.rt.f_table fd) [
  | none ↦ s
  | some fh ↦ record s {
    rt = record s.rt {
      f_table = set s.rt.f_table fd (record fh { file = some ino; flags = flags });
    };
  }
]

-- What follows on `fd_alloc`.
unfoldable pub open_with :
    ℕ → List ℕ → ℕ → Bool → Bool → CallState → Option ℕ × RuntimeState → Ret × CallState
open_with dfd path flags directory nofollow s (none, rt) = (minus_one, set_errno emfile s)
open_with dfd path flags directory nofollow s (some fd, rt) =
    let (file, s', bad) = do_slotfs_open dfd path directory nofollow (record s { rt = rt }) in
    if bad
    then (crashed, s')
    else elim file [ none ↦ (minus_one, s') | some ino ↦ (returned fd, install fd ino flags s') ]

-- `slotfs_open` without O_CREAT; `directory` and `nofollow` are bits of `flags`.
unfoldable pub slotfs_open : ℕ → List ℕ → ℕ → Bool → Bool → CallState → Ret × CallState
slotfs_open dfd path flags directory nofollow s =
    open_with dfd path flags directory nofollow s (fd_alloc s.rt)

-- The fields that persistent memory gets, but for the owner, the times and the checksum.
unfoldable pub inode_flush : VfsInode → Sbi → Sbi
inode_flush inode sbi = record sbi {
  pm_inode = store sbi.pm_inode inode.dir.i_ino (record (sbi.pm_inode inode.dir.i_ino) {
    i_size = inode.i_size;
    i_mode = inode.i_mode;
    log_head = inode.dir.log_head;
    entry_num = inode.dir.entry_num;
  });
}

-- From `ref--` to `inode_unlock`: the last closing of an inode without links puts it on the release
-- list, the last one of another inode writes it back.
unfoldable pub put_inode : VfsInode → ℕ → CallState → CallState
put_inode inode ino s =
    let ref = (s.refs ino + 2 ^ 32 - 1) % 2 ^ 32 in
    let s' = record s { refs = store s.refs ino ref } in
    if (ref == 0) && (inode.i_link == 0)
    then record s' {
      release_list = ino ∷ s.release_list;
      vfs = record s.vfs { inode_table = store s.vfs.inode_table ino none };
    }
    else if ref == 0
    then record s' { sbi = inode_flush inode s.sbi }
    else s'

-- A descriptor beyond the table is not caught.
unfoldable pub slotfs_close : ℕ → CallState → Ret × CallState
slotfs_close fd s = elim (get_elem? s.rt.f_table fd) [
  | none ↦ (crashed, s)
  | some fh ↦ elim fh.file [
    | none ↦ (minus_one, set_errno ebadfd s)
    | some ino ↦
        if not fh.valid then (minus_one, set_errno ebadfd s) else elim (s.vfs.inode_table ino) [
          | none ↦ (crashed, s)
          | some inode ↦
              let s' = put_inode inode ino s in (returned 0, record s' { rt = fd_free fd s'.rt })
        ]
  ]
]

abbrev pub data_inode : VfsInode → DataInode
data_inode inode = record { i_size = inode.i_size; b_root = inode.b_root }

-- `ret > 0`, of an `int`
unfoldable pub is_positive : ℕ → Bool
is_positive ret = ltb 0 ret && ltb ret (2 ^ 31)

-- `fh->offset += ret`
unfoldable pub move_offset : ℕ → FHeader → ℕ → CallState → CallState
move_offset fd fh n s = record s {
  rt = record s.rt { f_table = set s.rt.f_table fd (record fh { offset = add64 fh.offset n }) };
}

-- `slotfs_pread`, with the bytes for `buf`; a read that would not end is none.
unfoldable pub slotfs_pread : ℕ → ℕ → ℕ → CallState → Option (Ret × List ℕ × CallState)
slotfs_pread fd count offset s = elim (get_elem? s.rt.f_table fd) [
  | none ↦ some (crashed, [], s)
  | some fh ↦ if not fh.valid then some (minus_one, [], set_errno ebadfd s) else elim fh.file [
    | none ↦ some (minus_one, [], set_errno ebadfd s)
    | some ino ↦ elim (s.vfs.inode_table ino) [
      | none ↦ some (crashed, [], s)
      | some inode ↦ elim (inode_read (data_inode inode) s.sbi.data_pages count offset) [
        | none ↦ none
        | some (n, bytes) ↦
            let ret = n % 2 ^ 32 in
            some (returned ret, bytes, if is_positive ret then move_offset fd fh ret s else s)
      ]
    ]
  ]
]

-- `slotfs_read` differs from it in the offset only.
unfoldable pub slotfs_read : ℕ → ℕ → CallState → Option (Ret × List ℕ × CallState)
slotfs_read fd count s = elim (get_elem? s.rt.f_table fd) [
  | none ↦ some (crashed, [], s)
  | some fh ↦ slotfs_pread fd count fh.offset s
]

pub data Whence : Type 0 where
  seek_set seek_cur seek_end : Whence
  seek_other : Whence

-- A NULL file is used for SEEK_END; a descriptor that is not in use is not refused.
unfoldable pub slotfs_lseek : ℕ → ℕ → Whence → CallState → Ret × CallState
slotfs_lseek fd offset whence s = elim (get_elem? s.rt.f_table fd) [
  | none ↦ (crashed, s)
  | some fh ↦
      let moved = λ (to : ℕ). record s {
        rt = record s.rt { f_table = set s.rt.f_table fd (record fh { offset = to }) };
      } in
      elim whence [
        | seek_set ↦ (returned 0, moved offset)
        | seek_cur ↦ (returned 0, moved (add64 fh.offset offset))
        | seek_other ↦ (minus_one, set_errno einval s)
        | seek_end ↦ elim fh.file [
          | none ↦ (crashed, s)
          | some ino ↦ elim (s.vfs.inode_table ino) [
            | none ↦ (crashed, s)
            | some inode ↦ (returned 0, moved (add64 inode.i_size offset))
          ]
        ]
      ]
]
