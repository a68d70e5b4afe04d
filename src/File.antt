-- ===== src/File.antt =====
-- file.c and `pipealloc` (pipe.c): the table of open files. A `struct file*` is an index of the
-- table, and `ftable.lock` makes each change of the table one step.

pub mod Writing
pub mod Chunks
pub mod Inodes
pub mod Table
pub mod Pipes
mod Tests
use xv6_public_os_project.Base.{
  ℕ, ◌+◌, ◌-◌, Bool, true, false, Option, none, some, List, [], ◌∷◌, ◌==◌, if◌then◌else◌, int_lt,
  add32, sub32, set, get_or,
}

pub data FileType : Type 0 where
  fd_none fd_pipe fd_inode : FileType

-- struct file; `ref` is an int pattern, `pipe` and `ip` are addresses, 0 is the null pointer.
pub record File : Type 0 where
  pub kind : FileType
  pub ref : ℕ
  pub readable : Bool
  pub writable : Bool
  pub pipe : ℕ
  pub ip : ℕ
  pub off : ℕ

abbrev pub nfile : ℕ
nfile = 100

abbrev pub blank : File
blank = record {
  kind = fd_none;
  ref = 0;
  readable = false;
  writable = false;
  pipe = 0;
  ip = 0;
  off = 0;
}

abbrev pub file_at : List File → ℕ → File
file_at fs f = get_or fs f blank

-- The loop of `filealloc` over the table, from index `i` on.
unfoldable pub find_free : List File → ℕ → Option ℕ
find_free [] i = none
find_free (f ∷ fs) i = let rest = find_free fs (i + 1) in if f.ref == 0 then some i else rest

unfoldable pub filealloc : List File → List File × Option ℕ
filealloc fs = elim (find_free fs 0) [
  | none ↦ (fs, none)
  | some i ↦ (set fs i (record (file_at fs i) { ref = 1 }), some i)
]

-- `none` is the panic, here and in `fileclose`.
unfoldable pub filedup : ℕ → List File → Option (List File)
filedup f fs =
    let p = file_at fs f in
    if int_lt p.ref 1 then none else some (set fs f (record p { ref = add32 p.ref 1 }))

-- What `fileclose` still has to release, after it has let go of `ftable.lock`: nothing, an end of a
-- pipe, or an inode (in a transaction of its own).
pub data Release : Type 0 where
  nothing : Release
  close_pipe : ℕ → Bool → Release
  put_inode : ℕ → Release

abbrev pub released : File → Release
released ff = elim ff.kind [
  | fd_none ↦ nothing
  | fd_pipe ↦ close_pipe ff.pipe ff.writable
  | fd_inode ↦ put_inode ff.ip
]

unfoldable pub fileclose : ℕ → List File → Option (List File × Release)
fileclose f fs =
    let p = file_at fs f in
    if int_lt p.ref 1
    then none
    else if int_lt 0 (sub32 p.ref 1)
    then some (set fs f (record p { ref = sub32 p.ref 1 }), nothing)
    else some (set fs f (record p { ref = 0; kind = fd_none }), released p)
