-- ===== src/FileTable/Defs.antt =====
-- file.c: filealloc, filedup and fileclose on ftable. A `struct file *` is an index of the table; a pipe
-- and an inode are their numbers.
use graduation_prj.Base.{
  ℕ, zero, suc, ◌+◌, ◌-◌, Bool, Option, none, some, update, ltb, ◌==◌, if◌then◌else◌, Result, ok,
  stop, panic,
}

abbrev pub nfile : ℕ
nfile = 100

pub data FileType : Type 0 where
  fd_none : FileType
  fd_pipe : FileType
  fd_inode : FileType

-- `struct file`, without the offset.
pub record OpenFile : Type 0 where
  pub type : FileType
  pub ref : ℕ
  pub writable : Bool
  pub pipe : ℕ
  pub ip : ℕ

abbrev pub FileTable : Type 0
FileTable = ℕ → OpenFile

-- The loop of `filealloc`, with the rounds left.
unfoldable pub find_unused_file : ℕ → ℕ → FileTable → Option ℕ
find_unused_file zero f t = none
find_unused_file (suc rounds) f t =
    let next = find_unused_file rounds (f + 1) t in if (t f).ref == 0 then some f else next

abbrev pub with_ref : ℕ → ℕ → FileTable → FileTable
with_ref f n t = update t f (record (t f) { ref = n })

abbrev pub take_file : FileTable → Option ℕ → Option (ℕ × FileTable)
take_file t none = none
take_file t (some f) = some (f, with_ref f 1 t)

-- `none` is the result 0.
unfoldable pub filealloc : FileTable → Option (ℕ × FileTable)
filealloc t = take_file t (find_unused_file nfile 0 t)

unfoldable pub filedup : ℕ → FileTable → Result FileTable
filedup f t = if ltb (t f).ref 1 then stop panic else ok (with_ref f ((t f).ref + 1) t)

-- What `fileclose` goes on to do without the lock: nothing, pipeclose, or iput within a transaction.
pub data Release : Type 0 where
  nothing : Release
  close_pipe : ℕ → Bool → Release
  put_inode : ℕ → Release

abbrev pub release_of : FileType → OpenFile → Release
release_of fd_none ff = nothing
release_of fd_pipe ff = close_pipe ff.pipe ff.writable
release_of fd_inode ff = put_inode ff.ip

unfoldable pub fileclose : ℕ → FileTable → Result (Release × FileTable)
fileclose f t =
    if ltb (t f).ref 1
    then stop panic
    else if ltb 0 ((t f).ref - 1)
    then ok (nothing, with_ref f ((t f).ref - 1) t)
    else ok (release_of (t f).type (t f), update t f (record (t f) { ref = 0; type = fd_none }))
