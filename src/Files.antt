-- ===== src/Files.antt =====
-- xv6/file.c: the table of open files and their reference counts. A pointer to a `struct file` is its place
-- in the table; a pipe and an inode are numbers. A call is one step, under `ftable.lock`; what `fileclose`
-- does after it has released the lock is a list of calls.
pub mod References
mod Tests
use laboratorio_ramiro.Proc.{first}
use laboratorio_ramiro.Prelude.{
  ◌+◌, ◌∷◌, ◌-◌, [], none, List, some, Bool, Option, ltb, if◌then◌else◌, ◌==◌, ℕ,
}

abbrev pub nfile : ℕ
nfile = 100

pub data FdType : Type 0 where
  fd_none fd_pipe fd_inode : FdType

pub record File : Type 0 where
  pub type : FdType
  pub ref : ℕ
  pub readable : Bool
  pub writable : Bool
  pub pipe : ℕ
  pub ip : ℕ
  pub off : ℕ

-- `ftable.file`: the places below `nfile`.
abbrev pub Ftable : Type 0
Ftable = ℕ → File

abbrev pub put_file : Ftable → ℕ → File → Ftable
put_file t i f = λ j. if j == i then f else t j

-- Calls of other parts.
pub data FileCall : Type 0 where
  pipeclose : ℕ → Bool → FileCall
  begin_op end_op : FileCall
  iput : ℕ → FileCall

unfoldable pub filealloc_at : Option ℕ → Ftable → Option ℕ × Ftable
filealloc_at none t = (none, t)
filealloc_at (some i) t = (some i, put_file t i (record (t i) { ref = 1 }))

-- The first place that is free, or `none`.
unfoldable pub filealloc : Ftable → Option ℕ × Ftable
unfolding filealloc_at first
filealloc t = filealloc_at (first (λ i. (t i).ref == 0) 0 nfile) t

-- Here and in `fileclose` `none` is the panic.
unfoldable pub filedup : ℕ → Ftable → Option Ftable
filedup i t =
    if ltb (t i).ref 1 then none else some (put_file t i (record (t i) { ref = (t i).ref + 1 }))

-- What becomes of the file that was open there.
unfoldable pub close_calls : File → FdType → List FileCall
close_calls f fd_none = []
close_calls f fd_pipe = pipeclose f.pipe f.writable ∷ []
close_calls f fd_inode = begin_op ∷ iput f.ip ∷ end_op ∷ []

unfoldable pub fileclose : ℕ → Ftable → Option (Ftable × List FileCall)
unfolding close_calls
fileclose i t =
    if ltb (t i).ref 1
    then none
    else if ltb 0 ((t i).ref - 1)
    then some (put_file t i (record (t i) { ref = (t i).ref - 1 }), [])
    else some
        (put_file t i (record (t i) { ref = 0; type = fd_none }), close_calls (t i) (t i).type)
