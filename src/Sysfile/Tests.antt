-- ===== src/Sysfile/Tests.antt =====
-- `dup` and `close` at concrete inputs, and their theorems there.
use laboratorio_ramiro.CString.{Memory}
use laboratorio_ramiro.Args.{argint, fetchint}
use laboratorio_ramiro.Proc.{first}
use laboratorio_ramiro.Files.{filedup, fd_pipe, fd_none, Ftable}
use laboratorio_ramiro.Sysfile.{
  argint, first, fdalloc, returns, argfd, Ofile, Sys, sys_close, sys_dup,
}
use laboratorio_ramiro.Sysfile.Counts.{AreCounted, descriptors}
use laboratorio_ramiro.Sysfile.Owners.{Closes, Dups, sys_close-Closes, sys_dup-Dups}
use laboratorio_ramiro.Prelude.{
  false, none, if◌then◌else◌, [], refl, ◌≡◌, ◌==◌, arith, true, some, ℕ,
}
use laboratorio_ramiro.Args.{fetchint}

-- The argument of the call is 0.
abbrev arguments : Memory
arguments a = 0

-- Descriptor 0 is to the pipe in place 3.
abbrev ofile : Ofile
ofile k = if k == 0 then some 3 else none

abbrev table : Ftable
table i = record {
  type = if i == 3 then fd_pipe else fd_none;
  ref = if i == 3 then 1 else 0;
  readable = true;
  writable = false;
  pipe = 5;
  ip = 0;
  off = 0;
}

table-AreCounted : AreCounted ofile [] table
unfolding AreCounted descriptors
table-AreCounted f = ground arith

sys_dup-Dups_example : Dups arguments 4096 1000 ofile [] (sys_dup arguments 4096 1000 ofile table)
sys_dup-Dups_example =
    sys_dup-Dups arguments 4096 1000 ofile [] table (omega arith) table-AreCounted

sys_close-Closes_example :
    Closes arguments 4096 1000 ofile [] table (sys_close arguments 4096 1000 ofile table)
sys_close-Closes_example =
    sys_close-Closes arguments 4096 1000 ofile [] table (omega arith) table-AreCounted

abbrev answer : Sys (ℕ × Ofile × Ftable) → ℕ
answer (returns (fd, _, _)) = fd
answer _ = 99

-- The new descriptor is 1.
duplicated : answer (sys_dup arguments 4096 1000 ofile table) ≡ 1
unfolding sys_dup argfd fdalloc first argint fetchint filedup
duplicated = refl
