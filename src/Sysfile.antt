-- ===== src/Sysfile.antt =====
-- xv6/sysfile.c: the descriptors of a process, `argfd`, `fdalloc`, `sys_dup` and `sys_close`. A descriptor's
-- file is its place in the table of xv6/file.c.
pub mod Counts
pub mod Owners
mod Tests
use laboratorio_ramiro.Args.{argint, is_negative}
use laboratorio_ramiro.CString.{Memory}
use laboratorio_ramiro.Files.{FileCall, Ftable, fileclose, filedup}
use laboratorio_ramiro.Proc.{first}
use laboratorio_ramiro.Prelude.{
  ◌==◌, Option, ◌||◌, Bool, none, leb, List, true, if◌then◌else◌, some, false, ℕ,
}

abbrev pub nofile : ℕ
nofile = 16

-- `myproc()->ofile`: the places below `nofile`.
abbrev pub Ofile : Type 0
Ofile = ℕ → Option ℕ

abbrev pub set_fd : Ofile → ℕ → Option ℕ → Ofile
set_fd ofile fd o = λ k. if k == fd then o else ofile k

abbrev pub is_closed : Option ℕ → Bool
is_closed none = true
is_closed (some f) = false

pub data Sys {ℓ} (A : Type ℓ) : Type ℓ where
  panics : Sys A
  fails : Sys A
  returns : A → Sys A

-- The arguments of a call are in the memory of a process of size `sz`, at its stack pointer `esp`.
unfoldable pub argfd : Memory → ℕ → ℕ → ℕ → Ofile → Option (ℕ × ℕ)
argfd m sz esp n ofile = elim (argint m sz esp n) [
  | none ↦ none
  | some fd ↦ elim (is_negative fd || leb nofile fd) [
    | true ↦ none
    | false ↦ elim (ofile fd) [ none ↦ none | some f ↦ some (fd, f) ]
  ]
]

unfoldable pub fdalloc : ℕ → Ofile → Option (ℕ × Ofile)
unfolding first
fdalloc f ofile = elim (first (λ k. is_closed (ofile k)) 0 nofile) [
  | none ↦ none
  | some fd ↦ some (fd, set_fd ofile fd (some f))
]

unfoldable pub sys_dup : Memory → ℕ → ℕ → Ofile → Ftable → Sys (ℕ × Ofile × Ftable)
unfolding argfd fdalloc filedup
sys_dup m sz esp ofile t = elim (argfd m sz esp 0 ofile) [
  | none ↦ fails
  | some (old, f) ↦ elim (fdalloc f ofile) [
    | none ↦ fails
    | some (fd, ofile1) ↦ elim (filedup f t) [ none ↦ panics | some t1 ↦ returns (fd, ofile1, t1) ]
  ]
]

unfoldable pub sys_close : Memory → ℕ → ℕ → Ofile → Ftable → Sys (Ofile × Ftable × List FileCall)
unfolding argfd fileclose
sys_close m sz esp ofile t = elim (argfd m sz esp 0 ofile) [
  | none ↦ fails
  | some (fd, f) ↦ elim (fileclose f t) [
    | none ↦ panics
    | some (t1, calls) ↦ returns (set_fd ofile fd none, t1, calls)
  ]
]
