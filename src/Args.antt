-- ===== src/Args.antt =====
-- xv6/syscall.c: how the kernel takes the arguments of a system call from the memory of the process.
-- Addresses and sums of addresses are 32 bits wide; an `int` is its 32 bits, so that it is negative
-- from 2 ^ 31 on. `none` is the answer -1.
pub mod Bounds
mod Tests
use laboratorio_ramiro.Prelude.{
  none, ◌^◌, ◌+◌, some, Option, suc, ◌||◌, zero, if◌then◌else◌, ◌*◌, ltb, ◌-◌, leb, ◌==◌, ℕ, Bool,
  ◌%◌,
}
use laboratorio_ramiro.CString.{Memory}

abbrev pub is_negative : ℕ → Bool
is_negative i = leb (2 ^ 31) i

-- The word at `a`, the lowest byte first.
abbrev pub word_at : Memory → ℕ → ℕ
word_at m a = m a + m (a + 1) * 256 + m (a + 2) * 65536 + m (a + 3) * 16777216

-- `sz` is the size of the process: its addresses are those below.
unfoldable pub fetchint : Memory → ℕ → ℕ → Option ℕ
fetchint m sz addr =
    if leb sz addr || ltb sz ((addr + 4) % 2 ^ 32) then none else some (word_at m addr)

-- The loop of `fetchstr` from `s` on, with `n` bytes to go: the address of the NUL.
unfoldable pub find_nul : Memory → ℕ → ℕ → Option ℕ
find_nul m s zero = none
find_nul m s (suc n) = let rest = find_nul m (s + 1) n in if m s == 0 then some s else rest

-- The pointer and the length.
unfoldable pub fetchstr : Memory → ℕ → ℕ → Option (ℕ × ℕ)
fetchstr m sz addr =
    if leb sz addr
    then none
    else elim (find_nul m addr (sz - addr)) [ none ↦ none | some s ↦ some (addr, s - addr) ]

-- The address of argument `n`; `esp` is the saved stack pointer.
abbrev pub arg_addr : ℕ → ℕ → ℕ
arg_addr esp n = (esp + 4 + 4 * n) % 2 ^ 32

unfoldable pub argint : Memory → ℕ → ℕ → ℕ → Option ℕ
argint m sz esp n = fetchint m sz (arg_addr esp n)

unfoldable pub argptr : Memory → ℕ → ℕ → ℕ → ℕ → Option ℕ
argptr m sz esp n size = elim (argint m sz esp n) [
  | none ↦ none
  | some i ↦ if is_negative size || leb sz i || ltb sz ((i + size) % 2 ^ 32) then none else some i
]

unfoldable pub argstr : Memory → ℕ → ℕ → ℕ → Option (ℕ × ℕ)
argstr m sz esp n = elim (argint m sz esp n) [ none ↦ none | some addr ↦ fetchstr m sz addr ]
