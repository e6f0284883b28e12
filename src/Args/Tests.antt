-- ===== src/Args/Tests.antt =====
-- Arguments at concrete inputs, and their theorems there.
use laboratorio_ramiro.Prelude.{
  ◌+◌, none, refl, ◌^◌, arith, ◌↔◌, ◌≤◌, some, ◌≡◌, ◌==◌, ◌<◌, if◌then◌else◌,
}
use laboratorio_ramiro.CString.{Memory}
use laboratorio_ramiro.Args.{find_nul, fetchstr, fetchint, argstr, argint, argptr}
use laboratorio_ramiro.Args.Bounds.{argstr-IsArg, IsString, argptr-IsArg, IsArg}

-- The stack pointer is 100: argument 0 is 200, argument 1 is 4000, and the string "ab" is at 200.
memory : Memory
memory a =
    if a == 104
    then 200
    else if a == 108
    then 160
    else if a == 109
    then 15
    else if a == 200
    then 97
    else if a == 201
    then 98
    else 0

argptr_fits : argptr memory 4096 100 0 512 ≡ some 200
unfolding argptr argint fetchint memory
argptr_fits = refl

argptr_beyond : argptr memory 4096 100 1 97 ≡ none
unfolding argptr argint fetchint memory
argptr_beyond = refl

argint_beyond : argint memory 4096 4090 0 ≡ none
unfolding argint fetchint
argint_beyond = refl

argptr-IsArg_example :
    (argptr memory 4096 100 1 96 ≡ some 4000)
    ↔ (IsArg memory 4096 100 1 4000 × (96 < 2 ^ 31) × (4000 < 4096) × (4000 + 96 ≤ 4096))
argptr-IsArg_example = argptr-IsArg memory 4096 100 1 96 4000 (omega arith)

argstr-IsArg_example :
    (argstr memory 4096 100 0 ≡ some (200, 2))
    ↔ (IsArg memory 4096 100 0 200 × IsString memory 4096 200 2)
argstr-IsArg_example = argstr-IsArg memory 4096 100 0 200 2 (omega arith)

argstr_found : argstr memory 4096 100 0 ≡ some (200, 2)
unfolding argstr argint fetchint fetchstr find_nul memory
argstr_found = refl
