-- ===== src/Sysfile/Counts.antt =====
-- The references to the open files that the descriptors of a process are.
use laboratorio_ramiro.Args.{argint, is_negative}
use laboratorio_ramiro.CString.{Memory}
use laboratorio_ramiro.Files.{Ftable, filedup, put_file}
use laboratorio_ramiro.Kalloc.Owners.{count}
use laboratorio_ramiro.Sysfile.{argfd, nofile, Ofile, set_fd}
use laboratorio_ramiro.Args.{arg_addr, word_at}
use laboratorio_ramiro.Kalloc.{kernbase}
use laboratorio_ramiro.Args.Bounds.{argint-IsArg, IsArg}
use laboratorio_ramiro.Prelude.{
  ◌≤◌, refl, ◌<◌, leb, true, ap, subst, Option-cases, false, ◌∙◌, ◌||◌, inr, zero, ◌+◌, ltb, none,
  some, inl, arith, suc, Option, if◌then◌else◌, ◌==◌, Bool-cases, ◌≡◌, List, ℕ,
}

-- How many of the descriptors below `n` are to file `f`.
abbrev pub refers : Option ℕ → ℕ → ℕ
refers none f = 0
refers (some g) f = if g == f then 1 else 0

unfoldable pub descriptors : Ofile → ℕ → ℕ → ℕ
descriptors ofile zero f = 0
descriptors ofile (suc n) f = refers (ofile n) f + descriptors ofile n f

-- A file's count is the number of the descriptors of this process to it, and of the references that others hold.
unfoldable pub AreCounted : Ofile → List ℕ → Ftable → Type 0
AreCounted ofile others t = (f : ℕ) → (t f).ref ≡ descriptors ofile nofile f + count f others

set_fd-descriptors :
    (ofile : Ofile) (fd : ℕ) (o : Option ℕ) (n f : ℕ)
    → descriptors (set_fd ofile fd o) n f + (if ltb fd n then refers (ofile fd) f else 0)
      ≡ descriptors ofile n f + (if ltb fd n then refers o f else 0)
unfolding descriptors
set_fd-descriptors ofile fd o zero f = ground arith
set_fd-descriptors ofile fd o (suc n) f =
    let before = set_fd-descriptors ofile fd o n f in
    elim (Bool-cases (n == fd)) [
      | inl here ↦
          let at : n ≡ fd = ground arith in
          let new : refers (set_fd ofile fd o n) f ≡ refers o f = rw here in
          let old : refers (ofile n) f ≡ refers (ofile fd) f = ap (λ k. refers (ofile k) f) at in
          let out : ltb fd n ≡ false = ground arith in
          let inside : ltb fd (suc n) ≡ true = ground arith in
          rw (inside, new, old)
            (omega (
              arith,
              subst
                  (λ b.
                    descriptors (set_fd ofile fd o) n f + (if b then refers (ofile fd) f else 0)
                    ≡ descriptors ofile n f + (if b then refers o f else 0))
                  out before,
            ))
      | inr other ↦
          let same : ltb fd (suc n) ≡ ltb fd n = ground arith in
          rw (other, same) (omega (arith, before))
    ]

-- A descriptor below `nofile` is set.
pub set_fd_counted :
    (ofile : Ofile) (fd : ℕ) (o : Option ℕ) (f : ℕ)
    → fd < nofile
    → descriptors (set_fd ofile fd o) nofile f + refers (ofile fd) f
      ≡ descriptors ofile nofile f + refers o f
set_fd_counted ofile fd o f l =
    let inside : ltb fd nofile ≡ true = ground arith in
    subst
      (λ b.
        descriptors (set_fd ofile fd o) nofile f + (if b then refers (ofile fd) f else 0)
        ≡ descriptors ofile nofile f + (if b then refers o f else 0))
      inside (set_fd-descriptors ofile fd o nofile f)

-- What `argfd` answers.
pub record IsOpen (ofile : Ofile) (fd f : ℕ) : Type 0 where
  pub inside : fd < nofile
  pub file : ofile fd ≡ some f

pub argfd-IsOpen :
    (m : Memory) (sz esp n : ℕ) (ofile : Ofile) {fd f : ℕ}
    → sz ≤ kernbase
    → argfd m sz esp n ofile ≡ some (fd, f)
    → IsArg m sz esp n fd × IsOpen ofile fd f
unfolding argfd
argfd-IsOpen m sz esp n ofile {fd} {f} small e = elim (Option-cases (argint m sz esp n)) [
  | inl bad ↦ absurd (ground arith)
  | inr (k, arg) ↦ elim (Bool-cases (is_negative k || leb nofile k)) [
    | inl out ↦ absurd (ground arith)
    | inr inside ↦ elim (Option-cases (ofile k)) [
      | inl closed ↦ absurd (ground arith)
      | inr (g, opened) ↦
          let at : k ≡ fd = ground arith in
          let same : g ≡ f = ground arith in
          rw (← at, ← same)
            (
              (argint-IsArg m sz esp n k small).0 arg,
              record { inside = ground arith; file = opened },
            )
    ]
  ]
]

-- The argument is no descriptor: it does not lie in the process, or it is none of an open file.
pub data IsRefused (m : Memory) (sz esp n : ℕ) (ofile : Ofile) : Type 0 where
  outside : sz < arg_addr esp n + 4 → IsRefused m sz esp n ofile
  too_large : (fd : ℕ) → IsArg m sz esp n fd → nofile ≤ fd → IsRefused m sz esp n ofile
  closed : (fd : ℕ) → IsArg m sz esp n fd → ofile fd ≡ none → IsRefused m sz esp n ofile

pub argfd-IsRefused :
    (m : Memory) (sz esp n : ℕ) (ofile : Ofile)
    → sz ≤ kernbase
    → argfd m sz esp n ofile ≡ none
    → IsRefused m sz esp n ofile
unfolding argfd
argfd-IsRefused m sz esp n ofile small e = elim (Option-cases (argint m sz esp n)) [
  | inl bad ↦ elim (Bool-cases (leb (arg_addr esp n + 4) sz)) [
    | inl inside ↦
        let arg : argint m sz esp n ≡ some (word_at m (arg_addr esp n)) =
          (argint-IsArg m sz esp n _ small).1 (ground arith, refl) in
        absurd (cc (arg, bad))
    | inr out ↦ outside (ground arith)
  ]
  | inr (k, arg) ↦
      let at = (argint-IsArg m sz esp n k small).0 arg in
      elim (Bool-cases (is_negative k || leb nofile k)) [
        | inl out ↦ too_large k at (ground arith)
        | inr inside ↦ elim (Option-cases (ofile k)) [
          | inl none_there ↦ closed k at none_there
          | inr (g, opened) ↦ absurd (ground arith)
        ]
      ]
]

pub open-held :
    (ofile : Ofile) (others : List ℕ) (t : Ftable) (fd f : ℕ)
    → IsOpen ofile fd f
    → AreCounted ofile others t
    → 0 < (t f).ref
unfolding AreCounted
open-held ofile others t fd f h v =
    let moved = set_fd_counted ofile fd none f h.inside in
    let one : refers (ofile fd) f ≡ 1 = ap (λ o. refers o f) h.file ∙ ground arith in
    omega (arith, v f, moved, one)

pub filedup-counts :
    (f : ℕ) (t : Ftable)
    → 0 < (t f).ref
    → (t' : Ftable) × (filedup f t ≡ some t')
      × ((g : ℕ) → (t' g).ref ≡ (t g).ref + (if f == g then 1 else 0))
unfolding filedup
filedup-counts f t l =
    (put_file t f (record (t f) { ref = (t f).ref + 1 }), ground arith, λ g. ground arith)
