-- ===== src/Sysfile/Owners.antt =====
-- `dup` and `close`: the descriptors that they make and free, and the counts of the files.
use laboratorio_ramiro.CString.{Memory}
use laboratorio_ramiro.Files.{FileCall, Ftable}
use laboratorio_ramiro.Proc.Scan.{first-IsFirst, IsFirst}
use laboratorio_ramiro.Sysfile.{
  first, fdalloc, sys_close, sys_dup, argfd, fails, is_closed, nofile, Ofile, returns, set_fd, Sys,
}
use laboratorio_ramiro.Kalloc.{kernbase}
use laboratorio_ramiro.Args.Bounds.{IsArg}
use laboratorio_ramiro.Files.References.{Closing, fileclose-Closing}
use laboratorio_ramiro.Proc.Scan.{first-none}
use laboratorio_ramiro.Prelude.{
  ◌-◌, subst, ◌<◌, ◌≤◌, false, refl, true, ap, Option-cases, inr, none, some, inl, arith, Option,
  if◌then◌else◌, ◌==◌, ◌≡◌, List, ℕ,
}
use laboratorio_ramiro.Sysfile.Counts.{
  set_fd_counted, refers, open-held, filedup-counts, argfd-IsOpen, argfd-IsRefused, IsRefused,
  AreCounted, IsOpen,
}

-- What `dup` comes to. It fails where its argument is no open descriptor, or where all descriptors are open; and
-- else the lowest free descriptor is to the file of the argument.
pub data Dups (m : Memory) (sz esp : ℕ) (ofile : Ofile) (others : List ℕ)
    : Sys (ℕ × Ofile × Ftable) → Type 0 where
  refuses : IsRefused m sz esp 0 ofile → Dups m sz esp ofile others fails
  is_full :
      (old f : ℕ)
      → IsArg m sz esp 0 old
      → IsOpen ofile old f
      → ((k : ℕ) → k < nofile → is_closed (ofile k) ≡ false)
      → Dups m sz esp ofile others fails
  dup :
      {fd : ℕ} {t' : Ftable} (old f : ℕ)
      → IsArg m sz esp 0 old
      → IsOpen ofile old f
      → IsFirst (λ k. is_closed (ofile k)) 0 nofile fd
      → AreCounted (set_fd ofile fd (some f)) others t'
      → Dups m sz esp ofile others (returns (fd, set_fd ofile fd (some f), t'))

closed-none : (o : Option ℕ) → is_closed o ≡ true → o ≡ none
closed-none none e = refl
closed-none (some f) e = absurd (ground arith)

dup-Dups :
    (m : Memory) (sz esp : ℕ) (ofile : Ofile) (others : List ℕ) (t : Ftable)
    (w : Sys (ℕ × Ofile × Ftable))
    → sz ≤ kernbase
    → AreCounted ofile others t
    → sys_dup m sz esp ofile t ≡ w
    → Dups m sz esp ofile others w
unfolding sys_dup fdalloc AreCounted
dup-Dups m sz esp ofile others t w small v e = elim (Option-cases (argfd m sz esp 0 ofile)) [
  | inl bad ↦
      let val : fails ≡ w = ground arith in
      rw (← val) (refuses (argfd-IsRefused m sz esp 0 ofile small bad))
  | inr ((old, f), arg) ↦
      let test = λ (k : ℕ). is_closed (ofile k) in
      let (at, h) = argfd-IsOpen m sz esp 0 ofile small arg in
      elim (Option-cases (first test 0 nofile)) [
        | inl full ↦
            let val : fails ≡ w = ground arith in
            rw (← val) (is_full old f at h (λ k l. first-none test 0 nofile k full (omega arith) l))
        | inr (fd, free) ↦
            let low = first-IsFirst test 0 nofile free in
            let (t1, counted, refs) = filedup-counts f t (open-held ofile others t old f h v) in
            let val : returns (fd, set_fd ofile fd (some f), t1) ≡ w = ground arith in
            let empty : ofile fd ≡ none = closed-none (ofile fd) low.passes in
            rw (← val) (
              dup old f at h low λ g.
                let none_there : refers (ofile fd) g ≡ 0 = ap (λ o. refers o g) empty in
                omega
                  (arith, refs g, v g, none_there, set_fd_counted ofile fd (some f) g low.below))
      ]
]

-- For a process of a size up to `KERNBASE`, in a table of files where each count is that of the references held,
-- its descriptors among them, `dup` does not panic. It fails only where the first argument does not lie in
-- the process or is no open descriptor, or where no descriptor is free; else it answers the lowest
-- one that is free, and makes it one to the file of the descriptor that is its first argument, and
-- the counts are right again.
pub sys_dup-Dups :
    (m : Memory) (sz esp : ℕ) (ofile : Ofile) (others : List ℕ) (t : Ftable)
    → sz ≤ kernbase
    → AreCounted ofile others t
    → Dups m sz esp ofile others (sys_dup m sz esp ofile t)
sys_dup-Dups m sz esp ofile others t small v = dup-Dups m sz esp ofile others t _ small v refl

-- What `close` comes to. It fails where its argument is no open descriptor; and else that descriptor is free, and
-- the file is ended if no reference to it is left.
pub data Closes (m : Memory) (sz esp : ℕ) (ofile : Ofile) (others : List ℕ) (t : Ftable)
    : Sys (Ofile × Ftable × List FileCall) → Type 0 where
  refuses : IsRefused m sz esp 0 ofile → Closes m sz esp ofile others t fails
  close :
      {t' : Ftable} {calls : List FileCall} (fd f : ℕ)
      → IsArg m sz esp 0 fd
      → IsOpen ofile fd f
      → AreCounted (set_fd ofile fd none) others t'
      → Closing (t f) (t' f).ref calls
      → Closes m sz esp ofile others t (returns (set_fd ofile fd none, t', calls))

close-Closes :
    (m : Memory) (sz esp : ℕ) (ofile : Ofile) (others : List ℕ) (t : Ftable)
    (w : Sys (Ofile × Ftable × List FileCall))
    → sz ≤ kernbase
    → AreCounted ofile others t
    → sys_close m sz esp ofile t ≡ w
    → Closes m sz esp ofile others t w
unfolding sys_close AreCounted
close-Closes m sz esp ofile others t w small v e = elim (Option-cases (argfd m sz esp 0 ofile)) [
  | inl bad ↦
      let val : fails ≡ w = ground arith in
      rw (← val) (refuses (argfd-IsRefused m sz esp 0 ofile small bad))
  | inr ((fd, f), arg) ↦
      let (at, h) = argfd-IsOpen m sz esp 0 ofile small arg in
      let (t1, calls, done, refs, closing) =
        fileclose-Closing f t (open-held ofile others t fd f h v) in
      let left : (t f).ref - 1 ≡ (t1 f).ref = ground (arith, refs f) in
      let val : returns (set_fd ofile fd none, t1, calls) ≡ w = ground arith in
      let counts : AreCounted (set_fd ofile fd none) others t1 = λ g.
        let one : refers (ofile fd) g ≡ (if f == g then 1 else 0) = ap (λ o. refers o g) h.file in
        omega (arith, refs g, v g, one, set_fd_counted ofile fd none g h.inside) in
      rw (← val) (close fd f at h counts (subst (λ k. Closing (t f) k calls) left closing))
]

-- For a process of a size up to `KERNBASE`, in a table of files where each count is that of the references
-- held, its descriptors among them, `close` does not panic. It fails only where the first argument does not
-- lie in the process or is no open descriptor; else it frees the descriptor that is its first argument, and
-- the counts are right again. If no reference to the file is left, and only then, it closes the file's
-- pipe, or puts its inode within a transaction.
pub sys_close-Closes :
    (m : Memory) (sz esp : ℕ) (ofile : Ofile) (others : List ℕ) (t : Ftable)
    → sz ≤ kernbase
    → AreCounted ofile others t
    → Closes m sz esp ofile others t (sys_close m sz esp ofile t)
sys_close-Closes m sz esp ofile others t small v =
    close-Closes m sz esp ofile others t _ small v refl
