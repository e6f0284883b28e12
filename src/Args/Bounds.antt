-- ===== src/Args/Bounds.antt =====
-- The arguments that the kernel accepts lie in the memory of the process.
use laboratorio_ramiro.Prelude.{
  ◌-◌, ◌==◌, inl, refl, Option-cases, zero, inr, Bool-cases, ◌^◌, ◌+◌, some, ◌<◌, suc, ◌↔◌, ◌∙◌,
  ◌≢◌, ap, ◌≡◌, arith, ℕ, ◌≤◌,
}
use laboratorio_ramiro.CString.{Memory}
use laboratorio_ramiro.Args.{
  word_at, fetchint, arg_addr, argstr, fetchstr, find_nul, argptr, argint,
}
use laboratorio_ramiro.CString.Compare.{NoNul-suc, NoNul}
use laboratorio_ramiro.Kalloc.{kernbase}

-- Argument `n` lies in the process, and is `i`.
abbrev pub IsArg : Memory → ℕ → ℕ → ℕ → ℕ → Type 0
IsArg m sz esp n i = (arg_addr esp n + 4 ≤ sz) × (i ≡ word_at m (arg_addr esp n))

-- A string of length `k` at `p`, with its NUL, lies in the process.
pub IsString : Memory → ℕ → ℕ → ℕ → Type 0
IsString m sz p k = (p + k < sz) × (m (p + k) ≡ 0) × NoNul m p k

pub argint-IsArg :
    (m : Memory) (sz esp n i : ℕ)
    → sz ≤ kernbase
    → (argint m sz esp n ≡ some i) ↔ IsArg m sz esp n i
unfolding argint fetchint
argint-IsArg m sz esp n i small = ground arith

-- For a process of a size up to `KERNBASE`, `argptr` with a size of 32 bits answers the pointer `p` exactly if
-- the argument lies in the process and is `p`, the size is not negative, and the whole block of that
-- size at `p` lies in the process, its first address too if the block is empty.
pub argptr-IsArg :
    (m : Memory) (sz esp n size p : ℕ)
    → sz ≤ kernbase
    → (argptr m sz esp n size ≡ some p)
      ↔ (IsArg m sz esp n p × (size < 2 ^ 31) × (p < sz) × (p + size ≤ sz))
unfolding argptr argint fetchint
argptr-IsArg m sz esp n size p small = ground arith

find_nul-before :
    (m : Memory) (s n a : ℕ)
    → find_nul m s n ≡ some a
    → (s ≤ a) × (a < s + n) × (m a ≡ 0) × NoNul m s (a - s)
unfolding find_nul
find_nul-before m s zero a e = absurd (cc)
find_nul-before m s (suc n) a e = elim (Bool-cases (m s == 0)) [
  | inl here ↦
      let at : a ≡ s = ground arith in
      rw at (omega arith, omega arith, ground arith, λ i l. absurd (omega arith))
  | inr on ↦
      let (above, below, nul, before) = find_nul-before m (s + 1) n a (ground arith) in
      let far : a - s ≡ suc (a - (s + 1)) = omega arith in
      (omega arith, omega arith, nul, rw far (NoNul-suc m s (a - (s + 1)) (ground arith) before))
]

find_nul-found :
    (m : Memory) (s n k : ℕ) → k < n → m (s + k) ≡ 0 → NoNul m s k → find_nul m s n ≡ some (s + k)
unfolding find_nul
find_nul-found m s zero k l nul before = absurd (omega arith)
find_nul-found m s (suc n) zero l nul before =
    let at : m s ≡ 0 = ap m (omega arith) ∙ nul in ground arith
find_nul-found m s (suc n) (suc k) l nul before =
    let on : m s ≢ 0 = λ e. before 0 (omega arith) (ap m (omega arith) ∙ e) in
    let rest =
      find_nul-found m (s + 1) n k (omega arith) (ap m (omega arith) ∙ nul)
        (λ i l' e. before (suc i) (omega arith) (ap m (omega arith) ∙ e)) in
    ground (arith, on, rest)

fetchstr-IsString :
    (m : Memory) (sz addr p k : ℕ)
    → (fetchstr m sz addr ≡ some (p, k)) ↔ ((p ≡ addr) × IsString m sz p k)
unfolding fetchstr IsString
fetchstr-IsString m sz addr p k = (
  (λ e. elim (Option-cases (find_nul m addr (sz - addr))) [
    | inl missing ↦ absurd (ground arith)
    | inr (a, found) ↦
        let (above, below, nul, before) = find_nul-before m addr (sz - addr) a found in
        let at : p ≡ addr = ground arith in
        let len : k ≡ a - addr = ground arith in
        let last : addr + (a - addr) ≡ a = omega arith in
        rw (at, len) (refl, (omega arith, ap m last ∙ nul, before))
  ]),
  λ (at, (inside, nul, before)).
      let found = find_nul-found m p (sz - p) k (omega arith) nul before in ground (arith, found),
)

-- For a process of a size up to `KERNBASE`, `argstr` answers the pointer `p` and the length `k` exactly if the
-- argument lies in the process and is `p`, and a string of length `k` at `p` lies in the process, with its
-- NUL.
pub argstr-IsArg :
    (m : Memory) (sz esp n p k : ℕ)
    → sz ≤ kernbase
    → (argstr m sz esp n ≡ some (p, k)) ↔ (IsArg m sz esp n p × IsString m sz p k)
unfolding argstr
argstr-IsArg m sz esp n p k small = (
  (λ e. elim (Option-cases (argint m sz esp n)) [
    | inl missing ↦ absurd (ground arith)
    | inr (a, given) ↦
        let arg = (argint-IsArg m sz esp n a small).0 given in
        let fetched : fetchstr m sz a ≡ some (p, k) = ground arith in
        let (at, string) = (fetchstr-IsString m sz a p k).0 fetched in (rw at arg, string)
  ]),
  λ (arg, string).
      let given = (argint-IsArg m sz esp n p small).1 arg in
      let fetched = (fetchstr-IsString m sz p p k).1 (refl, string) in
      ground (arith, given, fetched),
)
