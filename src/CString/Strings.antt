-- ===== src/CString/Strings.antt =====
-- What the copies of strings leave in the memory.
use laboratorio_ramiro.CString.{
  Memory, store, pad, safe_copy, safestrcpy, strncpy, strlen, strlen_from,
}
use laboratorio_ramiro.CString.Copy.{within}
use laboratorio_ramiro.Prelude.{
  ◌||◌, ◌&&◌, ◌∙◌, ltb, some, ◌==◌, ◌≢◌, ◌+◌, inl, zero, ℕ, if◌then◌else◌, ◌<◌, Bool-cases, arith,
  suc, ap, ◌-◌, ◌≡◌, refl, ◌⊎◌, inr, ◌≤◌,
}

-- The length of the string at `t`, or `n` if that is less.
pub strnlen : Memory → ℕ → ℕ → ℕ
strnlen m t zero = 0
strnlen m t (suc n) = if m t == 0 then 0 else suc (strnlen m (t + 1) n)

-- Address `s` is none of the `n` from `t` on.
abbrev Outside : ℕ → ℕ → ℕ → Type 0
Outside t n s = (s < t) ⊎ (t + n ≤ s)

strnlen-store :
    (m : Memory) (s v t n : ℕ) → Outside t n s → strnlen (store m s v) t n ≡ strnlen m t n
unfolding strnlen
strnlen-store m s v t zero out = refl
strnlen-store m s v t (suc n) out =
    let rest = strnlen-store m s v (t + 1) n (omega arith) in ground (arith, rest)

pad_lem : (m : Memory) (s n x : ℕ) → pad m s n x ≡ (if within s n x then 0 else m x)
unfolding pad
pad_lem m s zero x = ground arith
pad_lem m s (suc n) x = ground (arith, pad_lem (store m s 0) (s + 1) n x)

-- The two blocks of `n` bytes do not overlap.
abbrev pub Apart : ℕ → ℕ → ℕ → Type 0
Apart s t n = (s + n ≤ t) ⊎ (t + n ≤ s)

-- The byte at `x` of a string copied from `t` to `s`, up to `k` bytes, if it is there.
abbrev pub copied_byte : Memory → ℕ → ℕ → ℕ → ℕ → ℕ → ℕ
copied_byte m s t k x other = if within s k x then m (t + (x - s)) else other

copied-suc :
    (m : Memory) (s t k n x other : ℕ)
    → Apart s t (suc n)
    → k ≤ n
    → copied_byte (store m s (m t)) (s + 1) (t + 1) k x (if x == s then m t else other)
      ≡ copied_byte m s t (suc k) x other
copied-suc m s t k n x other apart small = elim (Bool-cases (within (s + 1) k x)) [
  | inl inside ↦
      let source : t + 1 + (x - (s + 1)) ≡ t + (x - s) = ground arith in
      let safe : t + (x - s) ≢ s = ground arith in rw inside (ground (arith, ap m source))
  | inr outside ↦ elim (Bool-cases (x == s)) [
    | inl now ↦
        let source : t + (x - s) ≡ t = ground arith in rw outside (ground (arith, ap m source))
    | inr other_place ↦ rw outside (ground arith)
  ]
]

strnlen-le : (m : Memory) (t n : ℕ) → strnlen m t n ≤ n
unfolding strnlen
strnlen-le m t zero = omega arith
strnlen-le m t (suc n) = ground (arith, strnlen-le m (t + 1) n)

-- `strncpy` between blocks that do not overlap copies the string at `t` up to `n` bytes, fills what is
-- left of the `n` bytes at `s` with NULs, and changes no other byte.
pub strncpy_lem :
    (m : Memory) (s t n x : ℕ)
    → Apart s t n
    → strncpy m s t n x ≡ copied_byte m s t (strnlen m t n) x (if within s n x then 0 else m x)
unfolding strncpy strnlen
strncpy_lem m s t zero x apart = ground arith
strncpy_lem m s t (suc n) x apart = elim (Bool-cases (m t == 0)) [
  | inl ends ↦ rw ends (pad_lem (store m s (m t)) (s + 1) n x ∙ ground arith)
  | inr on ↦
      let m' : Memory = store m s (m t) in
      let k : ℕ = strnlen m (t + 1) n in
      let around : (if within (s + 1) n x then 0 else m' x)
          ≡ (if x == s then m t else if within s (suc n) x then 0 else m x) =
        ground arith in
      rw on (
        strncpy_lem m' (s + 1) (t + 1) n x (omega arith)
        ∙ ap (λ j. copied_byte m' (s + 1) (t + 1) j x (if within (s + 1) n x then 0 else m' x))
            (strnlen-store m s (m t) (t + 1) n (omega arith))
        ∙ ap (copied_byte m' (s + 1) (t + 1) k x) around
        ∙ copied-suc m s t k n x (if within s (suc n) x then 0 else m x) apart
            (strnlen-le m (t + 1) n))
]

-- What `safestrcpy` puts behind the string: one NUL if the string is cut short, else two.
abbrev pub safe_end : ℕ → ℕ → ℕ → ℕ → ℕ → ℕ
safe_end s k n x other = if x == s + k || ltb k n && x == s + k + 1 then 0 else other

safe_copy_lem :
    (m : Memory) (s t n x : ℕ)
    → Apart s t (suc n)
    → safe_copy m s t n x
      ≡ copied_byte m s t (strnlen m t n) x (safe_end s (strnlen m t n) n x (m x))
unfolding safe_copy strnlen
safe_copy_lem m s t zero x apart = ground arith
safe_copy_lem m s t (suc n) x apart = elim (Bool-cases (m t == 0)) [
  | inl ends ↦ rw ends (ground arith)
  | inr on ↦
      let m' : Memory = store m s (m t) in
      let k : ℕ = strnlen m (t + 1) n in
      let around : safe_end (s + 1) k n x (m' x)
          ≡ (if x == s then m t else safe_end s (suc k) (suc n) x (m x)) =
        ground arith in
      rw on (
        safe_copy_lem m' (s + 1) (t + 1) n x (omega arith)
        ∙ ap (λ j. copied_byte m' (s + 1) (t + 1) j x (safe_end (s + 1) j n x (m' x)))
            (strnlen-store m s (m t) (t + 1) n (omega arith))
        ∙ ap (copied_byte m' (s + 1) (t + 1) k x) around
        ∙ copied-suc m s t k (suc n) x (safe_end s (suc k) (suc n) x (m x)) apart
            (omega (arith, strnlen-le m (t + 1) n)))
]

-- `safestrcpy` of `n + 1` bytes between blocks that do not overlap copies the string at `t` up to `n`
-- bytes and ends it with a NUL, and with a second one if it is shorter; it writes no byte but its
-- `n + 1`, and leaves those behind the NULs as they were.
pub safestrcpy_lem :
    (m : Memory) (s t n x : ℕ)
    → Apart s t (suc n)
    → safestrcpy m s t (suc n) x ≡ (
        if within s (suc n) x
        then copied_byte m s t (strnlen m t n) x (safe_end s (strnlen m t n) n x (m x))
        else m x)
unfolding safestrcpy
safestrcpy_lem m s t n x apart = safe_copy_lem m s t n x apart ∙ ground (arith, strnlen-le m t n)

-- The string at `s` has length `k`: with fuel for the loop, `strlen` answers `k`.
strlen_from-NoNul :
    (f : ℕ) (m : Memory) (s n k : ℕ)
    → n ≤ k
    → k - n < f
    → m (s + k) ≡ 0
    → ((i : ℕ) → n ≤ i → i < k → m (s + i) ≢ 0)
    → strlen_from f m s n ≡ some k
unfolding strlen_from
strlen_from-NoNul zero m s n k le enough ends before = absurd (omega arith)
strlen_from-NoNul (suc f) m s n k le enough ends before = elim (Bool-cases (n == k)) [
  | inl last ↦
      let same : n ≡ k = ground arith in
      let here : m (s + n) ≡ 0 = ap (λ j. m (s + j)) same ∙ ends in ground arith
  | inr more ↦
      let less : n < k = ground arith in
      ground (
        arith,
        before n (omega arith) less,
        strlen_from-NoNul f m s (n + 1) k (omega arith) (omega arith) ends
            (λ i lo hi. before i (omega arith) hi),
      )
]

-- A string whose first NUL is `k` bytes on has the length `k`, whatever fuel above `k` the loop has.
pub strlen_lem :
    (fuel : ℕ) (m : Memory) (s k : ℕ)
    → k < fuel
    → m (s + k) ≡ 0
    → ((i : ℕ) → i < k → m (s + i) ≢ 0)
    → strlen fuel m s ≡ some k
unfolding strlen
strlen_lem fuel m s k enough ends before =
    strlen_from-NoNul fuel m s 0 k (omega arith) (omega arith) ends (λ i lo hi. before i hi)
