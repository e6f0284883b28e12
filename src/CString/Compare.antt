-- ===== src/CString/Compare.antt =====
-- Where `memcmp` and `strncmp` stop.
use laboratorio_ramiro.CString.{Memory, memcmp, strncmp}
use laboratorio_ramiro.Prelude.{
  Bool-cases, ◌≡◌, inl, some, ◌⊎◌, ◌==◌, ap, ◌-◌, ◌∙◌, suc, inr, ltb, ◌<◌, ◌+◌, zero, Option, ◌≢◌,
  ◌&&◌, none, ℕ, arith,
}

-- The first `k` bytes from `a` and from `b` on agree.
abbrev pub Agree : Memory → ℕ → ℕ → ℕ → Type 0
Agree m a b k = (i : ℕ) → i < k → m (a + i) ≡ m (b + i)

-- No difference among `n` bytes, or the bytes of the first one.
abbrev pub IsFirstDifference : Memory → ℕ → ℕ → ℕ → Option (ℕ × ℕ) → Type 0
IsFirstDifference m a b n none = Agree m a b n
IsFirstDifference m a b n (some (u, v)) =
    (k : ℕ) × (k < n) × (u ≡ m (a + k)) × (v ≡ m (b + k)) × (u ≢ v) × Agree m a b k

Agree-suc : (m : Memory) (a b k : ℕ) → m a ≡ m b → Agree m (a + 1) (b + 1) k → Agree m a b (suc k)
Agree-suc m a b k e h i l = elim (Bool-cases (i == 0)) [
  | inl first ↦
      let left : a + i ≡ a = ground arith in
      let right : b + i ≡ b = ground arith in rw (left, right) e
  | inr later ↦
      let left : a + i ≡ a + 1 + (i - 1) = ground arith in
      let right : b + i ≡ b + 1 + (i - 1) = ground arith in
      rw (left, right) (h (i - 1) (ground arith))
]

IsFirstDifference-suc :
    (m : Memory) (a b n : ℕ) (r : Option (ℕ × ℕ))
    → m a ≡ m b
    → IsFirstDifference m (a + 1) (b + 1) n r
    → IsFirstDifference m a b (suc n) r
IsFirstDifference-suc m a b n none e h = Agree-suc m a b n e h
IsFirstDifference-suc m a b n (some (u, v)) e (k, below, left, right, differ, before) = (
  suc k,
  omega arith,
  left ∙ ap m (omega arith),
  right ∙ ap m (omega arith),
  differ,
  Agree-suc m a b k e before,
)

-- `memcmp` answers 0 exactly for two equal blocks, and else the difference of the first two bytes that
-- differ.
pub memcmp_lem : (m : Memory) (a b n : ℕ) → IsFirstDifference m a b n (memcmp m a b n)
unfolding memcmp
memcmp_lem m a b zero = λ i l. absurd (omega arith)
memcmp_lem m a b (suc n) = elim (Bool-cases (m a == m b)) [
  | inl same ↦ rw same (
      IsFirstDifference-suc m a b n (memcmp m (a + 1) (b + 1) n) (ground arith)
        (memcmp_lem m (a + 1) (b + 1) n))
  | inr other ↦ rw other (
    0,
    omega arith,
    ap m (omega arith),
    ap m (omega arith),
    ground arith,
    λ i l. absurd (omega arith),
  )
]

-- None of the first `k` bytes from `p` on is the NUL.
abbrev pub NoNul : Memory → ℕ → ℕ → Type 0
NoNul m p k = (i : ℕ) → i < k → m (p + i) ≢ 0

abbrev pub IsStringDifference : Memory → ℕ → ℕ → ℕ → Option (ℕ × ℕ) → Type 0
IsStringDifference m p q n none = Agree m p q n × NoNul m p n
IsStringDifference m p q n (some (u, v)) =
    (k : ℕ) × (k < n)
    × (u ≡ m (p + k))
    × (v ≡ m (q + k))
    × ((u ≡ 0) ⊎ (u ≢ v))
    × Agree m p q k
    × NoNul m p k

pub NoNul-suc : (m : Memory) (p k : ℕ) → m p ≢ 0 → NoNul m (p + 1) k → NoNul m p (suc k)
NoNul-suc m p k e h i l = elim (Bool-cases (i == 0)) [
  | inl first ↦ let at : p + i ≡ p = ground arith in rw at e
  | inr later ↦ let at : p + i ≡ p + 1 + (i - 1) = ground arith in rw at (h (i - 1) (ground arith))
]

IsStringDifference-suc :
    (m : Memory) (p q n : ℕ) (r : Option (ℕ × ℕ))
    → m p ≡ m q
    → m p ≢ 0
    → IsStringDifference m (p + 1) (q + 1) n r
    → IsStringDifference m p q (suc n) r
IsStringDifference-suc m p q n none e nz (agree, no_nul) =
    (Agree-suc m p q n e agree, NoNul-suc m p n nz no_nul)
IsStringDifference-suc m p q n (some (u, v)) e nz (k, below, left, right, stops, before, no_nul) = (
  suc k,
  omega arith,
  left ∙ ap m (omega arith),
  right ∙ ap m (omega arith),
  stops,
  Agree-suc m p q k e before,
  NoNul-suc m p k nz no_nul,
)

-- `strncmp` answers the difference of the two bytes at the first place below `n` where the first string
-- ends or the strings differ, and 0 if there is none.
pub strncmp_lem : (m : Memory) (p q n : ℕ) → IsStringDifference m p q n (strncmp m p q n)
unfolding strncmp
strncmp_lem m p q zero = ((λ i l. absurd (omega arith)), λ i l. absurd (omega arith))
strncmp_lem m p q (suc n) = elim (Bool-cases (ltb 0 (m p) && m p == m q)) [
  | inl on ↦ rw on (
      IsStringDifference-suc m p q n (strncmp m (p + 1) (q + 1) n) (ground arith) (ground arith)
        (strncmp_lem m (p + 1) (q + 1) n))
  | inr off ↦ rw off (
    0,
    omega arith,
    ap m (omega arith),
    ap m (omega arith),
    ground arith,
    (λ i l. absurd (omega arith)),
    λ i l. absurd (omega arith),
  )
]
