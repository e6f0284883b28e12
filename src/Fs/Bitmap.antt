-- ===== src/Fs/Bitmap.antt =====
-- The block map: what marking, clearing and searching it do.
use laboratorio_ramiro.Fs.Bits.{has_bit-set_bit, has_bit-clear_bit}
use laboratorio_ramiro.Prelude.{
  ℕ, ◌∙◌, ap, ap₂, ◌%◌, true, inr, zero, arith, false, some, suc, not, ◌||◌, ◌≡◌, none, inl,
  Bool-cases, ◌&&◌, ◌/◌, ◌<◌, sym, ◌==◌, ◌+◌, ◌≤◌,
}
use laboratorio_ramiro.CString.{Memory}
use laboratorio_ramiro.Fs.{Super, has_bit, find_bit, is_set, unmark, mark}

-- Every byte is one.
abbrev pub AreBytes : Memory → Type 0
AreBytes m = (i : ℕ) → m i < 256

pub mark-AreBytes : (m : Memory) (i : ℕ) → AreBytes m → AreBytes (mark m i)
unfolding mark
mark-AreBytes m i h j = elim (Bool-cases (j == i / 8)) [
  | inl here ↦
      rw here (has_bit-set_bit (m (i / 8)) (i % 8) 0 (h (i / 8)) (omega arith) (omega arith)).1
  | inr there ↦ rw there (h j)
]

pub unmark-AreBytes : (m : Memory) (i : ℕ) → AreBytes m → AreBytes (unmark m i)
unfolding unmark
unmark-AreBytes m i h j = elim (Bool-cases (j == i / 8)) [
  | inl here ↦
      rw here (has_bit-clear_bit (m (i / 8)) (i % 8) 0 (h (i / 8)) (omega arith) (omega arith)).1
  | inr there ↦ rw there (h j)
]

pub is_set-mark : (m : Memory) (i j : ℕ) → AreBytes m → is_set (mark m i) j ≡ (j == i || is_set m j)
unfolding is_set mark
is_set-mark m i j h = elim (Bool-cases (j / 8 == i / 8)) [
  | inl here ↦
      let byte : j / 8 ≡ i / 8 = ground arith in
      let bit : (j % 8 == i % 8) ≡ (j == i) = ground arith in
      let table =
        (has_bit-set_bit (m (i / 8)) (i % 8) (j % 8) (h (i / 8)) (omega arith) (omega arith)).0 in
      rw here (table ∙ ap₂ (λ a b. a || b) bit (ap (λ k. has_bit (m k) (j % 8)) (sym byte)))
  | inr there ↦ let other : (j == i) ≡ false = ground arith in rw (there, other)
]

pub is_set-unmark :
    (m : Memory) (i j : ℕ) → AreBytes m → is_set (unmark m i) j ≡ (not (j == i) && is_set m j)
unfolding is_set unmark
is_set-unmark m i j h = elim (Bool-cases (j / 8 == i / 8)) [
  | inl here ↦
      let byte : j / 8 ≡ i / 8 = ground arith in
      let bit : (j % 8 == i % 8) ≡ (j == i) = ground arith in
      let table =
        (has_bit-clear_bit (m (i / 8)) (i % 8) (j % 8) (h (i / 8)) (omega arith) (omega arith)).0 in
      rw here (table ∙ ap₂ (λ a b. not a && b) bit (ap (λ k. has_bit (m k) (j % 8)) (sym byte)))
  | inr there ↦ let other : (j == i) ≡ false = ground arith in rw (there, other)
]

pub find_bit-some :
    (sb : Super) (m : Memory) (b n bi : ℕ) {k : ℕ}
    → find_bit sb m b n bi ≡ some k
    → (bi ≤ k) × (k < bi + n) × (b + k < sb.size) × (is_set m k ≡ false)
unfolding find_bit
find_bit-some sb m b zero bi e = absurd (cc)
find_bit-some sb m b (suc n) bi {k} e = elim (Bool-cases (is_set m bi)) [
  | inl used ↦
      let rest : find_bit sb m b n (bi + 1) ≡ some k = ground arith in
      let (lo, hi, inside, free) = find_bit-some sb m b n (bi + 1) rest in
      (omega arith, omega arith, inside, free)
  | inr free ↦
      let at : k ≡ bi = ground arith in
      let inside : b + bi < sb.size = ground arith in rw at (omega arith, omega arith, inside, free)
]

pub find_bit-none :
    (sb : Super) (m : Memory) (b n bi k : ℕ)
    → find_bit sb m b n bi ≡ none
    → bi ≤ k
    → k < bi + n
    → b + k < sb.size
    → is_set m k ≡ true
unfolding find_bit
find_bit-none sb m b zero bi k e lo hi inside = absurd (omega arith)
find_bit-none sb m b (suc n) bi k e lo hi inside = elim (Bool-cases (is_set m bi)) [
  | inl used ↦ elim (Bool-cases (k == bi)) [
    | inl here ↦ let at : k ≡ bi = ground arith in rw at used
    | inr there ↦
        find_bit-none sb m b n (bi + 1) k (ground arith) (ground arith) (omega arith) inside
  ]
  | inr free ↦ absurd (ground arith)
]
