-- ===== src/Fs/Bits.antt =====
-- The bits of a byte, by a check of every byte.
use laboratorio_ramiro.Prelude.{
  if◌then◌else◌, inl, Bool-cases, inr, and_true, ltb→lt, ◌||◌, ◌<◌, ◌≡◌, suc, true, ◌&&◌, Bool,
  false, refl, ltb, ℕ, ◌==◌, not, arith, zero,
}
use laboratorio_ramiro.Fs.{clear_bit, set_bit, has_bit}

-- `p` holds from 0 up to `n`.
passes : (ℕ → Bool) → ℕ → Bool
passes p zero = true
passes p (suc n) = let before = passes p n in if p n then before else false

passes-at : (p : ℕ → Bool) (n k : ℕ) → k < n → passes p n ≡ true → p k ≡ true
unfolding passes
passes-at p zero k l checked = absurd (omega arith)
passes-at p (suc n) k l checked = elim (Bool-cases (k == n)) [
  | inl last ↦ let here : k ≡ n = ground arith in rw here (ground arith)
  | inr lower ↦ passes-at p n k (ground arith) (ground arith)
]

abbrev same : Bool → Bool → Bool
same true b = b
same false b = not b

same-eq : (a b : Bool) → same a b ≡ true → a ≡ b
same-eq a b h = ground arith

-- What setting and clearing bit `k` of byte `x` does to bit `j`.
abbrev set_table : ℕ → ℕ → ℕ → Bool
set_table x k j = same (has_bit (set_bit x k) j) (j == k || has_bit x j) && ltb (set_bit x k) 256

abbrev clear_table : ℕ → ℕ → ℕ → Bool
clear_table x k j =
    same (has_bit (clear_bit x k) j) (not (j == k) && has_bit x j) && ltb (clear_bit x k) 256

table : (ℕ → ℕ → ℕ → Bool) → Bool
table t = passes (λ x. passes (λ k. passes (t x k) 8) 8) 256

table_sound :
    (t : ℕ → ℕ → ℕ → Bool) (x k j : ℕ) → table t ≡ true → x < 256 → k < 8 → j < 8 → t x k j ≡ true
unfolding table
table_sound t x k j h hx hk hj =
    let row = passes-at (λ y. passes (λ i. passes (t y i) 8) 8) 256 x hx h in
    passes-at (t x k) 8 j hj (passes-at (λ i. passes (t x i) 8) 8 k hk row)

set_checked : table set_table ≡ true
unfolding table passes
set_checked = refl

clear_checked : table clear_table ≡ true
unfolding table passes
clear_checked = refl

pub has_bit-set_bit :
    (x k j : ℕ)
    → x < 256
    → k < 8
    → j < 8
    → (has_bit (set_bit x k) j ≡ (j == k || has_bit x j)) × (set_bit x k < 256)
has_bit-set_bit x k j hx hk hj =
    let (a, b) = and_true _ _ (table_sound set_table x k j set_checked hx hk hj) in
    (same-eq _ _ a, ltb→lt _ _ b)

pub has_bit-clear_bit :
    (x k j : ℕ)
    → x < 256
    → k < 8
    → j < 8
    → (has_bit (clear_bit x k) j ≡ (not (j == k) && has_bit x j)) × (clear_bit x k < 256)
has_bit-clear_bit x k j hx hk hj =
    let (a, b) = and_true _ _ (table_sound clear_table x k j clear_checked hx hk hj) in
    (same-eq _ _ a, ltb→lt _ _ b)
