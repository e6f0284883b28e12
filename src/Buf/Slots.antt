-- ===== src/Buf/Slots.antt =====
-- The slots of the buffer: two places less than `size` apart do not share one.
use native.Mathlib.Nat.{mod-lt, mod-add-mod, mod-eq_of_lt, mod-eq-sub-mod}
use laboratorio_ramiro.Prelude.{
  sym, ◌≢◌, arith, inr, ◌<◌, ℕ, ◌≡◌, inl, ◌+◌, Bool-cases, ◌∙◌, ◌≤◌, ◌-◌, ltb, ◌%◌, ap,
}

shifted-mod : (a d m : ℕ) → 0 < d → d < m → (a + d) % m ≢ a % m
shifted-mod a d m positive small e =
    let below : a % m < m = mod-lt a (omega arith) in
    let moved : (a % m + d) % m ≡ a % m = mod-add-mod a m d ∙ e in
    elim (Bool-cases (ltb (a % m + d) m)) [
      | inl inside ↦
          let same : (a % m + d) % m ≡ a % m + d = mod-eq_of_lt (ground arith) in
          absurd (omega arith)
      | inr around ↦
          let over : m ≤ a % m + d = ground arith in
          let wrapped : (a % m + d) % m ≡ (a % m + d - m) % m = mod-eq-sub-mod over in
          let same : (a % m + d - m) % m ≡ a % m + d - m = mod-eq_of_lt (omega arith) in
          absurd (omega arith)
    ]

pub distinct-mod : (a b m : ℕ) → a < b → b < a + m → b % m ≢ a % m
distinct-mod a b m less near e =
    let apart : b ≡ a + (b - a) = omega arith in
    shifted-mod a (b - a) m (omega arith) (omega arith) (ap (λ x. x % m) (sym apart) ∙ e)
