-- ===== src/CString/Copy.antt =====
-- What `memset` and `memmove` leave in the memory.
use laboratorio_ramiro.CString.{Memory, store, memmove, memset, move_down, move_up, stosb, stosl}
use laboratorio_ramiro.Prelude.{
  Bool-cases, inr, ◌∙◌, inl, ◌≢◌, ap, ◌==◌, if◌then◌else◌, ◌<◌, Bool, leb, ltb, ◌&&◌, ℕ, suc, ◌*◌,
  ◌%◌, ◌/◌, ◌-◌, ◌⊎◌, ◌≡◌, zero, ◌+◌, arith, ◌≤◌,
}

-- Address `x` is one of the `n` from `d` on.
abbrev pub within : ℕ → ℕ → ℕ → Bool
within d n x = leb d x && ltb x (d + n)

stosb_lem : (m : Memory) (d b n x : ℕ) → stosb m d b n x ≡ (if within d n x then b % 256 else m x)
unfolding stosb
stosb_lem m d b zero x = ground arith
stosb_lem m d b (suc n) x = ground (arith, stosb_lem (store m d (b % 256)) (d + 1) b n x)

abbrev four : Memory → ℕ → ℕ → Memory
four m d b = store (store (store (store m d b) (d + 1) b) (d + 2) b) (d + 3) b

-- Four equal bytes at a time.
stosl_lem :
    (m : Memory) (d b n x : ℕ)
    → b < 256
    → stosl m d (b * 16777216 + b * 65536 + b * 256 + b) n x
      ≡ (if within d (n * 4) x then b else m x)
unfolding stosl
stosl_lem m d b zero x small = ground arith
stosl_lem m d b (suc n) x small =
    let b0 : (b * 16777216 + b * 65536 + b * 256 + b) % 256 ≡ b = omega arith in
    let b1 : (b * 16777216 + b * 65536 + b * 256 + b) / 256 % 256 ≡ b = omega arith in
    let b2 : (b * 16777216 + b * 65536 + b * 256 + b) / 65536 % 256 ≡ b = omega arith in
    let b3 : (b * 16777216 + b * 65536 + b * 256 + b) / 16777216 % 256 ≡ b = omega arith in
    rw (b0, b1, b2, b3) (stosl_lem (four m d b) (d + 4) b n x small ∙ ground arith)

-- `memset` fills exactly the `n` bytes from `dst` on with the low byte of `c`, by words or by bytes.
pub memset_lem :
    (m : Memory) (dst c n x : ℕ) → memset m dst c n x ≡ (if within dst n x then c % 256 else m x)
unfolding memset
memset_lem m dst c n x = ground (arith, stosb_lem m dst c n x, stosl_lem m dst (c % 256) (n / 4) x)

move_down_lem :
    (m : Memory) (d s n x : ℕ)
    → s < d
    → move_down m d s n x ≡ (if within d n x then m (s + (x - d)) else m x)
unfolding move_down
move_down_lem m d s zero x l = ground arith
move_down_lem m d s (suc n) x l =
    move_down_lem (store m (d + n) (m (s + n))) d s n x l ∙ elim (Bool-cases (x == d + n)) [
      | inl last ↦ let source : s + (x - d) ≡ s + n = ground arith in ground (arith, ap m source)
      | inr other ↦ ground arith
    ]

shifted :
    (m : Memory) (d s n x : ℕ)
    → (d ≤ s) ⊎ (s + suc n ≤ d)
    → x ≢ d
    → (if within (d + 1) n x then store m d (m s) (s + 1 + (x - (d + 1))) else store m d (m s) x)
      ≡ (if within d (suc n) x then m (s + (x - d)) else m x)
shifted m d s n x l apart = elim (Bool-cases (within (d + 1) n x)) [
  | inl inside ↦
      let source : s + 1 + (x - (d + 1)) ≡ s + (x - d) = ground arith in
      let safe : s + (x - d) ≢ d = ground arith in rw inside (ground (arith, ap m source))
  | inr outside ↦ rw outside (ground arith)
]

move_up_lem :
    (m : Memory) (d s n x : ℕ)
    → (d ≤ s) ⊎ (s + n ≤ d)
    → move_up m d s n x ≡ (if within d n x then m (s + (x - d)) else m x)
unfolding move_up
move_up_lem m d s zero x l = ground arith
move_up_lem m d s (suc n) x l =
    move_up_lem (store m d (m s)) (d + 1) (s + 1) n x (omega arith) ∙ elim (Bool-cases (x == d)) [
      | inl now ↦ let source : s + (x - d) ≡ s = ground arith in ground (arith, ap m source)
      | inr other ↦ shifted m d s n x l (ground arith)
    ]

-- However the two blocks overlap, `memmove` leaves at `dst` the `n` bytes that were at `src`, and changes
-- no other byte.
pub memmove_lem :
    (m : Memory) (dst src n x : ℕ)
    → memmove m dst src n x ≡ (if within dst n x then m (src + (x - dst)) else m x)
unfolding memmove
memmove_lem m dst src n x = ground (arith, move_down_lem m dst src n x, move_up_lem m dst src n x)
