-- ===== src/Sim/Times.antt =====
-- The times of the frames under LRU: the largest, and the frame with the smallest.
use native.Mathlib.Nat.{le_refl}
use laboratorio_ramiro.Prelude.{
  All, All-get_or, Bool-cases, List, [], ap, arith, get_or, if◌then◌else◌, inl, inr, length, ltb,
  refl, suc, ℕ, ◌+◌, ◌<◌, ◌==◌, ◌∙◌, ◌∷◌, ◌≡◌, ◌≤◌,
}
use laboratorio_ramiro.Sim.{maximo_desde, maximo, menor_desde, indice_min}

maximo_desde-ge :
    (m : ℕ) (ts : List ℕ) → (m ≤ maximo_desde m ts) × All (λ t. t ≤ maximo_desde m ts) ts
unfolding maximo_desde
maximo_desde-ge m [] = (omega arith, tt)
maximo_desde-ge m (t ∷ ts) =
    let ih = maximo_desde-ge (if ltb m t then t else m) ts in
    (ground (arith, ih.0), (ground (arith, ih.0), ih.1))

pub le-maximo : (ts : List ℕ) (i : ℕ) → i < length ts → get_or ts i 0 ≤ maximo ts
unfolding maximo
le-maximo ts i l = All-get_or _ ts i 0 (maximo_desde-ge (get_or ts 0 0) ts).1 l

-- The loop for the smallest time, at index `i` of a row `all` whose smallest time so far is `m`, at
-- `v`.
menor_desde_lem :
    (i m v : ℕ) (ts : List ℕ) (value : ℕ → ℕ)
    → v < i + length ts
    → m ≡ value v
    → ((k : ℕ) → k < i → value v ≤ value k)
    → ((k : ℕ) → k < length ts → get_or ts k 0 ≡ value (i + k))
    → (menor_desde i m v ts < i + length ts)
      × ((k : ℕ) → k < i + length ts → value (menor_desde i m v ts) ≤ value k)
unfolding menor_desde
menor_desde_lem i m v [] value l e below at = (l, λ k h. below k (omega arith))
menor_desde_lem i m v (t ∷ ts) value l e below at = elim (Bool-cases (ltb t m)) [
  | inl lower ↦ rw lower (
      shift (
        menor_desde_lem (i + 1) t i ts value (omega arith) here
          (λ k h. elim (Bool-cases (k == i)) [
            | inl same ↦ let s : k ≡ i = ground arith in rw s (le_refl (value i))
            | inr other ↦ ground (arith, here, below k (ground arith))
          ])
          later))
  | inr not_lower ↦ rw not_lower (
      shift (
        menor_desde_lem (i + 1) m v ts value (omega arith) e
          (λ k h. elim (Bool-cases (k == i)) [
            | inl same ↦ let s : k ≡ i = ground arith in rw s (ground (arith, here))
            | inr other ↦ below k (ground arith)
          ])
          later))
]
  where
    here : t ≡ value i
    here = at 0 (omega arith) ∙ ap value (omega arith)

    later : (k : ℕ) → k < length ts → get_or ts k 0 ≡ value (i + 1 + k)
    later k h = at (suc k) (omega arith) ∙ ap value (omega arith)

    shift :
        {r : ℕ}
        → (r < i + 1 + length ts) × ((k : ℕ) → k < i + 1 + length ts → value r ≤ value k)
        → (r < i + suc (length ts)) × ((k : ℕ) → k < i + suc (length ts) → value r ≤ value k)
    shift h = (omega arith, λ k l. h.1 k (omega arith))

-- The frame chosen is one with the smallest time.
pub indice_min_lem :
    (ts : List ℕ)
    → 0 < length ts
    → (indice_min ts < length ts)
      × ((k : ℕ) → k < length ts → get_or ts (indice_min ts) 0 ≤ get_or ts k 0)
unfolding indice_min
indice_min_lem ts h =
    let found =
      menor_desde_lem 0 (get_or ts 0 0) 0 ts (λ k. get_or ts k 0) (omega arith) refl
        (λ k l. absurd (omega arith)) (λ k l. ap (λ j. get_or ts j 0) (omega arith)) in
    (omega (arith, found.0), λ k l. found.1 k (omega arith))
