-- ===== src/Sim/Cola.antt =====
-- Rows of frames and slots that fill up from the first place on, one after the other.
use laboratorio_ramiro.Prelude.{
  Bool-cases, List, [], arith, false, get_or, inl, inr, length, length-set, none, refl, replicate,
  set, suc, sym, true, zero, ℕ, ◌%◌, ◌+◌, ◌<◌, ◌==◌, ◌∙◌, ◌∷◌, ◌≡◌, ◌⊎◌,
}
use native.Mathlib.Nat.{mod-eq_of_lt}
use laboratorio_ramiro.Sim.{Marco, vacio, hay_lugar}
use laboratorio_ramiro.Sim.Count.{lleno-set, lleno-get_or}

-- The first `n` places are taken and the others are empty.
abbrev pub Prefijo : ℕ → List Marco → Type 0
Prefijo n [] = n ≡ 0
Prefijo zero (m ∷ ms) = (vacio m ≡ true) × Prefijo zero ms
Prefijo (suc n) (m ∷ ms) = (vacio m ≡ false) × Prefijo n ms

abbrev pub Cola : ℕ → List Marco → Type 0
Cola n ms = (hay_lugar ms ≡ false) ⊎ Prefijo n ms

Prefijo-get_or :
    (n : ℕ) (ms : List Marco) → Prefijo n ms → n < length ms → vacio (get_or ms n none) ≡ true
Prefijo-get_or n [] h l = absurd (omega arith)
Prefijo-get_or zero (m ∷ ms) h l = h.0
Prefijo-get_or (suc n) (m ∷ ms) h l = Prefijo-get_or n ms h.1 (omega arith)

Prefijo-set :
    (n : ℕ) (ms : List Marco) (m : Marco)
    → Prefijo n ms
    → n < length ms
    → vacio m ≡ false
    → Prefijo (suc n) (set ms n m)
Prefijo-set n [] m h l e = absurd (omega arith)
Prefijo-set zero (x ∷ ms) m h l e = (e, h.1)
Prefijo-set (suc n) (x ∷ ms) m h l e = (h.0, Prefijo-set n ms m h.1 (omega arith) e)

Prefijo-lleno : (ms : List Marco) → Prefijo (length ms) ms → hay_lugar ms ≡ false
unfolding hay_lugar
Prefijo-lleno [] h = refl
Prefijo-lleno (m ∷ ms) h = ground (arith, Prefijo-lleno ms h.1)

Prefijo-reemplaza :
    (n i : ℕ) (ms : List Marco) (m : Marco)
    → Prefijo n ms
    → vacio (get_or ms i none) ≡ false
    → vacio m ≡ false
    → Prefijo n (set ms i m)
Prefijo-reemplaza n i [] m h o e = h
Prefijo-reemplaza zero zero (x ∷ ms) m h o e = ground arith
Prefijo-reemplaza zero (suc i) (x ∷ ms) m h o e = (h.0, Prefijo-reemplaza zero i ms m h.1 o e)
Prefijo-reemplaza (suc n) zero (x ∷ ms) m h o e = (e, h.1)
Prefijo-reemplaza (suc n) (suc i) (x ∷ ms) m h o e = (h.0, Prefijo-reemplaza n i ms m h.1 o e)

-- The next place is empty as long as any is.
pub Cola-vacio :
    (n : ℕ) (ms : List Marco) → Cola n ms → n < length ms → vacio (get_or ms n none) ≡ hay_lugar ms
Cola-vacio n ms (inl full) l = lleno-get_or ms n full l ∙ sym full
Cola-vacio n ms (inr h) l = let free = Prefijo-get_or n ms h l in ground (arith, lleno-get_or ms n)

pub Cola-set :
    (n k : ℕ) (ms : List Marco) (m : Marco)
    → Cola n ms
    → n < k
    → length ms ≡ k
    → vacio m ≡ false
    → Cola ((n + 1) % k) (set ms n m)
Cola-set n k ms m (inl full) l e o = inl (lleno-set ms n m full o)
Cola-set n k ms m (inr h) l e o =
    let grown = Prefijo-set n ms m h (omega arith) o in
    elim (Bool-cases (n + 1 == k)) [
      | inl last ↦
          let whole : length (set ms n m) ≡ suc n = length-set ms n m ∙ ground arith in
          inl (Prefijo-lleno _ (rw whole grown))
      | inr more ↦
          let next : (n + 1) % k ≡ suc n =
            mod-eq_of_lt {n = n + 1} {m = k} (ground arith) ∙ omega arith in
          inr (rw next grown)
    ]

pub Cola-reemplaza :
    (n i : ℕ) (ms : List Marco) (m : Marco)
    → Cola n ms
    → vacio (get_or ms i none) ≡ false
    → vacio m ≡ false
    → Cola n (set ms i m)
Cola-reemplaza n i ms m (inl full) o e = inl (lleno-set ms i m full e)
Cola-reemplaza n i ms m (inr h) o e = inr (Prefijo-reemplaza n i ms m h o e)

pub Prefijo-inicial : (n : ℕ) → Prefijo 0 (replicate n none)
Prefijo-inicial zero = refl
Prefijo-inicial (suc n) = (refl, Prefijo-inicial n)
