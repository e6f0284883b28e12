-- ===== src/Sim/Count.antt =====
-- How often a page stands in a row of frames or slots, and what the searches find of it.
use laboratorio_ramiro.Prelude.{
  Bool-cases, List, [], arith, false, get_or, if◌then◌else◌, inl, inr, length, ltb, none, refl,
  replicate, set, some, suc, true, zero, ℕ, ◌+◌, ◌<◌, ◌∷◌, ◌≡◌, ◌≤◌,
}
use laboratorio_ramiro.Sim.{Pagina, Marco, es, vacio, contiene, indice, hay_lugar, indice_libre}

abbrev pub veces_en : Pagina → Marco → ℕ
veces_en p m = if es p m then 1 else 0

unfoldable pub veces : Pagina → List Marco → ℕ
veces p [] = 0
veces p (m ∷ ms) = veces_en p m + veces p ms

-- A write moves one occurrence.
pub veces-set :
    (p : Pagina) (ms : List Marco) (i : ℕ) (m : Marco)
    → i < length ms
    → veces p (set ms i m) + veces_en p (get_or ms i none) ≡ veces p ms + veces_en p m
unfolding veces
veces-set p [] i m h = absurd (omega arith)
veces-set p (x ∷ ms) zero m h = omega arith
veces-set p (x ∷ ms) (suc i) m h = omega (arith, veces-set p ms i m (omega arith))

pub veces_en-le-veces-set :
    (p : Pagina) (ms : List Marco) (i : ℕ) (m : Marco)
    → i < length ms
    → veces_en p m ≤ veces p (set ms i m)
unfolding veces
veces_en-le-veces-set p [] i m h = absurd (omega arith)
veces_en-le-veces-set p (x ∷ ms) zero m h = omega arith
veces_en-le-veces-set p (x ∷ ms) (suc i) m h =
    omega (arith, veces_en-le-veces-set p ms i m (omega arith))

pub contiene-veces : (p : Pagina) (ms : List Marco) → contiene p ms ≡ ltb 0 (veces p ms)
unfolding contiene veces
contiene-veces p [] = refl
contiene-veces p (m ∷ ms) = ground (arith, contiene-veces p ms)

pub indice-lt : (p : Pagina) (ms : List Marco) → contiene p ms ≡ true → indice p ms < length ms
unfolding contiene indice
indice-lt p [] h = cc
indice-lt p (m ∷ ms) h = ground (arith, indice-lt p ms)

pub es-indice :
    (p : Pagina) (ms : List Marco)
    → contiene p ms ≡ true
    → es p (get_or ms (indice p ms) none) ≡ true
unfolding contiene indice
es-indice p [] h = cc
es-indice p (m ∷ ms) h = elim (Bool-cases (es p m)) [
  | inl e ↦ rw e e
  | inr e ↦ rw e (es-indice p ms (ground arith))
]

pub indice_libre-lt : (ms : List Marco) → hay_lugar ms ≡ true → indice_libre ms < length ms
unfolding hay_lugar indice_libre
indice_libre-lt [] h = cc
indice_libre-lt (m ∷ ms) h = ground (arith, indice_libre-lt ms)

pub vacio-indice_libre :
    (ms : List Marco) → hay_lugar ms ≡ true → vacio (get_or ms (indice_libre ms) none) ≡ true
unfolding hay_lugar indice_libre
vacio-indice_libre [] h = cc
vacio-indice_libre (m ∷ ms) h = elim (Bool-cases (vacio m)) [
  | inl e ↦ rw e e
  | inr e ↦ rw e (vacio-indice_libre ms (ground arith))
]

pub veces_vacio : (p : Pagina) (m : Marco) → vacio m ≡ true → veces_en p m ≡ 0
veces_vacio p none h = refl
veces_vacio p (some q) h = cc

-- A full row has a page in each place, and stays full under writes of pages.
pub lleno-get_or :
    (ms : List Marco) (i : ℕ)
    → hay_lugar ms ≡ false
    → i < length ms
    → vacio (get_or ms i none) ≡ false
unfolding hay_lugar
lleno-get_or [] i h l = absurd (omega arith)
lleno-get_or (m ∷ ms) zero h l = ground arith
lleno-get_or (m ∷ ms) (suc i) h l = lleno-get_or ms i (ground arith) (omega arith)

pub lleno-set :
    (ms : List Marco) (i : ℕ) (m : Marco)
    → hay_lugar ms ≡ false
    → vacio m ≡ false
    → hay_lugar (set ms i m) ≡ false
unfolding hay_lugar
lleno-set [] i m h l = h
lleno-set (x ∷ ms) zero m h l = ground arith
lleno-set (x ∷ ms) (suc i) m h l = ground (arith, lleno-set ms i m)

pub es_same : (p : Pagina) → es p (some p) ≡ true
es_same p = ground arith

pub es_not_vacio : (p : Pagina) (m : Marco) → es p m ≡ true → vacio m ≡ false
es_not_vacio p none h = cc
es_not_vacio p (some q) h = refl

-- Two pages that are found in one place are one page.
pub es_unique : (p q : Pagina) (m : Marco) → es p m ≡ true → es q m ≡ es q (some p)
es_unique p q none h = cc
es_unique p q (some r) h = ground arith

pub veces-replicate : (p : Pagina) (n : ℕ) → veces p (replicate n none) ≡ 0
unfolding veces
veces-replicate p zero = refl
veces-replicate p (suc n) = omega (arith, veces-replicate p n)
