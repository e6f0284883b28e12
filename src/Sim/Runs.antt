-- ===== src/Sim/Runs.antt =====
-- What the two loops share: the branches of an access, the start, and runs of accesses.
use laboratorio_ramiro.Prelude.{
  All, Bool-cases, List, Option, [], arith, false, get_or-replicate, inl, inr, none, refl, true,
  ◌∷◌, ◌≡◌,
}
use laboratorio_ramiro.Sim.{
  Sim, Pagina, Paso, Proceso, caso, contiene, corrida, crear, hay_lugar, inicial, llena, marcos,
  ranuras, sigue,
}
use laboratorio_ramiro.Sim.Count.{veces-replicate}
use laboratorio_ramiro.Sim.Valid.{IsValid, IsAccedida, IsAcceso}

-- The creation of the process moves no page.
pub desde_crear : {s t : Sim} {p : Pagina} → IsAccedida (crear s p.pid) p t → IsAccedida s p t
unfolding crear
desde_crear c = record { valid = c.valid; residente = c.residente; conserva = c.conserva }

-- The five branches of an access.
pub caso-elim {ℓ κ} :
    {A : Type ℓ} (P : A → Type κ) (s : Sim) (p : Pagina)
    {en_ram en_disco inalcanzado libre lleno : A}
    → (contiene p s.memoria_fisica ≡ true → P en_ram)
    → (contiene p s.memoria_fisica ≡ false
        → contiene p s.memoria_secundaria ≡ true
        → hay_lugar s.memoria_fisica ≡ false
        → P en_disco)
    → (contiene p s.memoria_secundaria ≡ true → hay_lugar s.memoria_fisica ≡ true → P inalcanzado)
    → (contiene p s.memoria_fisica ≡ false
        → contiene p s.memoria_secundaria ≡ false
        → hay_lugar s.memoria_fisica ≡ true
        → P libre)
    → (contiene p s.memoria_fisica ≡ false
        → contiene p s.memoria_secundaria ≡ false
        → hay_lugar s.memoria_fisica ≡ false
        → P lleno)
    → P (caso s p en_ram en_disco inalcanzado libre lleno)
unfolding caso
caso-elim P s p a b c d e = elim (Bool-cases (contiene p s.memoria_fisica)) [
  | inl x ↦ rw x (a x)
  | inr x ↦ rw x (elim (Bool-cases (contiene p s.memoria_secundaria)) [
    | inl y ↦ rw y (elim (Bool-cases (hay_lugar s.memoria_fisica)) [
      | inl z ↦ rw z (c y z)
      | inr z ↦ rw z (b x y z)
    ])
    | inr y ↦ rw y (elim (Bool-cases (hay_lugar s.memoria_fisica)) [
      | inl z ↦ rw z (d x y z)
      | inr z ↦ rw z (e x y z)
    ])
  ])
]

pub inicial-IsValid : IsValid inicial
unfolding inicial
inicial-IsValid = record {
  ram_len = refl;
  disco_len = refl;
  ram_in = omega arith;
  disco_in = omega arith;
  tiempos = refl;
  unicas = λ q. omega (arith, veces-replicate q marcos, veces-replicate q ranuras);
  en_orden = λ _ q. veces-replicate q ranuras;
  pids = λ k. rw (get_or-replicate {A = Option Proceso} 100 k none) tt;
}

-- The state that an access leaves, also where the loop ends with it.
abbrev pub estado : Paso → Sim
estado (sigue t) = t
estado (llena t) = t

-- An invariant of the accesses is one of the runs.
pub corrida-keeps {κ} :
    (P : Sim → Type κ) (paso : Sim → Pagina → Paso)
    → ((s : Sim) (p : Pagina) → P s → IsAcceso p → P (estado (paso s p)))
    → (s : Sim) (ps : List Pagina) → P s
    → All IsAcceso ps
    → P (corrida paso s ps)
unfolding corrida
corrida-keeps P paso keep s [] h a = h
corrida-keeps P paso keep s (p ∷ ps) h a =
    go (paso s p) (keep s p h a.0) (λ t i. corrida-keeps P paso keep t ps i a.1)
  where
    go :
        (r : Paso)
        → P (estado r)
        → ((t : Sim) → P t → P (corrida paso t ps))
        → P (elim r [ sigue t ↦ corrida paso t ps | llena t ↦ t ])
    go (sigue t) i rest = rest t i
    go (llena t) i rest = i
