-- ===== src/Sim/Order.antt =====
-- Which page LRU replaces, and where its times go wrong.
use laboratorio_ramiro.Prelude.{
  ◌↔◌, ap, arith, false, get_or, get_or-set_ne, get_or-set_self, length, none, true, ℕ, ◌<◌, ◌≡◌,
  ◌≢◌, ◌≤◌,
}
use laboratorio_ramiro.Sim.Valid.{IsAcceso, crear-IsValid, marco_lem}
use laboratorio_ramiro.Sim.Lru.{IsLru}
use laboratorio_ramiro.Sim.Count.{es_same, indice_libre-lt, vacio-indice_libre}
use laboratorio_ramiro.Sim.{
  Sim, Pagina, Paso, contiene, es, llena, marcos, sigue, hay_lugar, paso_lru, cargar, fechar,
  indice_libre, vacio, anotar,
}

abbrev pub hora : Sim → ℕ → ℕ
hora s k = get_or s.tiempo_ram k 0

-- From `s` to `t` the page `p` has come to be the most recent: it is in a frame whose time is above
-- every other, the other frames keep their order, and a frame that was given up had a smallest time.
pub record IsReciente (s : Sim) (p : Pagina) (t : Sim) : Type 0 where
  pub marco : ℕ
  pub marco_in : marco < marcos
  pub pagina : es p (get_or t.memoria_fisica marco none) ≡ true
  pub ultima : (k : ℕ) → k < marcos → k ≢ marco → hora t k < hora t marco
  pub orden :
      (j k : ℕ)
      → j < marcos
      → k < marcos
      → j ≢ marco
      → k ≢ marco
      → (hora s j ≤ hora s k) ↔ (hora t j ≤ hora t k)
  pub victima : contiene p s.memoria_fisica ≡ false → (k : ℕ) → k < marcos → hora s marco ≤ hora s k

abbrev pub Reciente : Sim → Pagina → Paso → Type 0
Reciente s p (sigue t) = IsReciente s p t
Reciente s p (llena t) = Unit

-- The frame of `p` is not the most recent after the access: frame `w` is.
abbrev pub Relegada : Pagina → ℕ → Paso → Type 0
Relegada p w (sigue t) =
    (u : ℕ) × (u < marcos) × (es p (get_or t.memoria_fisica u none) ≡ true) × (hora t u < hora t w)
Relegada p w (llena t) = ⊥

-- An access under LRU to a page that is nowhere, while a frame is empty, does not make its page the
-- most recent, if the time of some taken frame is above the count of such loads: the page gets that
-- count for its time, and so stands behind that frame, though it is the last one accessed.
pub paso_lru-Relegada :
    {s : Sim} {p : Pagina} (w : ℕ)
    → IsLru s
    → IsAcceso p
    → contiene p s.memoria_fisica ≡ false
    → contiene p s.memoria_secundaria ≡ false
    → hay_lugar s.memoria_fisica ≡ true
    → vacio (get_or s.memoria_fisica w none) ≡ false
    → s.tiempo < hora s w
    → Relegada p w (paso_lru s p)
unfolding paso_lru cargar fechar anotar
paso_lru-Relegada {s} {p} w i a out off free taken late =
    rw (out, off, free)
      (
        u,
        omega (arith, in_ram, i.valid.ram_len),
        rw (get_or-set_self s.memoria_fisica u _ none in_ram, marco_lem (crear-IsValid i.valid a) a)
            (es_same p),
        rw
            (
              get_or-set_self s.tiempo_ram u s.tiempo 0
                  (omega (arith, in_ram, i.valid.ram_len, i.valid.tiempos)),
              get_or-set_ne s.tiempo_ram {i = u} {j = w} s.tiempo 0 apart,
            )
            late,
      )
  where
    u : ℕ
    u = indice_libre s.memoria_fisica

    in_ram : u < length s.memoria_fisica
    in_ram = indice_libre-lt _ free

    apart : u ≢ w
    apart e =
        let h = vacio-indice_libre s.memoria_fisica free in
        ground (arith, ap (λ k. vacio (get_or s.memoria_fisica k none)) e)
