-- ===== src/Sim/Lru.antt =====
-- An access under LRU: every branch of the loop of `case 'l'`.
use laboratorio_ramiro.Prelude.{
  All, Bool-cases, List, arith, false, get_or, inl, inr, length, length-map, length-set, map, none,
  refl, set, sym, true, ℕ, ◌+◌, ◌<◌, ◌∙◌, ◌≡◌,
}
use laboratorio_ramiro.Sim.{
  Sim, Marco, Pagina, Paso, anotar, cargar, contiene, crear, desalojar, envejecer, fechar,
  hay_lugar, indice, indice_libre, indice_min, llena, marco, marcos, maximo, paso_lru, ranuras,
  sigue, tocar, traer, vacio, corrida, inicial,
}
use laboratorio_ramiro.Sim.Count.{
  contiene-veces, es-indice, es_not_vacio, indice_libre-lt, lleno-get_or, vacio-indice_libre,
}
use laboratorio_ramiro.Sim.Valid.{IsValid, IsAccedida, IsAcceso, crear-IsValid}
use laboratorio_ramiro.Sim.Moves.{cargar-IsAccedida, desalojar-IsAccedida, traer-IsAccedida}
use laboratorio_ramiro.Sim.Runs.{estado, caso-elim, desde_crear, corrida-keeps, inicial-IsValid}
use laboratorio_ramiro.Sim.Cola.{Cola, Cola-reemplaza, Cola-set, Cola-vacio, Prefijo-inicial}
use laboratorio_ramiro.Sim.Times.{indice_min_lem}

-- The storage fills up in order; a page goes to any frame.
pub record IsLru (s : Sim) : Type 0 where
  pub valid : IsValid s
  pub disco : Cola s.indice_disco s.memoria_secundaria

abbrev pub LruResulta : Sim → Pagina → Paso → Type 0
LruResulta s p (sigue t) = IsAccedida s p t × IsLru t
LruResulta s p (llena t) =
    (t ≡ crear s p.pid)
    × (contiene p s.memoria_fisica ≡ false)
    × (contiene p s.memoria_secundaria ≡ false)
    × (hay_lugar s.memoria_fisica ≡ false)
    × (hay_lugar s.memoria_secundaria ≡ false)

-- The times are of no concern to the pages.
con_tiempos :
    {s t : Sim} {p : Pagina} (ts : List ℕ) (n : ℕ)
    → length ts ≡ marcos
    → IsAccedida s p t
    → IsAccedida s p (record t { tiempo_ram = ts; tiempo = n })
con_tiempos ts n l c = record {
  valid = record {
    ram_len = c.valid.ram_len;
    disco_len = c.valid.disco_len;
    ram_in = c.valid.ram_in;
    disco_in = c.valid.disco_in;
    tiempos = l;
    unicas = c.valid.unicas;
    en_orden = c.valid.en_orden;
    pids = c.valid.pids;
  };
  residente = c.residente;
  conserva = c.conserva;
}

length-tocado :
    (ts : List ℕ) (v n : ℕ) → length ts ≡ marcos → length (map (λ t. t + 1) (set ts v n)) ≡ marcos
length-tocado ts v n h = length-map (set ts v n) _ ∙ length-set ts v n ∙ h

module _ {s : Sim} {p : Pagina} (i : IsLru s) (a : IsAcceso p) where
  victima-lt : indice_min s.tiempo_ram < marcos
  victima-lt =
      omega
        (arith, (indice_min_lem s.tiempo_ram (omega (arith, i.valid.tiempos))).0, i.valid.tiempos)

  lru-hit :
      contiene p s.memoria_fisica ≡ true
      → LruResulta s p (sigue (tocar s (indice p s.memoria_fisica)))
  unfolding tocar
  lru-hit h =
      let done =
        con_tiempos {s = s} {t = s} {p = p}
          (set s.tiempo_ram (indice p s.memoria_fisica) (maximo s.tiempo_ram + 1)) s.tiempo
          (length-set s.tiempo_ram _ _ ∙ i.valid.tiempos)
          (record {
            valid = i.valid;
            residente = ground (arith, contiene-veces p s.memoria_fisica, i.valid.unicas p);
            conserva = λ q e. refl;
          }) in
      (done, record { valid = done.valid; disco = i.disco })

  lru-cargar :
      contiene p s.memoria_fisica ≡ false
      → contiene p s.memoria_secundaria ≡ false
      → hay_lugar s.memoria_fisica ≡ true
      → let u = indice_libre s.memoria_fisica in LruResulta s p (sigue (fechar (cargar s p u) u))
  unfolding fechar cargar anotar marco
  lru-cargar out off free =
      let u = indice_libre s.memoria_fisica in
      let at = vacio-indice_libre s.memoria_fisica free in
      let done =
        con_tiempos (set s.tiempo_ram u s.tiempo) (s.tiempo + 1)
          (length-set s.tiempo_ram _ _ ∙ i.valid.tiempos)
          (cargar-IsAccedida u i.valid a (omega (arith, indice_libre-lt _ free, i.valid.ram_len)) at
            out off) in
      (done, record { valid = done.valid; disco = i.disco })

  lru-desalojar :
      contiene p s.memoria_fisica ≡ false
      → contiene p s.memoria_secundaria ≡ false
      → hay_lugar s.memoria_fisica ≡ false
      → vacio (get_or s.memoria_secundaria s.indice_disco none) ≡ true
      → let v = indice_min s.tiempo_ram in
        LruResulta s p (sigue (envejecer (tocar (desalojar s p v) v)))
  unfolding envejecer tocar desalojar anotar marco
  lru-desalojar out off full free =
      let v = indice_min s.tiempo_ram in
      let done =
        con_tiempos _ s.tiempo
          (length-tocado s.tiempo_ram v (maximo s.tiempo_ram + 1) i.valid.tiempos)
          (desalojar-IsAccedida v i.valid a victima-lt full free out off) in
      (
        done,
        record {
          valid = done.valid;
          disco =
              Cola-set s.indice_disco ranuras _ _ i.disco i.valid.disco_in i.valid.disco_len
                (lleno-get_or s.memoria_fisica v full (omega (arith, i.valid.ram_len, victima-lt)));
        },
      )

  lru-traer :
      contiene p s.memoria_secundaria ≡ true
      → hay_lugar s.memoria_fisica ≡ false
      → let v = indice_min s.tiempo_ram in
        LruResulta s p (sigue (envejecer (tocar (traer s p v) v)))
  unfolding envejecer tocar traer anotar
  lru-traer off full =
      let v = indice_min s.tiempo_ram in
      let done =
        con_tiempos _ s.tiempo
          (length-tocado s.tiempo_ram v (maximo s.tiempo_ram + 1) i.valid.tiempos)
          (traer-IsAccedida v i.valid a victima-lt full off) in
      let found = es_not_vacio p _ (es-indice p _ off) in
      (
        done,
        record {
          valid = done.valid;
          disco =
              Cola-reemplaza s.indice_disco _ s.memoria_secundaria _ i.disco found
                (lleno-get_or s.memoria_fisica v full (omega (arith, i.valid.ram_len, victima-lt)));
        },
      )

resulta_desde_crear :
    {s t : Sim} {p : Pagina} → LruResulta (crear s p.pid) p (sigue t) → LruResulta s p (sigue t)
resulta_desde_crear (c, f) = (desde_crear c, f)

-- An access under LRU: either the page is then in a frame, once, no other page has come or gone, and
-- the invariant holds again; or the loop ends with the message that the storage is full, nothing has
-- moved, and that is so only if the page was nowhere and neither a frame nor a slot of the whole
-- storage is empty.
pub paso_lru_lem : {s : Sim} {p : Pagina} → IsLru s → IsAcceso p → LruResulta s p (paso_lru s p)
unfolding paso_lru
paso_lru_lem {s} {p} i a =
    caso-elim (LruResulta s p) (crear s p.pid) p (λ hit. resulta_desde_crear (lru-hit j a hit))
      (λ _ off full. resulta_desde_crear (lru-traer j a off full))
      (λ off free.
        absurd (ground (arith, j.valid.en_orden free p, contiene-veces p s.memoria_secundaria)))
      (λ out off free. resulta_desde_crear (lru-cargar j a out off free))
      (λ out off full. elim (Bool-cases (vacio slot)) [
        | inl free ↦ rw free (resulta_desde_crear (lru-desalojar j a out off full free))
        | inr taken ↦ rw taken (refl, out, off, full, sym at ∙ taken)
      ])
  where
    j : IsLru (crear s p.pid)
    j = record { valid = crear-IsValid i.valid a; disco = i.disco }

    slot : Marco
    slot = get_or s.memoria_secundaria s.indice_disco none

    at : vacio slot ≡ hay_lugar s.memoria_secundaria
    at = Cola-vacio s.indice_disco _ i.disco (omega (arith, i.valid.disco_len, i.valid.disco_in))

pub inicial-IsLru : IsLru inicial
unfolding inicial
inicial-IsLru = record { valid = inicial-IsValid; disco = inr (Prefijo-inicial ranuras) }

resulta-IsLru :
    {s : Sim} {p : Pagina} → IsLru s → IsAcceso p → (r : Paso) → LruResulta s p r → IsLru (estado r)
unfolding crear
resulta-IsLru i a (sigue t) h = h.1
resulta-IsLru i a (llena t) h =
    rw (h.0, crear) (record { valid = crear-IsValid i.valid a; disco = i.disco })

-- Whatever accesses are read, the LRU simulation keeps its invariant: it never holds a page twice,
-- in frames and storage together, and uses the storage only once the frames are full.
pub corrida-IsLru : (ps : List Pagina) → All IsAcceso ps → IsLru (corrida paso_lru inicial ps)
corrida-IsLru ps h =
    corrida-keeps IsLru paso_lru (λ s p i a. resulta-IsLru i a _ (paso_lru_lem i a)) inicial ps
      inicial-IsLru h
