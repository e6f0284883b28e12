-- ===== src/Sim/Fifo.antt =====
-- An access under FIFO: every branch of the loop of `case 'f'`.
use laboratorio_ramiro.Prelude.{
  All, Bool-cases, List, arith, false, get_or, inl, inr, none, refl, sym, true, ◌∙◌, ◌≡◌,
}
use laboratorio_ramiro.Sim.{
  Pagina, Marco, Sim, Paso, sigue, llena, vacio, contiene, hay_lugar, crear, anotar, cargar,
  desalojar, traer, avanzar, marco, marcos, ranuras, inicial, paso_fifo, corrida,
}
use laboratorio_ramiro.Sim.Count.{contiene-veces, es-indice, es_not_vacio, lleno-get_or, lleno-set}
use laboratorio_ramiro.Sim.Valid.{IsValid, IsAccedida, IsAcceso, crear-IsValid}
use laboratorio_ramiro.Sim.Moves.{cargar-IsAccedida, desalojar-IsAccedida, traer-IsAccedida}
use laboratorio_ramiro.Sim.Runs.{caso-elim, corrida-keeps, desde_crear, estado, inicial-IsValid}
use laboratorio_ramiro.Sim.Cola.{Cola, Cola-vacio, Cola-set, Cola-reemplaza, Prefijo-inicial}

-- Both rows fill up in order.
pub record IsFifo (s : Sim) : Type 0 where
  pub valid : IsValid s
  pub ram : Cola s.indice_ram s.memoria_fisica
  pub disco : Cola s.indice_disco s.memoria_secundaria

-- What an access to `p` at `s` comes to.
abbrev pub FifoResulta : Sim → Pagina → Paso → Type 0
FifoResulta s p (sigue t) = IsAccedida s p t × IsFifo t
FifoResulta s p (llena t) =
    (t ≡ crear s p.pid)
    × (contiene p s.memoria_fisica ≡ false)
    × (contiene p s.memoria_secundaria ≡ false)
    × (hay_lugar s.memoria_fisica ≡ false)
    × (hay_lugar s.memoria_secundaria ≡ false)

module _ {s : Sim} {p : Pagina} (i : IsFifo s) (a : IsAcceso p) where
  avanzar-Accedida : {t : Sim} → IsAccedida s p t → IsAccedida s p (avanzar t)
  unfolding avanzar
  avanzar-Accedida {t} c = record {
    valid = record {
      ram_len = c.valid.ram_len;
      disco_len = c.valid.disco_len;
      ram_in = omega arith;
      disco_in = c.valid.disco_in;
      tiempos = c.valid.tiempos;
      unicas = c.valid.unicas;
      en_orden = c.valid.en_orden;
      pids = c.valid.pids;
    };
    residente = c.residente;
    conserva = c.conserva;
  }

  fifo-hit : contiene p s.memoria_fisica ≡ true → FifoResulta s p (sigue s)
  fifo-hit h = (
    record {
      valid = i.valid;
      residente = ground (arith, contiene-veces p s.memoria_fisica, i.valid.unicas p);
      conserva = λ q e. refl;
    },
    i,
  )

  fifo-cargar :
      contiene p s.memoria_fisica ≡ false
      → contiene p s.memoria_secundaria ≡ false
      → hay_lugar s.memoria_fisica ≡ true
      → FifoResulta s p (sigue (avanzar (cargar s p s.indice_ram)))
  unfolding avanzar cargar anotar marco
  fifo-cargar out off free =
      let at =
        Cola-vacio s.indice_ram _ i.ram (omega (arith, i.valid.ram_len, i.valid.ram_in)) ∙ free in
      let done =
        avanzar-Accedida (cargar-IsAccedida s.indice_ram i.valid a i.valid.ram_in at out off) in
      (
        done,
        record {
          valid = done.valid;
          ram = Cola-set s.indice_ram marcos _ _ i.ram i.valid.ram_in i.valid.ram_len refl;
          disco = i.disco;
        },
      )

  fifo-desalojar :
      contiene p s.memoria_fisica ≡ false
      → contiene p s.memoria_secundaria ≡ false
      → hay_lugar s.memoria_fisica ≡ false
      → vacio (get_or s.memoria_secundaria s.indice_disco none) ≡ true
      → FifoResulta s p (sigue (avanzar (desalojar s p s.indice_ram)))
  unfolding avanzar desalojar anotar marco
  fifo-desalojar out off full free =
      let done =
        avanzar-Accedida
          (desalojar-IsAccedida s.indice_ram i.valid a i.valid.ram_in full free out off) in
      (
        done,
        record {
          valid = done.valid;
          ram = Cola-set s.indice_ram marcos _ _ i.ram i.valid.ram_in i.valid.ram_len refl;
          disco = Cola-set s.indice_disco ranuras _ _ i.disco i.valid.disco_in i.valid.disco_len (
              lleno-get_or s.memoria_fisica s.indice_ram full
                (omega (arith, i.valid.ram_len, i.valid.ram_in)));
        },
      )

  fifo-traer :
      contiene p s.memoria_secundaria ≡ true
      → hay_lugar s.memoria_fisica ≡ false
      → FifoResulta s p (sigue (avanzar (traer s p s.indice_ram)))
  unfolding avanzar traer anotar
  fifo-traer off full =
      let done =
        avanzar-Accedida (traer-IsAccedida s.indice_ram i.valid a i.valid.ram_in full off) in
      let found = es_not_vacio p _ (es-indice p _ off) in
      (
        done,
        record {
          valid = done.valid;
          ram = inl (lleno-set s.memoria_fisica s.indice_ram _ full found);
          disco = Cola-reemplaza s.indice_disco _ s.memoria_secundaria _ i.disco found (
              lleno-get_or s.memoria_fisica s.indice_ram full
                (omega (arith, i.valid.ram_len, i.valid.ram_in)));
        },
      )

resulta_desde_crear :
    {s t : Sim} {p : Pagina} → FifoResulta (crear s p.pid) p (sigue t) → FifoResulta s p (sigue t)
resulta_desde_crear (c, f) = (desde_crear c, f)

-- An access under FIFO, from a state where the rows are filled in order: either the page is then in
-- a frame, once, no other page has come or gone, and the invariant holds again; or the loop ends
-- with the message that the storage is full, nothing has moved, and that is so only if the page was
-- nowhere and neither a frame nor a slot of the whole storage is empty.
pub paso_fifo_lem : {s : Sim} {p : Pagina} → IsFifo s → IsAcceso p → FifoResulta s p (paso_fifo s p)
unfolding paso_fifo
paso_fifo_lem {s} {p} i a =
    caso-elim (FifoResulta s p) (crear s p.pid) p (λ hit. resulta_desde_crear (fifo-hit j a hit))
      (λ _ off full. resulta_desde_crear (fifo-traer j a off full))
      (λ off free.
        absurd (ground (arith, j.valid.en_orden free p, contiene-veces p s.memoria_secundaria)))
      (λ out off free. resulta_desde_crear (fifo-cargar j a out off free))
      (λ out off full. elim (Bool-cases (vacio slot)) [
        | inl free ↦ rw free (resulta_desde_crear (fifo-desalojar j a out off full free))
        | inr taken ↦ rw taken (refl, out, off, full, sym at ∙ taken)
      ])
  where
    j : IsFifo (crear s p.pid)
    j = record { valid = crear-IsValid i.valid a; ram = i.ram; disco = i.disco }

    slot : Marco
    slot = get_or s.memoria_secundaria s.indice_disco none

    at : vacio slot ≡ hay_lugar s.memoria_secundaria
    at = Cola-vacio s.indice_disco _ i.disco (omega (arith, i.valid.disco_len, i.valid.disco_in))

pub inicial-IsFifo : IsFifo inicial
unfolding inicial
inicial-IsFifo = record {
  valid = inicial-IsValid;
  ram = inr (Prefijo-inicial marcos);
  disco = inr (Prefijo-inicial ranuras);
}

resulta-IsFifo :
    {s : Sim} {p : Pagina}
    → IsFifo s
    → IsAcceso p
    → (r : Paso) → FifoResulta s p r
    → IsFifo (estado r)
unfolding crear
resulta-IsFifo i a (sigue t) h = h.1
resulta-IsFifo i a (llena t) h =
    rw (h.0, crear) (record { valid = crear-IsValid i.valid a; ram = i.ram; disco = i.disco })

-- Whatever accesses are read, the FIFO simulation keeps its invariant: it never holds a page twice,
-- in frames and storage together, and uses the storage only once the frames are full.
pub corrida-IsFifo : (ps : List Pagina) → All IsAcceso ps → IsFifo (corrida paso_fifo inicial ps)
corrida-IsFifo ps h =
    corrida-keeps IsFifo paso_fifo (λ s p i a. resulta-IsFifo i a _ (paso_fifo_lem i a)) inicial ps
      inicial-IsFifo h
