-- ===== src/Sim/Moves.antt =====
-- The three ways of taking a page into a frame keep the invariant and lose no page.
use laboratorio_ramiro.Prelude.{
  Bool, Bool-cases, List, arith, false, get_or, if◌then◌else◌, inl, inr, length, length-set, none,
  set, some, true, ℕ, ◌+◌, ◌<◌, ◌∙◌, ◌≡◌, ◌≤◌,
}
use laboratorio_ramiro.Sim.{
  Sim, Marco, Pagina, anotar, cargar, contiene, desalojar, es, hay_lugar, indice, marco, marcos,
  traer, vacio,
}
use laboratorio_ramiro.Sim.Count.{
  veces, contiene-veces, es-indice, es_not_vacio, es_same, indice-lt, lleno-get_or, lleno-set,
  veces-set, veces_en, veces_en-le-veces-set, veces_vacio,
}
use laboratorio_ramiro.Sim.Valid.{IsValid, IsAccedida, IsAcceso, anotar-pids, es→≡, marco_lem}

hay_lugar_of_vacio :
    (ms : List Marco) (i : ℕ)
    → i < length ms
    → vacio (get_or ms i none) ≡ true
    → hay_lugar ms ≡ true
hay_lugar_of_vacio ms i h e = ground (arith, lleno-get_or ms i)

ausente : (p : Pagina) (ms : List Marco) → contiene p ms ≡ false → veces p ms ≡ 0
ausente p ms h = ground (arith, contiene-veces p ms)

-- How an access to `p` changes the counts: `p` comes in if it was nowhere.
record Cuentas (s : Sim) (p : Pagina) (t : Sim) : Type 0 where
  nueva : Bool
  ausente_antes : nueva ≡ true → veces p s.memoria_fisica + veces p s.memoria_secundaria ≡ 0
  suma :
      (q : Pagina)
      → veces q t.memoria_fisica + veces q t.memoria_secundaria
        ≡ veces q s.memoria_fisica
          + veces q s.memoria_secundaria
          + (if nueva then veces_en q (some p) else 0)
  dentro : 1 ≤ veces p t.memoria_fisica

module _ {s t : Sim} {p : Pagina} (i : IsValid s) (c : Cuentas s p t) where
  cuentas-unicas : (q : Pagina) → veces q t.memoria_fisica + veces q t.memoria_secundaria ≤ 1
  cuentas-unicas q = elim (Bool-cases (es q (some p))) [
    | inl e ↦
        let same = es→≡ q p e in rw same (ground (arith, i.unicas p, c.suma p, c.ausente_antes))
    | inr e ↦ ground (arith, i.unicas q, c.suma q)
  ]

  cuentas-residente : veces p t.memoria_fisica ≡ 1
  cuentas-residente = omega (arith, cuentas-unicas p, c.dentro)

  cuentas-conserva :
      (q : Pagina)
      → es q (some p) ≡ false
      → veces q t.memoria_fisica + veces q t.memoria_secundaria
        ≡ veces q s.memoria_fisica + veces q s.memoria_secundaria
  cuentas-conserva q e = ground (arith, c.suma q)

module _ {s : Sim} {p : Pagina} (v : ℕ) (i : IsValid s) (a : IsAcceso p) (lt : v < marcos) where
  cargar-Cuentas :
      vacio (get_or s.memoria_fisica v none) ≡ true
      → contiene p s.memoria_fisica ≡ false
      → contiene p s.memoria_secundaria ≡ false
      → Cuentas s p (cargar s p v)
  unfolding cargar anotar
  cargar-Cuentas free out off = record {
    nueva = true;
    ausente_antes = λ _. omega (arith, ausente p _ out, ausente p _ off);
    suma = λ q. rw (marco_lem i a) (
        omega (
          arith,
          veces-set q s.memoria_fisica v (some p) (omega (arith, i.ram_len)),
          veces_vacio q _ free,
        ));
    dentro =
        rw (marco_lem i a) (
          ground
            (arith, es_same p, veces_en-le-veces-set p s.memoria_fisica v (some p), i.ram_len));
  }

  -- An empty frame takes a page that was nowhere.
  pub cargar-IsAccedida :
      vacio (get_or s.memoria_fisica v none) ≡ true
      → contiene p s.memoria_fisica ≡ false
      → contiene p s.memoria_secundaria ≡ false
      → IsAccedida s p (cargar s p v)
  unfolding cargar anotar
  cargar-IsAccedida free out off =
      let c = cargar-Cuentas free out off in
      record {
        valid = record {
          ram_len = length-set s.memoria_fisica v _ ∙ i.ram_len;
          disco_len = i.disco_len;
          ram_in = i.ram_in;
          disco_in = i.disco_in;
          tiempos = i.tiempos;
          unicas = cuentas-unicas i c;
          en_orden = λ _.
              i.en_orden (hay_lugar_of_vacio s.memoria_fisica v (omega (arith, i.ram_len)) free);
          pids = anotar-pids v i a;
        };
        residente = cuentas-residente i c;
        conserva = cuentas-conserva i c;
      }

  desalojar-Cuentas :
      vacio (get_or s.memoria_secundaria s.indice_disco none) ≡ true
      → contiene p s.memoria_fisica ≡ false
      → contiene p s.memoria_secundaria ≡ false
      → Cuentas s p (desalojar s p v)
  unfolding desalojar anotar
  desalojar-Cuentas free out off = record {
    nueva = true;
    ausente_antes = λ _. omega (arith, ausente p _ out, ausente p _ off);
    suma = λ q. rw (marco_lem i a) (
        omega (
          arith,
          veces-set q s.memoria_fisica v (some p) (omega (arith, i.ram_len)),
          veces-set q s.memoria_secundaria s.indice_disco (get_or s.memoria_fisica v none)
              (omega (arith, i.disco_len, i.disco_in)),
          veces_vacio q _ free,
        ));
    dentro =
        rw (marco_lem i a) (
          ground
            (arith, es_same p, veces_en-le-veces-set p s.memoria_fisica v (some p), i.ram_len));
  }

  lleno_tras_set :
      (m : Marco)
      → hay_lugar s.memoria_fisica ≡ false
      → vacio m ≡ false
      → (q : Pagina) (ds : List Marco) → hay_lugar (set s.memoria_fisica v m) ≡ true
      → veces q ds ≡ 0
  lleno_tras_set m full some_page q ds h = ground (arith, lleno-set s.memoria_fisica v m)

  -- With full frames, one goes out to an empty slot for a page that was nowhere.
  pub desalojar-IsAccedida :
      hay_lugar s.memoria_fisica ≡ false
      → vacio (get_or s.memoria_secundaria s.indice_disco none) ≡ true
      → contiene p s.memoria_fisica ≡ false
      → contiene p s.memoria_secundaria ≡ false
      → IsAccedida s p (desalojar s p v)
  unfolding desalojar anotar
  desalojar-IsAccedida full free out off =
      let c = desalojar-Cuentas free out off in
      record {
        valid = record {
          ram_len = length-set s.memoria_fisica v _ ∙ i.ram_len;
          disco_len = length-set s.memoria_secundaria s.indice_disco _ ∙ i.disco_len;
          ram_in = i.ram_in;
          disco_in = omega arith;
          tiempos = i.tiempos;
          unicas = cuentas-unicas i c;
          en_orden = λ h q. lleno_tras_set (marco s p) full (rw (marco_lem i a)) q _ h;
          pids = anotar-pids v i a;
        };
        residente = cuentas-residente i c;
        conserva = cuentas-conserva i c;
      }

  traer-Cuentas : contiene p s.memoria_secundaria ≡ true → Cuentas s p (traer s p v)
  unfolding traer anotar
  traer-Cuentas off =
      let j = indice p s.memoria_secundaria in
      let m = get_or s.memoria_secundaria j none in
      record {
        nueva = false;
        ausente_antes = λ h. cc;
        suma = λ q. omega (
          arith,
          veces-set q s.memoria_fisica v m (omega (arith, i.ram_len)),
          veces-set q s.memoria_secundaria j (get_or s.memoria_fisica v none) (indice-lt p _ off),
        );
        dentro = ground (
          arith,
          es-indice p s.memoria_secundaria off,
          veces_en-le-veces-set p s.memoria_fisica v m,
          i.ram_len,
        );
      }

  -- With full frames, one changes places with the slot of the page.
  pub traer-IsAccedida :
      hay_lugar s.memoria_fisica ≡ false
      → contiene p s.memoria_secundaria ≡ true
      → IsAccedida s p (traer s p v)
  unfolding traer anotar
  traer-IsAccedida full off =
      let c = traer-Cuentas off in
      record {
        valid = record {
          ram_len = length-set s.memoria_fisica v _ ∙ i.ram_len;
          disco_len = length-set s.memoria_secundaria _ _ ∙ i.disco_len;
          ram_in = i.ram_in;
          disco_in = i.disco_in;
          tiempos = i.tiempos;
          unicas = cuentas-unicas i c;
          en_orden = λ h q. lleno_tras_set _ full (es_not_vacio p _ (es-indice p _ off)) q _ h;
          pids = anotar-pids v i a;
        };
        residente = cuentas-residente i c;
        conserva = cuentas-conserva i c;
      }
