-- ===== src/Sim.antt =====
-- lab-07/sim.c: a paging simulator with eight frames and sixteen slots of secondary storage, under
-- FIFO (`-f`) or LRU (`-l`) replacement. One access, that is one round of a `scanf` loop, is a
-- function from the state of `main` to the next one, or to the message that the storage is full.
-- A pid or page of -1, which marks an empty frame, slot, entry or process, is `none`.
-- `paso_fifo` and `paso_lru` share the parts that the two loops write twice: they differ in the
-- frame that they choose and in the times. Accesses are to pages 1 to 16 of processes 1 to 100;
-- outside, the source indexes its arrays out of bounds.
pub mod Count
pub mod Valid
pub mod Cola
pub mod Moves
pub mod Runs
pub mod Fifo
pub mod Lru
pub mod Times
pub mod Order
mod Tests
use laboratorio_ramiro.Prelude.{
  Bool, List, Option, [], false, get_or, if◌then◌else◌, ltb, map, none, replicate, set, some, suc,
  true, ℕ, ◌%◌, ◌&&◌, ◌+◌, ◌-◌, ◌==◌, ◌||◌, ◌∷◌,
}

abbrev pub marcos : ℕ
marcos = 8

abbrev pub ranuras : ℕ
ranuras = 16

pub record Pagina : Type 0 where
  pub pid : ℕ
  pub pagina : ℕ

abbrev pub Marco : Type 0
Marco = Option Pagina

pub record Proceso : Type 0 where
  pub pid : ℕ
  pub tabla_paginas : List (Option ℕ)

pub record Sim : Type 0 where
  pub procesos : List (Option Proceso)
  pub memoria_fisica : List Marco
  pub memoria_secundaria : List Marco
  pub indice_ram : ℕ
  pub indice_disco : ℕ
  pub tiempo : ℕ
  pub tiempo_ram : List ℕ

unfoldable pub inicial : Sim
inicial = record {
  procesos = replicate 100 none;
  memoria_fisica = replicate marcos none;
  memoria_secundaria = replicate ranuras none;
  indice_ram = 0;
  indice_disco = 0;
  tiempo = 0;
  tiempo_ram = replicate marcos 0;
}

-- `m.pid == p.pid && m.pagina == p.pagina`
abbrev pub es : Pagina → Marco → Bool
es p none = false
es p (some q) = q.pid == p.pid && q.pagina == p.pagina

-- The searches through frames and slots: for a page, for its index, for an empty frame, for the
-- index of one. The index is past the end where there is none.
unfoldable pub contiene : Pagina → List Marco → Bool
contiene p [] = false
contiene p (m ∷ ms) = es p m || contiene p ms

unfoldable pub indice : Pagina → List Marco → ℕ
indice p [] = 0
indice p (m ∷ ms) = if es p m then 0 else suc (indice p ms)

abbrev pub vacio : Marco → Bool
vacio none = true
vacio (some p) = false

unfoldable pub hay_lugar : List Marco → Bool
hay_lugar [] = false
hay_lugar (m ∷ ms) = vacio m || hay_lugar ms

unfoldable pub indice_libre : List Marco → ℕ
indice_libre [] = 0
indice_libre (m ∷ ms) = if vacio m then 0 else suc (indice_libre ms)

unfoldable pub nuevo : ℕ → Proceso
nuevo pid = record { pid = pid; tabla_paginas = replicate 16 none }

abbrev pub existente : ℕ → Option Proceso → Proceso
existente pid none = nuevo pid
existente pid (some r) = r

-- `procesos[pid-1]`, which the code creates first if it is not there.
unfoldable pub proceso : Sim → ℕ → Proceso
proceso s pid = existente pid (get_or s.procesos (pid - 1) none)

unfoldable pub crear : Sim → ℕ → Sim
crear s pid = record s { procesos = set s.procesos (pid - 1) (some (proceso s pid)) }

-- `proceso.tabla_paginas[pagina-1] = v+1; procesos[pid-1] = proceso;`
unfoldable pub anotar : Sim → Pagina → ℕ → Sim
anotar s p v =
    let r = proceso s p.pid in
    record s {
      procesos =
          set s.procesos (p.pid - 1)
            (some (record r { tabla_paginas = set r.tabla_paginas (p.pagina - 1) (some (v + 1)) }));
    }

-- The marco that the code makes for a page that was nowhere: its pid is `proceso.pid`.
unfoldable pub marco : Sim → Pagina → Marco
marco s p = some (record { pid = (proceso s p.pid).pid; pagina = p.pagina })

-- An empty frame `v` takes a page that was nowhere.
unfoldable pub cargar : Sim → Pagina → ℕ → Sim
cargar s p v = record (anotar s p v) { memoria_fisica = set s.memoria_fisica v (marco s p) }

-- Frame `v` goes out to slot `indice_disco`, and takes a page that was nowhere.
unfoldable pub desalojar : Sim → Pagina → ℕ → Sim
desalojar s p v = record (anotar s p v) {
  memoria_secundaria = set s.memoria_secundaria s.indice_disco (get_or s.memoria_fisica v none);
  indice_disco = (s.indice_disco + 1) % ranuras;
  memoria_fisica = set s.memoria_fisica v (marco s p);
}

-- Frame `v` and the slot that holds the page change places.
unfoldable pub traer : Sim → Pagina → ℕ → Sim
traer s p v =
    let j = indice p s.memoria_secundaria in
    record (anotar s p v) {
      memoria_secundaria = set s.memoria_secundaria j (get_or s.memoria_fisica v none);
      memoria_fisica = set s.memoria_fisica v (get_or s.memoria_secundaria j none);
    }

pub data Paso : Type 0 where
  sigue : Sim → Paso
  -- "Memoria secundaria llena.": the loop ends.
  llena : Sim → Paso

-- Which of the four cases of the loop an access is, after the process is there.
unfoldable pub caso {ℓ} : {A : Type ℓ} → Sim → Pagina → A → A → A → A → A → A
caso s p en_ram en_disco inalcanzado libre lleno =
    if contiene p s.memoria_fisica
    then en_ram
    else if contiene p s.memoria_secundaria
    then if hay_lugar s.memoria_fisica then inalcanzado else en_disco
    else if hay_lugar s.memoria_fisica
    then libre
    else lleno

-- `indiceRAM = (indiceRAM + 1) % (MEMORIA_FISICA / TAMANIO_PAGINA)`
unfoldable pub avanzar : Sim → Sim
avanzar s = record s { indice_ram = (s.indice_ram + 1) % marcos }

-- One access of the loop of `case 'f'`.
unfoldable pub paso_fifo : Sim → Pagina → Paso
unfolding caso crear
paso_fifo s0 p =
    let s = crear s0 p.pid in
    let v = s.indice_ram in
    caso s p (sigue s) (sigue (avanzar (traer s p v))) (sigue s) (sigue (avanzar (cargar s p v))) (
      if vacio (get_or s.memoria_secundaria s.indice_disco none)
      then sigue (avanzar (desalojar s p v))
      else llena s)

-- The largest time; the first frame with the smallest.
unfoldable pub maximo_desde : ℕ → List ℕ → ℕ
maximo_desde m [] = m
maximo_desde m (t ∷ ts) = maximo_desde (if ltb m t then t else m) ts

unfoldable pub maximo : List ℕ → ℕ
maximo ts = maximo_desde (get_or ts 0 0) ts

unfoldable pub menor_desde : ℕ → ℕ → ℕ → List ℕ → ℕ
menor_desde i m v [] = v
menor_desde i m v (t ∷ ts) =
    menor_desde (i + 1) (if ltb t m then t else m) (if ltb t m then i else v) ts

unfoldable pub indice_min : List ℕ → ℕ
indice_min ts = menor_desde 0 (get_or ts 0 0) 0 ts

-- `tiempoRAM[v] = max+1`
unfoldable pub tocar : Sim → ℕ → Sim
tocar s v = record s { tiempo_ram = set s.tiempo_ram v (maximo s.tiempo_ram + 1) }

-- "incremento el tiempo de todos los procesos en 1"
unfoldable pub envejecer : Sim → Sim
envejecer s = record s { tiempo_ram = map (λ t. t + 1) s.tiempo_ram }

-- `tiempoRAM[v] = tiempo; tiempo++;`
unfoldable pub fechar : Sim → ℕ → Sim
fechar s v = record s { tiempo_ram = set s.tiempo_ram v s.tiempo; tiempo = s.tiempo + 1 }

-- One access of the loop of `case 'l'`.
unfoldable pub paso_lru : Sim → Pagina → Paso
unfolding caso crear
paso_lru s0 p =
    let s = crear s0 p.pid in
    let v = indice_min s.tiempo_ram in
    let u = indice_libre s.memoria_fisica in
    caso s p (sigue (tocar s (indice p s.memoria_fisica)))
      (sigue (envejecer (tocar (traer s p v) v))) (sigue s) (sigue (fechar (cargar s p u) u))
      (if vacio (get_or s.memoria_secundaria s.indice_disco none)
        then sigue (envejecer (tocar (desalojar s p v) v))
        else llena s)

-- The accesses read up to the end of the input, or up to a full storage.
unfoldable pub corrida : (Sim → Pagina → Paso) → Sim → List Pagina → Sim
corrida paso s [] = s
corrida paso s (p ∷ ps) = elim (paso s p) [ sigue t ↦ corrida paso t ps | llena t ↦ t ]
