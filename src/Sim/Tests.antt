-- ===== src/Sim/Tests.antt =====
-- The simulator at concrete inputs, and its theorems there.
use laboratorio_ramiro.Prelude.{All, List, [], arith, none, refl, replicate, some, ℕ, ◌∷◌, ◌≡◌}
use laboratorio_ramiro.Sim.{
  Sim, Pagina, anotar, avanzar, cargar, contiene, corrida, fechar, hay_lugar, indice, indice_libre,
  inicial, marco, maximo, maximo_desde, nuevo, paso_fifo, paso_lru, proceso, tocar,
}
use laboratorio_ramiro.Sim.Valid.{IsAcceso}
use laboratorio_ramiro.Sim.Fifo.{inicial-IsFifo, paso_fifo_lem, FifoResulta}
use laboratorio_ramiro.Sim.Lru.{IsLru, corrida-IsLru}
use laboratorio_ramiro.Sim.Order.{Relegada, paso_lru-Relegada}

abbrev pag : ℕ → ℕ → Pagina
pag i j = record { pid = i; pagina = j }

abbrev una : Pagina
una = pag 1 3

una-IsAcceso : IsAcceso una
una-IsAcceso = omega arith

-- The example of README.md.
abbrev lectura : List Pagina
lectura = pag 1 3 ∷ pag 1 9 ∷ pag 1 3 ∷ pag 2 1 ∷ []

lectura-IsAcceso : All IsAcceso lectura
lectura-IsAcceso = omega arith

ejemplo :
    (corrida paso_fifo inicial lectura).memoria_fisica
    ≡ some (pag 1 3) ∷ some (pag 1 9) ∷ some (pag 2 1) ∷ replicate 5 none
unfolding corrida paso_fifo inicial contiene hay_lugar avanzar cargar marco anotar proceso nuevo
ejemplo = refl

paso_fifo_lem_example : FifoResulta inicial una (paso_fifo inicial una)
paso_fifo_lem_example = paso_fifo_lem inicial-IsFifo una-IsAcceso

-- Eight pages, one to a frame.
abbrev ocho : List Pagina
ocho = pag 1 1 ∷ pag 1 2 ∷ pag 1 3 ∷ pag 1 4 ∷ pag 1 5 ∷ pag 1 6 ∷ pag 1 7 ∷ pag 1 8 ∷ []

repleta : Sim
repleta = corrida paso_lru inicial ocho

-- One page, loaded and accessed twice more: its time is 2, and the count of loads 1.
repetida : Sim
repetida = corrida paso_lru inicial (una ∷ una ∷ una ∷ [])

repetida-IsLru : IsLru repetida
unfolding repetida
repetida-IsLru = corrida-IsLru (una ∷ una ∷ una ∷ []) (omega arith)

paso_lru-Relegada_example : Relegada (pag 2 1) 0 (paso_lru repetida (pag 2 1))
unfolding repetida corrida paso_lru inicial contiene hay_lugar fechar cargar marco anotar proceso
    nuevo indice_libre tocar maximo maximo_desde indice
paso_lru-Relegada_example =
    paso_lru-Relegada {p = pag 2 1} 0 repetida-IsLru (omega arith) refl refl refl refl (omega arith)
