-- ===== src/Sim/Valid.antt =====
-- The invariant of both loops, and what the three ways of taking a page into a frame do to it.
use laboratorio_ramiro.Prelude.{
  List, Option, ap, arith, false, get_or, get_or-set, length, none, refl, set, some, subst, suc,
  true, ℕ, ◌+◌, ◌-◌, ◌<◌, ◌≡◌, ◌≤◌,
}
use laboratorio_ramiro.Sim.{
  Pagina, Proceso, Sim, marcos, ranuras, es, hay_lugar, nuevo, existente, proceso, crear, anotar,
  marco,
}
use laboratorio_ramiro.Sim.Count.{veces}

pub record IsAcceso (p : Pagina) : Type 0 where
  pub pid_pos : 1 ≤ p.pid
  pub pid_in : p.pid ≤ 100
  pub pagina_pos : 1 ≤ p.pagina
  pub pagina_in : p.pagina ≤ 16

-- The process in place `k` of the array is the one of pid `k + 1`.
abbrev pub PidOk : ℕ → Option Proceso → Type 0
PidOk k none = Unit
PidOk k (some r) = r.pid ≡ suc k

pub record IsValid (s : Sim) : Type 0 where
  pub ram_len : length s.memoria_fisica ≡ marcos
  pub disco_len : length s.memoria_secundaria ≡ ranuras
  pub ram_in : s.indice_ram < marcos
  pub disco_in : s.indice_disco < ranuras
  pub tiempos : length s.tiempo_ram ≡ marcos
  -- A page is in one place at most.
  pub unicas : (q : Pagina) → veces q s.memoria_fisica + veces q s.memoria_secundaria ≤ 1
  -- The storage is used only once the frames are full.
  pub en_orden : hay_lugar s.memoria_fisica ≡ true → (q : Pagina) → veces q s.memoria_secundaria ≡ 0
  pub pids : (k : ℕ) → PidOk k (get_or s.procesos k none)

-- `t` is `s` after an access to `p`: the page is in a frame, once, and no other page has come or
-- gone.
pub record IsAccedida (s : Sim) (p : Pagina) (t : Sim) : Type 0 where
  pub valid : IsValid t
  pub residente : veces p t.memoria_fisica ≡ 1
  pub conserva :
      (q : Pagina)
      → es q (some p) ≡ false
      → veces q t.memoria_fisica + veces q t.memoria_secundaria
        ≡ veces q s.memoria_fisica + veces q s.memoria_secundaria

pub es→≡ : (q p : Pagina) → es q (some p) ≡ true → q ≡ p
es→≡ q p h = ground arith

pids-set :
    (xs : List (Option Proceso)) (j : ℕ) (m : Option Proceso)
    → ((k : ℕ) → PidOk k (get_or xs k none))
    → PidOk j m
    → (k : ℕ) → PidOk k (get_or (set xs j m) k none)
pids-set xs j m h g k = get_or-set (PidOk k) xs j k m none (h k) (λ e. subst (λ n. PidOk n m) e g)

pub proceso-pid : {s : Sim} {p : Pagina} → IsValid s → IsAcceso p → (proceso s p.pid).pid ≡ p.pid
unfolding proceso nuevo
proceso-pid {s} {p} v a = go (get_or s.procesos (p.pid - 1) none) (v.pids (p.pid - 1))
  where
    go : (o : Option Proceso) → PidOk (p.pid - 1) o → (existente p.pid o).pid ≡ p.pid
    go none h = refl
    go (some r) h = omega arith

pub marco_lem : {s : Sim} {p : Pagina} → IsValid s → IsAcceso p → marco s p ≡ some p
unfolding marco
marco_lem {s} {p} v a = ap (λ n. some (record { pid = n; pagina = p.pagina })) (proceso-pid v a)

pub crear-IsValid : {s : Sim} {p : Pagina} → IsValid s → IsAcceso p → IsValid (crear s p.pid)
unfolding crear
crear-IsValid {s} {p} v a = record {
  ram_len = v.ram_len;
  disco_len = v.disco_len;
  ram_in = v.ram_in;
  disco_in = v.disco_in;
  tiempos = v.tiempos;
  unicas = v.unicas;
  en_orden = v.en_orden;
  pids = pids-set s.procesos (p.pid - 1) _ v.pids (omega (arith, proceso-pid v a));
}

pub anotar-pids :
    {s : Sim} {p : Pagina} (v : ℕ)
    → IsValid s
    → IsAcceso p
    → (k : ℕ) → PidOk k (get_or (anotar s p v).procesos k none)
unfolding anotar
anotar-pids {s} {p} v i a =
    pids-set s.procesos (p.pid - 1) _ i.pids (omega (arith, proceso-pid i a))
