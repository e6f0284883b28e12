-- ===== src/Pipe/Ring.antt =====
-- The representation invariant of `struct pipe`, and the queue that a pipe holds.
use Prim.Native.Nat.{ℕ}
use laboratorio_ramiro.Prelude.{
  List, [], ap, ap₂, arith, false, get_or, get_or-set_ne, get_or-set_self, length, length-set, refl,
  set, suc, zero, ℕ, ◌%◌, ◌++◌, ◌+◌, ◌-◌, ◌<◌, ◌==◌, ◌^◌, ◌∷◌, ◌≡◌, ◌≢◌, ◌≤◌,
}
use laboratorio_ramiro.Pipe.{Pipe, pipesize, add_uint, pipealloc, full, empty, put, front, advance}

-- The number of bytes in the pipe: `nwrite - nread` as a `uint`.
abbrev pub count : Pipe → ℕ
count p = (p.nwrite + 2 ^ 32 - p.nread) % 2 ^ 32

pub record IsValid (p : Pipe) : Type 0 where
  pub storage : length p.buf ≡ pipesize
  pub nread_in : p.nread < 2 ^ 32
  pub nwrite_in : p.nwrite < 2 ^ 32
  pub room : count p ≤ pipesize

-- The `n` bytes from counter `h` on.
abbrev pub window : List ℕ → ℕ → ℕ → List ℕ
window buf h zero = []
window buf h (suc n) = get_or buf (h % pipesize) 0 ∷ window buf (add_uint h 1) n

abbrev pub contents : Pipe → List ℕ
contents p = window p.buf p.nread (count p)

pub length-window : (buf : List ℕ) (h n : ℕ) → length (window buf h n) ≡ n
length-window buf h zero = refl
length-window buf h (suc n) = ap suc (length-window buf (add_uint h 1) n)

pub length-contents : (p : Pipe) → length (contents p) ≡ count p
length-contents p = length-window p.buf p.nread (count p)

pub window_of_pos :
    (buf : List ℕ) (h n : ℕ)
    → n ≢ 0
    → window buf h n ≡ get_or buf (h % pipesize) 0 ∷ window buf (add_uint h 1) (n - 1)
window_of_pos buf h zero p = absurd (p refl)
window_of_pos buf h (suc n) p = ap (λ k. window buf h (suc k)) (omega arith)

-- Writing just past a window extends it by that byte.
window-set :
    (buf : List ℕ) (x n h i : ℕ)
    → length buf ≡ pipesize
    → h < 2 ^ 32
    → n < pipesize
    → i ≡ (h + n) % 2 ^ 32 % pipesize
    → window (set buf i x) h (suc n) ≡ window buf h n ++ (x ∷ [])
window-set buf x zero h i l hh hn e =
    let at : i ≡ h % pipesize = omega arith in
    rw (at, get_or-set_self buf (h % pipesize) x 0 (omega arith))
window-set buf x (suc n) h i l hh hn e =
    ap₂ ◌∷◌ (get_or-set_ne buf x 0 (omega arith))
      (window-set buf x n (add_uint h 1) i l (omega arith) (omega arith) (omega arith))

pub pipealloc-IsValid : (junk : List ℕ) → length junk ≡ pipesize → IsValid (pipealloc junk)
unfolding pipealloc
pipealloc-IsValid junk h = omega arith

pub put-IsValid : (p : Pipe) (b : ℕ) → IsValid p → full p ≡ false → IsValid (put p b)
unfolding put
put-IsValid p b v f = ground (arith, length-set p.buf (p.nwrite % pipesize) b)

pub contents-put :
    (p : Pipe) (b : ℕ) → IsValid p → full p ≡ false → contents (put p b) ≡ contents p ++ (b ∷ [])
unfolding put
contents-put p b v f =
    let grown : count (put p b) ≡ suc (count p) = ground arith in
    rw grown (
      window-set p.buf b (count p) p.nread (p.nwrite % pipesize) v.storage v.nread_in (ground arith)
        (omega arith))

pub advance-IsValid : (p : Pipe) → IsValid p → empty p ≡ false → IsValid (advance p)
unfolding advance
advance-IsValid p v f = ground arith

pub contents-advance :
    (p : Pipe) → IsValid p → empty p ≡ false → contents p ≡ front p ∷ contents (advance p)
unfolding advance
contents-advance p v f =
    let shrunk : count (advance p) ≡ count p - 1 = ground arith in
    let some_left : count p ≢ 0 = ground arith in
    rw shrunk (window_of_pos p.buf p.nread (count p) some_left)

pub full_iff : (p : Pipe) → IsValid p → full p ≡ (count p == pipesize)
full_iff p v = ground arith

pub empty_iff : (p : Pipe) → IsValid p → empty p ≡ (count p == 0)
empty_iff p v = ground arith
