-- ===== src/Kalloc/Chain.antt =====
-- The free list as a list of pages.
use laboratorio_ramiro.Kalloc.{Kmem, is_bad, kalloc, kfree, in_page}
use laboratorio_ramiro.Prelude.{
  refl, Bool-cases, inl, inr, ◌≡◌, mem, true, ℕ, some, ◌∷◌, if◌then◌else◌, ◌≢◌, [], arith, List,
  All, ◌==◌, false, ◌<◌,
}

-- From pointer `p` the words lead through exactly these pages.
abbrev pub Chain : (ℕ → ℕ) → ℕ → List ℕ → Type 0
Chain words p [] = p ≡ 0
Chain words p (v ∷ vs) = (p ≡ v) × (v ≢ 0) × Chain words (words v) vs

-- A page of the memory that the kernel gives out.
abbrev pub IsPage : ℕ → ℕ → Type 0
IsPage end v = is_bad end v ≡ false

-- The words of the listed pages may change as long as the first ones stay.
pub Chain-words :
    (w w' : ℕ → ℕ) (p : ℕ) (vs : List ℕ)
    → ((v : ℕ) → mem v vs ≡ true → w' v ≡ w v)
    → Chain w p vs
    → Chain w' p vs
Chain-words w w' p [] same c = c
Chain-words w w' p (v ∷ vs) same (here, nonzero, rest) = (
  here,
  nonzero,
  rw (same v (ground arith)) (Chain-words w w' (w v) vs (λ u m. same u (ground arith)) rest),
)

-- Two pages that hold one address are one.
pub same_page :
    (end u v x : ℕ) → IsPage end u → IsPage end v → in_page u x ≡ true → in_page v x ≡ true → u ≡ v
same_page end u v x hu hv iu iv = ground arith

pub kalloc-Chain :
    (k : Kmem) (v : ℕ) (vs : List ℕ)
    → Chain k.words k.freelist (v ∷ vs)
    → (kalloc k ≡ (v, record k { freelist = k.words v })) × Chain k.words (k.words v) vs
unfolding kalloc
kalloc-Chain k v vs (here, nonzero, rest) = (ground arith, rest)

pub kalloc-empty : (k : Kmem) → Chain k.words k.freelist [] → kalloc k ≡ (0, k)
unfolding kalloc
kalloc-empty k here = ground arith

-- The memory that `kfree` leaves.
abbrev pub released : ℕ → Kmem → Kmem
released v k = record {
  freelist = v;
  words = λ x. if x == v then k.freelist else if in_page v x then 0x01010101 else k.words x;
}

pub kfree-released : (end v : ℕ) (k : Kmem) → IsPage end v → kfree end v k ≡ some (released v k)
unfolding kfree
kfree-released end v k ok = rw ok

pub All-mem : (P : ℕ → Type 0) (vs : List ℕ) (u : ℕ) → All P vs → mem u vs ≡ true → P u
All-mem P [] u h m = absurd (cc)
All-mem P (v ∷ vs) u h m = elim (Bool-cases (u == v)) [
  | inl same ↦ let e : u ≡ v = ground arith in rw e h.0
  | inr other ↦ All-mem P vs u h.1 (ground arith)
]

released-words :
    (end v : ℕ) (k : Kmem) (u : ℕ)
    → IsPage end v
    → IsPage end u
    → u ≢ v
    → (released v k).words u ≡ k.words u
released-words end v k u page other apart = ground (arith, same_page end u v u)

self : (v : ℕ) → (v == v) ≡ true
self v = ground arith

pub released-Chain :
    (end v : ℕ) (k : Kmem) (vs : List ℕ)
    → 0 < end
    → IsPage end v
    → All (IsPage end) vs
    → mem v vs ≡ false
    → Chain k.words k.freelist vs
    → Chain (released v k).words v (v ∷ vs)
released-Chain end v k vs positive page pages new c = (
  refl,
  ground arith,
  rw (self v) (
      Chain-words k.words (released v k).words k.freelist vs
        (λ u m. released-words end v k u page (All-mem (IsPage end) vs u pages m) (ground arith))
        c),
)
