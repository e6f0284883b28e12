-- ===== src/Kalloc/Boot.antt =====
-- What `freerange` puts on the free list, and that no page is given out twice from then on.
use laboratorio_ramiro.Kalloc.{
  Kmem, is_bad, kalloc, kfree, pgsize, free_from, freerange, pgroundup, kernbase, phystop,
}
use laboratorio_ramiro.Kalloc.Chain.{
  kalloc-Chain, released-Chain, kalloc-empty, kfree-released, released, Chain, IsPage,
}
use laboratorio_ramiro.Kalloc.Owners.{
  mem-count, Step-IsOwned, System, Reach, boots, next, page_list, count, IsOwned,
}
use laboratorio_ramiro.Prelude.{
  ◌≢◌, leb, false, ap, ◌*◌, sym, ◌%◌, Option-cases, ◌∙◌, mem, ◌∷◌, true, [], ◌+◌, All, ◌≡◌, ℕ, ◌<◌,
  Bool-cases, inl, ◌≤◌, arith, suc, zero, inr, List, refl, some,
}

page_list-below : (f p vend x : ℕ) → x < p → count x (page_list f p vend) ≡ 0
unfolding page_list
page_list-below zero p vend x l = refl
page_list-below (suc f) p vend x l = ground (arith, page_list-below f (p + pgsize) vend x)

page_list-distinct : (f p vend x : ℕ) → count x (page_list f p vend) ≤ 1
unfolding page_list
page_list-distinct zero p vend x = omega arith
page_list-distinct (suc f) p vend x =
    ground (arith, page_list-distinct f (p + pgsize) vend x, page_list-below f (p + pgsize) vend x)

kfree-IsPage : (end v : ℕ) (k : Kmem) {k' : Kmem} → kfree end v k ≡ some k' → IsPage end v
unfolding kfree
kfree-IsPage end v k e = elim (Bool-cases (is_bad end v)) [
  | inl bad ↦ absurd (ground arith)
  | inr fine ↦ fine
]

free_from-step :
    (end f p vend : ℕ) (k k1 : Kmem)
    → leb (p + pgsize) vend ≡ true
    → kfree end p k ≡ some k1
    → free_from (suc f) end p vend k ≡ free_from f end (p + pgsize) vend k1
unfolding free_from
free_from-step end f p vend k k1 room e = ground arith

-- The list `vs` is free, and `free_from` adds its pages, all from `p` on.
free_from-Chain :
    (end f p vend : ℕ) (k : Kmem) (vs : List ℕ) {k' : Kmem}
    → 0 < end
    → Chain k.words k.freelist vs
    → All (IsPage end) vs
    → ((x : ℕ) → p ≤ x → count x vs ≡ 0)
    → free_from f end p vend k ≡ some k'
    → (free : List ℕ) × Chain k'.words k'.freelist free
      × All (IsPage end) free
      × ((x : ℕ) → count x free ≡ count x vs + count x (page_list f p vend))
unfolding free_from page_list
free_from-Chain end zero p vend k vs positive c pages below e = absurd (cc)
free_from-Chain end (suc f) p vend k vs {k'} positive c pages below e =
    elim (Bool-cases (leb (p + pgsize) vend)) [
      | inr full ↦ let same : k' ≡ k = ground arith in rw same (vs, c, pages, λ x. ground arith)
      | inl room ↦ elim (Option-cases (kfree end p k)) [
        | inl panic ↦ absurd (ground arith)
        | inr (k1, freed) ↦
            let page = kfree-IsPage end p k freed in
            let became : k1 ≡ released p k = ground (arith, kfree-released end p k page) in
            let new : mem p vs ≡ false = ground (arith, mem-count p vs, below p) in
            let chain = released-Chain end p k vs positive page pages new c in
            let later : free_from f end (p + pgsize) vend (released p k) ≡ some k' =
              ap (free_from f end (p + pgsize) vend) (sym became)
              ∙ sym (free_from-step end f p vend k k1 room freed)
              ∙ e in
            let (free, linked, all_pages, counts) =
              free_from-Chain end f (p + pgsize) vend (released p k) (p ∷ vs) positive chain
                (page, pages) (λ x l. ground (arith, below x)) later in
            (free, linked, all_pages, λ x. ground (arith, counts x))
      ]
    ]

-- Whatever calls `kalloc` and frees pages that it holds, and whatever the holders write into their pages:
-- each page that `freerange` freed at the start is at all times once on the free list, which is a proper
-- chain of pages, or once held, and no other page is.
pub Reach-IsOwned :
    (end vstart vend fuel : ℕ) {s : System}
    → 0 < end
    → Reach end vstart vend fuel s
    → IsOwned end (page_list fuel (pgroundup vstart) vend) s
unfolding freerange
Reach-IsOwned end vstart vend fuel positive (boots {k} w e) =
    let (free, linked, all_pages, counts) =
      free_from-Chain end fuel (pgroundup vstart) vend (record { freelist = 0; words = w }) []
        positive refl tt (λ x l. refl) e in
    record {
      free = free;
      chain = linked;
      free_pages = all_pages;
      held_pages = tt;
      shared = λ x. omega (arith, counts x);
    }
Reach-IsOwned end vstart vend fuel positive (next r st) =
    Step-IsOwned end (page_list fuel (pgroundup vstart) vend) positive
      (page_list-distinct fuel (pgroundup vstart) vend) st
      (Reach-IsOwned end vstart vend fuel positive r)

-- What `kalloc` may answer, where the pages `all` are shared out.
record KallocOk (end : ℕ) (all : List ℕ) (s : System) (v : ℕ) : Type 0 where
  fresh : v ≢ 0 → IsPage end v × (count v all ≡ 1) × (count v s.1 ≡ 0)
  full : v ≡ 0 → (x : ℕ) → count x s.1 ≡ count x all

kalloc-KallocOk :
    (end : ℕ) (all : List ℕ) (s : System) (free : List ℕ)
    → Chain s.0.words s.0.freelist free
    → All (IsPage end) free
    → ((x : ℕ) → count x free + count x s.1 ≡ count x all)
    → ((x : ℕ) → count x all ≤ 1)
    → KallocOk end all s (kalloc s.0).0
kalloc-KallocOk end all s [] chain pages shared distinct =
    let e = kalloc-empty s.0 chain in
    record { fresh = λ h. absurd (ground arith); full = λ h x. omega (arith, shared x) }
kalloc-KallocOk end all s (v ∷ vs) chain pages shared distinct =
    let (e, rest) = kalloc-Chain s.0 v vs chain in
    record {
      fresh = λ h.
          rw e
            (pages.0, ground (arith, shared v, distinct v), ground (arith, shared v, distinct v));
      full = λ h. absurd (ground arith);
    }

free_from-total :
    (end f p vend : ℕ) (k : Kmem)
    → end ≤ p
    → kernbase ≤ p
    → p % pgsize ≡ 0
    → vend ≤ kernbase + phystop
    → 0 < f
    → vend < p + f * pgsize
    → (k' : Kmem) × (free_from f end p vend k ≡ some k')
unfolding free_from
free_from-total end zero p vend k lo base aligned hi some_fuel enough = absurd (omega arith)
free_from-total end (suc f) p vend k lo base aligned hi some_fuel enough =
    elim (Bool-cases (leb (p + pgsize) vend)) [
      | inr full ↦ (k, ground arith)
      | inl room ↦
          let page : IsPage end p = ground arith in
          let (k', e) =
            free_from-total end f (p + pgsize) vend (released p k) (omega arith) (omega arith)
              (omega arith) hi (ground arith) (omega arith) in
          (k', free_from-step end f p vend k (released p k) room (kfree-released end p k page) ∙ e)
    ]

-- From an address behind the kernel up to the top of the physical memory `freerange` does not panic, and
-- ends: any fuel above the last address is enough.
pub freerange-total :
    (end vstart vend fuel : ℕ) (k : Kmem)
    → kernbase ≤ end
    → end ≤ vstart
    → vend ≤ kernbase + phystop
    → vend < fuel
    → (k' : Kmem) × (freerange fuel end vstart vend k ≡ some k')
unfolding freerange
freerange-total end vstart vend fuel k base behind hi enough =
    free_from-total end fuel (pgroundup vstart) vend k (omega arith) (omega arith) (omega arith) hi
      (omega arith) (omega arith)

-- In a reachable state a page that `kalloc` gives out, if it gives out one, is one of those that
-- `freerange` freed, aligned and behind the kernel, and no one holds it.
pub kalloc-fresh :
    (end vstart vend fuel : ℕ) {s : System}
    → 0 < end
    → Reach end vstart vend fuel s
    → (kalloc s.0).0 ≢ 0
    → IsPage end (kalloc s.0).0
      × (count (kalloc s.0).0 (page_list fuel (pgroundup vstart) vend) ≡ 1)
      × (count (kalloc s.0).0 s.1 ≡ 0)
kalloc-fresh end vstart vend fuel {s} positive r given =
    let v = Reach-IsOwned end vstart vend fuel positive r in
    let ok =
      kalloc-KallocOk end _ s v.free v.chain v.free_pages v.shared
        (page_list-distinct fuel _ vend) in
    ok.fresh given

-- In a reachable state where `kalloc` gives out no page, each page that `freerange` freed is held.
pub kalloc-exhausted :
    (end vstart vend fuel : ℕ) {s : System}
    → 0 < end
    → Reach end vstart vend fuel s
    → (kalloc s.0).0 ≡ 0
    → (x : ℕ) → count x s.1 ≡ count x (page_list fuel (pgroundup vstart) vend)
kalloc-exhausted end vstart vend fuel {s} positive r none_left =
    let v = Reach-IsOwned end vstart vend fuel positive r in
    let ok =
      kalloc-KallocOk end _ s v.free v.chain v.free_pages v.shared
        (page_list-distinct fuel _ vend) in
    ok.full none_left
