-- ===== src/Kalloc/Owners.antt =====
-- Who has which page, over any calls of the allocator and any writes of those that hold a page.
use laboratorio_ramiro.Kalloc.{Kmem, kalloc, kfree, in_page, pgsize, freerange}
use laboratorio_ramiro.Kalloc.Chain.{
  same_page, Chain-words, All-mem, released-Chain, kfree-released, released, kalloc-Chain,
  kalloc-empty, Chain, IsPage,
}
use laboratorio_ramiro.Prelude.{
  false, some, if◌then◌else◌, ◌<◌, suc, mem, ◌++◌, ◌==◌, ◌≡◌, ltb, ◌≤◌, ◌+◌, ℕ, All, [], ◌∷◌, ◌≢◌,
  refl, zero, leb, List, true, arith,
}

abbrev pub count : ℕ → List ℕ → ℕ
count x [] = 0
count x (v ∷ vs) = (if x == v then 1 else 0) + count x vs

-- The pages that `freerange` frees, from `p` on.
unfoldable pub page_list : ℕ → ℕ → ℕ → List ℕ
page_list zero p vend = []
page_list (suc f) p vend =
    let rest = page_list f (p + pgsize) vend in if leb (p + pgsize) vend then p ∷ rest else []

-- The allocator, and the pages that are held.
abbrev pub System : Type 0
System = Kmem × List ℕ

module _ (end : ℕ) where
  pub data Step : System → System → Type 0 where
    allocs :
        {k : Kmem} {held : List ℕ}
        → (kalloc k).0 ≢ 0
        → Step (k, held) ((kalloc k).1, (kalloc k).0 ∷ held)
    fails : {k : Kmem} {held : List ℕ} → (kalloc k).0 ≡ 0 → Step (k, held) ((kalloc k).1, held)
    -- Only a page that is held is freed.
    frees :
        {k k' : Kmem} (before : List ℕ) (v : ℕ) (after : List ℕ)
        → kfree end v k ≡ some k'
        → Step (k, before ++ v ∷ after) (k', before ++ after)
    -- A write to a page that is held.
    writes :
        {k : Kmem} {held : List ℕ} (v x w : ℕ)
        → mem v held ≡ true
        → in_page v x ≡ true
        → Step (k, held) (record k { words = λ y. if y == x then w else k.words y }, held)

  pub data Reach (vstart vend fuel : ℕ) : System → Type 0 where
    boots :
        {k : Kmem} (w : ℕ → ℕ)
        → freerange fuel end vstart vend (record { freelist = 0; words = w }) ≡ some k
        → Reach vstart vend fuel (k, [])
    next : {s t : System} → Reach vstart vend fuel s → Step s t → Reach vstart vend fuel t

  -- Each of the pages `all` is once free or once held, and there are no others.
  pub record IsOwned (all : List ℕ) (s : System) : Type 0 where
    pub free : List ℕ
    pub chain : Chain s.0.words s.0.freelist free
    pub free_pages : All (IsPage end) free
    pub held_pages : All (IsPage end) s.1
    pub shared : (x : ℕ) → count x free + count x s.1 ≡ count x all

pub mem-count : (x : ℕ) (vs : List ℕ) → mem x vs ≡ ltb 0 (count x vs)
mem-count x [] = refl
mem-count x (v ∷ vs) = ground (arith, mem-count x vs)

pub count-middle :
    (x : ℕ) (before : List ℕ) (v : ℕ) (after : List ℕ)
    → count x (before ++ v ∷ after) ≡ (if x == v then 1 else 0) + count x (before ++ after)
count-middle x [] v after = refl
count-middle x (b ∷ before) v after = omega (arith, count-middle x before v after)

All-middle :
    (P : ℕ → Type 0) (before : List ℕ) (v : ℕ) (after : List ℕ)
    → All P (before ++ v ∷ after)
    → P v × All P (before ++ after)
All-middle P [] v after h = h
All-middle P (b ∷ before) v after h =
    let (here, rest) = All-middle P before v after h.1 in (here, (h.0, rest))

kalloc-null : (k : Kmem) → (kalloc k).0 ≡ 0 → (kalloc k).1 ≡ k
unfolding kalloc
kalloc-null k e = ground arith

module _ (end : ℕ) (all : List ℕ) (positive : 0 < end) (distinct : (x : ℕ) → count x all ≤ 1) where
  kalloc-IsOwned :
      (k : Kmem) (held free : List ℕ)
      → (kalloc k).0 ≢ 0
      → Chain k.words k.freelist free
      → All (IsPage end) free
      → All (IsPage end) held
      → ((x : ℕ) → count x free + count x held ≡ count x all)
      → IsOwned end all ((kalloc k).1, (kalloc k).0 ∷ held)
  kalloc-IsOwned k held [] nonzero chain fp hp shared =
      absurd (ground (arith, kalloc-empty k chain))
  kalloc-IsOwned k held (v ∷ vs) nonzero chain fp hp shared =
      let (e, rest) = kalloc-Chain k v vs chain in
      rw e (record {
        free = vs;
        chain = rest;
        free_pages = fp.1;
        held_pages = (fp.0, hp);
        shared = λ x. omega (arith, shared x);
      })

  pub Step-IsOwned : {s t : System} → Step end s t → IsOwned end all s → IsOwned end all t
  Step-IsOwned (allocs {k} {held} nonzero) v =
      kalloc-IsOwned k held v.free nonzero v.chain v.free_pages v.held_pages v.shared
  Step-IsOwned (fails {k} {held} nothing) v = rw (kalloc-null k nothing) v
  Step-IsOwned (frees {k} {k'} before u after e) v =
      let (page, rest) = All-middle (IsPage end) before u after v.held_pages in
      let became : k' ≡ released u k = ground (arith, kfree-released end u k page) in
      let new : mem u v.free ≡ false =
        ground (arith, mem-count u v.free, v.shared u, count-middle u before u after, distinct u) in
      rw became (record {
        free = u ∷ v.free;
        chain = released-Chain end u k v.free positive page v.free_pages new v.chain;
        free_pages = (page, v.free_pages);
        held_pages = rest;
        shared = λ x. omega (arith, v.shared x, count-middle x before u after);
      })
  Step-IsOwned (writes {k} {held} u x w m inside) v =
      let page = All-mem (IsPage end) held u v.held_pages m in
      record {
        free = v.free;
        chain =
            Chain-words k.words (λ y. if y == x then w else k.words y) k.freelist v.free
              (λ f listed. ground (
                arith,
                same_page end f u x (All-mem (IsPage end) v.free f v.free_pages listed) page,
                mem-count f v.free,
                mem-count u held,
                v.shared u,
                distinct u,
              ))
              v.chain;
        free_pages = v.free_pages;
        held_pages = v.held_pages;
        shared = v.shared;
      }
