-- ===== src/Kalloc.antt =====
-- xv6/kalloc.c: the allocator of pages. Its free list runs through the free pages: the first word of
-- each holds the address of the next, and 0 ends it. The memory is a function from the addresses of words.
-- The spin lock is left out, `kmem.use_lock` with it: a call is one step.
pub mod Chain
pub mod Owners
pub mod Boot
mod Tests
use laboratorio_ramiro.Prelude.{
  ◌-◌, not, ◌%◌, ltb, some, zero, ◌/◌, none, Bool, Option, ◌+◌, if◌then◌else◌, ◌||◌, leb, ◌==◌, ℕ,
  suc, ◌&&◌, ◌*◌, ◌^◌,
}

abbrev pub pgsize : ℕ
pgsize = 4096

abbrev pub kernbase : ℕ
kernbase = 0x80000000

abbrev pub phystop : ℕ
phystop = 0xE000000

pub record Kmem : Type 0 where
  pub freelist : ℕ
  pub words : ℕ → ℕ

-- Address `x` lies in page `v`.
abbrev pub in_page : ℕ → ℕ → Bool
in_page v x = leb v x && ltb x (v + pgsize)

-- `V2P`, in 32 bits.
abbrev pub v2p : ℕ → ℕ
v2p v = (v + 2 ^ 32 - kernbase) % 2 ^ 32

-- The test of `kfree`; `end` is the first address after the kernel.
abbrev pub is_bad : ℕ → ℕ → Bool
is_bad end v = not (v % pgsize == 0) || ltb v end || leb phystop (v2p v)

-- `none` is the panic. The page is filled with ones before it goes on the list.
unfoldable pub kfree : ℕ → ℕ → Kmem → Option Kmem
kfree end v k =
    if is_bad end v
    then none
    else some (record {
      freelist = v;
      words = λ x. if x == v then k.freelist else if in_page v x then 0x01010101 else k.words x;
    })

-- The page, or 0, and the list without it.
unfoldable pub kalloc : Kmem → ℕ × Kmem
kalloc k = let r = k.freelist in if r == 0 then (0, k) else (r, record k { freelist = k.words r })

abbrev pub pgroundup : ℕ → ℕ
pgroundup a = (a + (pgsize - 1)) / pgsize * pgsize

-- The loop of `freerange` from `p` on, with fuel. `none` is the panic of `kfree`, or no fuel.
unfoldable pub free_from : ℕ → ℕ → ℕ → ℕ → Kmem → Option Kmem
free_from zero end p vend k = none
free_from (suc f) end p vend k =
    if leb (p + pgsize) vend
    then elim (kfree end p k) [ none ↦ none | some k' ↦ free_from f end (p + pgsize) vend k' ]
    else some k

unfoldable pub freerange : ℕ → ℕ → ℕ → ℕ → Kmem → Option Kmem
freerange fuel end vstart vend k = free_from fuel end (pgroundup vstart) vend k
