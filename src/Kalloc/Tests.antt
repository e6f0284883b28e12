-- ===== src/Kalloc/Tests.antt =====
-- The allocator at concrete inputs, and its theorems there.
use laboratorio_ramiro.Kalloc.{Kmem, freerange, kalloc, kfree, free_from, pgroundup}
use laboratorio_ramiro.Kalloc.Owners.{System, Reach, boots, next, allocs, IsOwned, page_list}
use laboratorio_ramiro.Prelude.{◌∷◌, Option, ℕ, some, none, [], ◌≡◌, arith, refl}
use laboratorio_ramiro.Kalloc.Boot.{freerange-total, Reach-IsOwned}

-- Three pages behind a small kernel.
abbrev end : ℕ
end = 0x80100000

abbrev top : ℕ
top = 0x80103010

empty_kmem : Kmem
empty_kmem = record { freelist = 0; words = λ x. 0 }

or_empty : Option Kmem → Kmem
or_empty none = record { freelist = 0; words = λ x. 0 }
or_empty (some k) = k

booted : Kmem
unfolding or_empty freerange free_from kfree
booted = or_empty (freerange 5 end end top (record { freelist = 0; words = λ x. 0 }))

booted_reached : Reach end end top 5 (booted, [])
unfolding booted
booted_reached = boots (λ x. 0) refl

one_given : Reach end end top 5 ((kalloc booted).1, (kalloc booted).0 ∷ [])
unfolding booted kalloc
one_given = next booted_reached (allocs (omega arith))

Reach-IsOwned_example :
    IsOwned end (page_list 5 (pgroundup end) top) ((kalloc booted).1, (kalloc booted).0 ∷ [])
Reach-IsOwned_example = Reach-IsOwned end end top 5 (omega arith) one_given

second_page : (kalloc (kalloc booted).1).0 ≡ 0x80101000
unfolding booted kalloc
second_page = refl

three_given : System
three_given =
    let one = kalloc booted in
    let two = kalloc one.1 in let three = kalloc two.1 in (three.1, three.0 ∷ two.0 ∷ one.0 ∷ [])

three_reached : Reach end end top 5 three_given
unfolding three_given booted kalloc
three_reached = next (next one_given (allocs (omega arith))) (allocs (omega arith))

no_page : (kalloc three_given.0).0 ≡ 0
unfolding three_given booted kalloc
no_page = refl

freerange-total_example : (k' : Kmem) × (freerange 0x80103011 end end top empty_kmem ≡ some k')
freerange-total_example =
    freerange-total end end top 0x80103011 empty_kmem (omega arith) (omega arith) (omega arith)
      (omega arith)
