-- ===== src/Bcache/Tests.antt =====
-- The cache at concrete inputs, and its theorems there.
use laboratorio_ramiro.Kalloc.Owners.{count}
use laboratorio_ramiro.Prelude.{
  ◌≢◌, suc, ◌≡◌, ◌∷◌, ℕ, Option, [], true, refl, some, arith, none, false,
}
use laboratorio_ramiro.Bcache.{
  find_last, find_first, recycle, bget_with, nbuf, binit_list, has_block, bget, Bcache,
}
use laboratorio_ramiro.Bcache.Unique.{
  IsGot, gets, boots, next, Reach, bget-keeps, Reach-IsCache, IsCache,
}

empty_cache : Bcache
empty_cache = record {
  buf = λ i. record { dev = 0; blockno = 0; refcnt = 0; valid = false; dirty = false };
  list = binit_list nbuf;
}

abbrev answer : Option (ℕ × Bcache) → Bcache → ℕ × Bcache
answer none c = (nbuf, c)
answer (some a) c = a

-- Block 7 is asked for twice, and then block 8.
one_got : Bcache
one_got = (answer (bget 1 7 empty_cache) empty_cache).1

two_got : Bcache
two_got = (answer (bget 1 7 one_got) one_got).1

two_got_reached : Reach (two_got, 0 ∷ 0 ∷ [])
unfolding two_got one_got empty_cache bget bget_with recycle find_first find_last binit_list
two_got_reached =
    next
      (next (boots empty_cache refl (λ i. (refl, refl)))
        (gets 1 7 (λ e. absurd (omega arith)) refl))
      (gets 1 7 (λ e. absurd (omega arith)) refl)

Reach-IsCache_example : IsCache (two_got, 0 ∷ 0 ∷ [])
Reach-IsCache_example = Reach-IsCache two_got_reached

third_got : bget 1 8 two_got ≡ some (1, (answer (bget 1 8 two_got) two_got).1)
unfolding two_got one_got empty_cache bget bget_with recycle find_first find_last binit_list
third_got = refl

bget-keeps_example :
    (has_block (answer (bget 1 8 two_got) two_got).1 1 8 1 ≡ true)
    × (((answer (bget 1 8 two_got) two_got).1.buf 1).refcnt ≡ suc (count 1 (0 ∷ 0 ∷ [])))
    × ((j : ℕ) → j ≢ 1 → (answer (bget 1 8 two_got) two_got).1.buf j ≡ two_got.buf j)
    × ((answer (bget 1 8 two_got) two_got).1.list ≡ two_got.list)
    × IsGot two_got (0 ∷ 0 ∷ []) 1 8 1 (answer (bget 1 8 two_got) two_got).1
bget-keeps_example = bget-keeps two_got (0 ∷ 0 ∷ []) 1 8 two_got_reached third_got
