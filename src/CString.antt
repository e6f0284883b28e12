-- ===== src/CString.antt =====
-- xv6/string.c over the bytes of the memory, a function from addresses. Addresses are not wrapped at
-- 2 ^ 32: a block that a caller passes lies in one piece. A count that the source takes as an `int` is 0
-- here where it is negative there.
pub mod Copy
pub mod Compare
pub mod Strings
mod Tests
use laboratorio_ramiro.Prelude.{
  ◌==◌, suc, some, none, ◌+◌, ltb, ℕ, ◌/◌, zero, if◌then◌else◌, Option, ◌%◌, map, ◌*◌, ◌&&◌,
}

abbrev pub Memory : Type 0
Memory = ℕ → ℕ

abbrev pub store : Memory → ℕ → ℕ → Memory
store m a v = λ x. if x == a then v else m x

-- `stosb` and `stosl` of x86.h: `n` bytes, and `n` words of four bytes, the lowest first.
unfoldable pub stosb : Memory → ℕ → ℕ → ℕ → Memory
stosb m d b zero = m
stosb m d b (suc n) = stosb (store m d (b % 256)) (d + 1) b n

unfoldable pub stosl : Memory → ℕ → ℕ → ℕ → Memory
stosl m d w zero = m
stosl m d w (suc n) =
    let m1 = store (store m d (w % 256)) (d + 1) (w / 256 % 256) in
    let m2 = store (store m1 (d + 2) (w / 65536 % 256)) (d + 3) (w / 16777216 % 256) in
    stosl m2 (d + 4) w n

-- The bytes of `(c<<24)|(c<<16)|(c<<8)|c` do not overlap, so that `|` is a sum.
unfoldable pub memset : Memory → ℕ → ℕ → ℕ → Memory
memset m dst c n =
    let b = c % 256 in
    if dst % 4 == 0 && n % 4 == 0
    then stosl m dst (b * 16777216 + b * 65536 + b * 256 + b) (n / 4)
    else stosb m dst c n

-- The two loops of `memmove`: from the ends down, and from the starts up.
unfoldable pub move_down : Memory → ℕ → ℕ → ℕ → Memory
move_down m d s zero = m
move_down m d s (suc n) = move_down (store m (d + n) (m (s + n))) d s n

unfoldable pub move_up : Memory → ℕ → ℕ → ℕ → Memory
move_up m d s zero = m
move_up m d s (suc n) = move_up (store m d (m s)) (d + 1) (s + 1) n

unfoldable pub memmove : Memory → ℕ → ℕ → ℕ → Memory
memmove m dst src n =
    if ltb src dst && ltb dst (src + n) then move_down m dst src n else move_up m dst src n

-- The two bytes at which the comparison ends, or none: the result is their difference, or 0.
unfoldable pub memcmp : Memory → ℕ → ℕ → ℕ → Option (ℕ × ℕ)
memcmp m a b zero = none
memcmp m a b (suc n) =
    let rest = memcmp m (a + 1) (b + 1) n in if m a == m b then rest else some (m a, m b)

-- Likewise.
unfoldable pub strncmp : Memory → ℕ → ℕ → ℕ → Option (ℕ × ℕ)
strncmp m p q zero = none
strncmp m p q (suc n) =
    let rest = strncmp m (p + 1) (q + 1) n in
    if ltb 0 (m p) && m p == m q then rest else some (m p, m q)

-- The loop that pads with NULs, and the one that copies up to a NUL.
unfoldable pub pad : Memory → ℕ → ℕ → Memory
pad m s zero = m
pad m s (suc n) = pad (store m s 0) (s + 1) n

unfoldable pub strncpy : Memory → ℕ → ℕ → ℕ → Memory
unfolding pad
strncpy m s t zero = m
strncpy m s t (suc n) =
    let rest = strncpy (store m s (m t)) (s + 1) (t + 1) n in
    if m t == 0 then pad (store m s (m t)) (s + 1) n else rest

-- The loop of `safestrcpy`, with room for `n` bytes before the NUL.
unfoldable pub safe_copy : Memory → ℕ → ℕ → ℕ → Memory
safe_copy m s t zero = store m s 0
safe_copy m s t (suc n) =
    let rest = safe_copy (store m s (m t)) (s + 1) (t + 1) n in
    if m t == 0 then store (store m s (m t)) (s + 1) 0 else rest

unfoldable pub safestrcpy : Memory → ℕ → ℕ → ℕ → Memory
unfolding safe_copy
safestrcpy m s t zero = m
safestrcpy m s t (suc n) = safe_copy m s t n

-- The loop of `strlen` from `n` on, with fuel; `none` means that the fuel ran out.
unfoldable pub strlen_from : ℕ → Memory → ℕ → ℕ → Option ℕ
strlen_from zero m s n = none
strlen_from (suc f) m s n =
    let rest = strlen_from f m s (n + 1) in if m (s + n) == 0 then some n else rest

unfoldable pub strlen : ℕ → Memory → ℕ → Option ℕ
strlen fuel m s = strlen_from fuel m s 0
