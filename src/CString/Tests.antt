-- ===== src/CString/Tests.antt =====
-- The string routines at concrete inputs, and their theorems there.
use laboratorio_ramiro.CString.{move_down, Memory, memmove, strncmp}
use laboratorio_ramiro.Prelude.{if◌then◌else◌, some, ◌≡◌, ◌||◌, refl, ◌==◌}

-- "ab" at 10, "abc" at 20, and 7 elsewhere.
abbrev words : Memory
words x =
    if x == 10 || x == 20
    then b'a'
    else if x == 11 || x == 21
    then b'b'
    else if x == 22
    then b'c'
    else if x == 12 || x == 23
    then 0
    else 7

moved_byte : memmove words 11 10 3 12 ≡ b'b'
unfolding memmove move_down
moved_byte = refl

ab_before_abc : strncmp words 10 20 9 ≡ some (0, b'c')
unfolding strncmp
ab_before_abc = refl
