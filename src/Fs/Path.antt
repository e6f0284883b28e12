-- ===== src/Fs/Path.antt =====
-- xv6/fs.c: `skipelem`. A pointer into a path is the list of the bytes from there up to the path's NUL; the
-- name is a memory, from its address 0.
pub mod Elements
mod Tests
use laboratorio_ramiro.CString.{store, Memory}
use laboratorio_ramiro.Fs.Dir.{dirsiz}
use laboratorio_ramiro.Prelude.{
  get_or, ltb, List, some, none, length, [], if◌then◌else◌, leb, Option, ◌∷◌, ◌==◌, ℕ,
}

-- '/'
abbrev pub slash : ℕ
slash = 47

-- `while(*path == '/') path++`
unfoldable pub skip_slashes : List ℕ → List ℕ
skip_slashes [] = []
skip_slashes (x ∷ path) = let rest = skip_slashes path in if x == slash then rest else x ∷ path

-- `while(*path != '/' && *path != 0) path++`: the bytes that are passed, and the path then.
unfoldable pub take_elem : List ℕ → List ℕ × List ℕ
take_elem [] = ([], [])
take_elem (x ∷ path) =
    let rest = take_elem path in if x == slash then ([], x ∷ path) else (x ∷ rest.0, rest.1)

-- `memmove` of the first `n` bytes of `s`.
abbrev pub copy_name : Memory → List ℕ → ℕ → Memory
copy_name name s n = λ i. if ltb i n then get_or s i 0 else name i

unfoldable pub set_name : List ℕ → Memory → Memory
set_name s name =
    if leb dirsiz (length s)
    then copy_name name s dirsiz
    else store (copy_name name s (length s)) (length s) 0

-- Behind the leading slashes.
unfoldable pub first_elem : List ℕ → Memory → Option (List ℕ × Memory)
unfolding skip_slashes take_elem set_name
first_elem [] name = none
first_elem (x ∷ path) name =
    some (skip_slashes (take_elem (x ∷ path)).1, set_name (take_elem (x ∷ path)).0 name)

unfoldable pub skipelem : List ℕ → Memory → Option (List ℕ × Memory)
unfolding first_elem skip_slashes
skipelem path name = first_elem (skip_slashes path) name
