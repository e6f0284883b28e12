-- ===== src/Fs/Path/Tests.antt =====
-- A path at concrete inputs, and the theorem there.
use laboratorio_ramiro.CString.{Memory}
use laboratorio_ramiro.Fs.Path.{skipelem, first_elem, skip_slashes, take_elem, set_name}
use laboratorio_ramiro.Fs.Path.Elements.{Skips, skipelem-Skips}
use laboratorio_ramiro.Prelude.{Option, ◌∷◌, List, some, ◌≡◌, [], refl, none, ℕ}

-- "///a//bb"
abbrev path : List ℕ
path = 47 ∷ 47 ∷ 47 ∷ 97 ∷ 47 ∷ 47 ∷ 98 ∷ 98 ∷ []

abbrev name : Memory
name i = 255

skipelem-Skips_example : Skips path name (skipelem path name)
skipelem-Skips_example = skipelem-Skips path name

abbrev rest_of : Option (List ℕ × Memory) → List ℕ
rest_of none = []
rest_of (some (rest, m)) = rest

abbrev byte_of : Option (List ℕ × Memory) → ℕ → ℕ
byte_of none i = 255
byte_of (some (rest, m)) i = m i

-- What is left is "bb", and the name is "a".
second_name : rest_of (skipelem path name) ≡ 98 ∷ 98 ∷ []
unfolding skipelem first_elem skip_slashes take_elem set_name
second_name = refl

first_byte : byte_of (skipelem path name) 0 ≡ 97
unfolding skipelem first_elem skip_slashes take_elem set_name
first_byte = refl

first_end : byte_of (skipelem path name) 1 ≡ 0
unfolding skipelem first_elem skip_slashes take_elem set_name
first_end = refl
