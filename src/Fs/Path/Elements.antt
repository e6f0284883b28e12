-- ===== src/Fs/Path/Elements.antt =====
-- `skipelem` takes the first of the names that the slashes of a path part.
use laboratorio_ramiro.CString.{Memory}
use laboratorio_ramiro.Fs.Path.{first_elem, skip_slashes, take_elem, set_name, skipelem, slash}
use laboratorio_ramiro.Prelude.{
  ap, true, sym, ◌∙◌, false, inl, none, Bool-cases, ◌≢◌, min, refl, inr, ◌==◌, ◌≤◌, ◌<◌, ◌+◌, ◌∷◌,
  ◌≡◌, length, arith, get_or, some, List, if◌then◌else◌, Option, ◌⊎◌, [], ℕ,
}

-- The runs of bytes between the slashes, the empty ones too.
abbrev add_byte : ℕ → List (List ℕ) → List (List ℕ)
add_byte x [] = (x ∷ []) ∷ []
add_byte x (e ∷ es) = (x ∷ e) ∷ es

unfoldable pub pieces : List ℕ → List (List ℕ)
pieces [] = [] ∷ []
pieces (x ∷ path) = let rest = pieces path in if x == slash then [] ∷ rest else add_byte x rest

unfoldable pub non_empty : List (List ℕ) → List (List ℕ)
non_empty [] = []
non_empty ([] ∷ es) = non_empty es
non_empty ((x ∷ e) ∷ es) = (x ∷ e) ∷ non_empty es

-- The names of a path.
unfoldable pub elements : List ℕ → List (List ℕ)
elements path = non_empty (pieces path)

module _ (x : ℕ) (path : List ℕ) where
  pieces-slash : (x == slash) ≡ true → pieces (x ∷ path) ≡ [] ∷ pieces path
  unfolding pieces
  pieces-slash e = rw e

  pieces-byte : (x == slash) ≡ false → pieces (x ∷ path) ≡ add_byte x (pieces path)
  unfolding pieces
  pieces-byte e = rw e

  skip-slash : (x == slash) ≡ true → skip_slashes (x ∷ path) ≡ skip_slashes path
  unfolding skip_slashes
  skip-slash e = rw e

  skip-byte : (x == slash) ≡ false → skip_slashes (x ∷ path) ≡ x ∷ path
  unfolding skip_slashes
  skip-byte e = rw e

  take-slash : (x == slash) ≡ true → take_elem (x ∷ path) ≡ ([], x ∷ path)
  unfolding take_elem
  take-slash e = rw e

  take-byte :
      (x == slash) ≡ false → take_elem (x ∷ path) ≡ (x ∷ (take_elem path).0, (take_elem path).1)
  unfolding take_elem
  take-byte e = rw e

skip_slashes-elements : (path : List ℕ) → elements (skip_slashes path) ≡ elements path
unfolding elements pieces non_empty skip_slashes
skip_slashes-elements [] = refl
skip_slashes-elements (x ∷ path) = elim (Bool-cases (x == slash)) [
  | inl here ↦
      ap elements (skip-slash x path here)
      ∙ skip_slashes-elements path
      ∙ ap non_empty (sym (pieces-slash x path here))
  | inr other ↦ ap elements (skip-byte x path other)
]

-- The path that is left starts with no slash, and is not longer.
pub record IsTrimmed (path rest : List ℕ) : Type 0 where
  pub no_slash : get_or rest 0 0 ≢ slash
  pub shorter : length rest ≤ length path

skip_slashes-IsTrimmed : (path : List ℕ) → IsTrimmed path (skip_slashes path)
unfolding skip_slashes
skip_slashes-IsTrimmed [] = record { no_slash = λ e. absurd (omega arith); shorter = omega arith }
skip_slashes-IsTrimmed (x ∷ path) =
    let h = skip_slashes-IsTrimmed path in
    elim (Bool-cases (x == slash)) [
      | inl here ↦ rw here (record { no_slash = h.no_slash; shorter = omega (arith, h.shorter) })
      | inr other ↦ rw other (record { no_slash = ground arith; shorter = omega arith })
    ]

-- The first piece, and the pieces behind it.
take_elem-pieces :
    (path : List ℕ)
    → (es : List (List ℕ)) × (pieces path ≡ (take_elem path).0 ∷ es)
      × (elements (take_elem path).1 ≡ non_empty es)
      × (length (take_elem path).0 + length (take_elem path).1 ≡ length path)
unfolding elements pieces non_empty take_elem
take_elem-pieces [] = ([], refl, refl, refl)
take_elem-pieces (x ∷ path) = elim (Bool-cases (x == slash)) [
  | inl here ↦
      rw (take-slash x path here) (
        pieces path,
        pieces-slash x path here,
        ap non_empty (pieces-slash x path here),
        omega arith,
      )
  | inr other ↦
      let (es, first, behind, amount) = take_elem-pieces path in
      rw (take-byte x path other)
        (es, pieces-byte x path other ∙ ap (add_byte x) first, behind, omega (arith, amount))
]

-- What `name` holds of `e`: its first 14 bytes, and a NUL behind it if it is shorter.
pub record IsNamed (e : List ℕ) (name name' : Memory) : Type 0 where
  pub bytes : (i : ℕ) → i < min (length e) 14 → name' i ≡ get_or e i 0
  pub ends : length e < 14 → name' (length e) ≡ 0
  pub outside : (i : ℕ) → length e < i ⊎ (14 ≤ i) → name' i ≡ name i

set_name-IsNamed : (e : List ℕ) (name : Memory) → IsNamed e name (set_name e name)
unfolding set_name
set_name-IsNamed e name = record {
  bytes = λ i l. ground arith;
  ends = λ l. ground arith;
  outside = λ i out. ground arith;
}

-- What `skipelem` answers.
pub data Skips (path : List ℕ) (name : Memory) : Option (List ℕ × Memory) → Type 0 where
  no_name : elements path ≡ [] → Skips path name none
  first_name :
      {rest : List ℕ} {name' : Memory} (e : List ℕ)
      → elements path ≡ e ∷ elements rest
      → 0 < length e
      → IsNamed e name name'
      → get_or rest 0 0 ≢ slash
      → length rest < length path
      → Skips path name (some (rest, name'))

non_empty-cons :
    (e : List ℕ) (es : List (List ℕ)) → 0 < length e → non_empty (e ∷ es) ≡ e ∷ non_empty es
unfolding non_empty
non_empty-cons [] es l = absurd (omega arith)
non_empty-cons (x ∷ e) es l = refl

elements-pieces : (path : List ℕ) → elements path ≡ non_empty (pieces path)
unfolding elements
elements-pieces path = refl

no_elements : elements [] ≡ []
unfolding elements pieces non_empty
no_elements = refl

first_elem-Skips :
    (path p : List ℕ) (name : Memory) → skip_slashes path ≡ p → Skips path name (first_elem p name)
unfolding first_elem
first_elem-Skips path [] name e =
    no_name (sym (skip_slashes-elements path) ∙ ap elements e ∙ no_elements)
first_elem-Skips path (x ∷ rest) name e =
    let h : IsTrimmed path (x ∷ rest) = rw (← e) (skip_slashes-IsTrimmed path) in
    let byte : (x == slash) ≡ false = ground (arith, h.no_slash) in
    let taken = take_elem (x ∷ rest) in
    let longer : 0 < length taken.0 = rw (take-byte x rest byte) (omega arith) in
    let (es, first, behind, amount) = take_elem-pieces (x ∷ rest) in
    let trimmed = skip_slashes-IsTrimmed taken.1 in
    first_name taken.0
      (sym (skip_slashes-elements path)
        ∙ ap elements e
        ∙ elements-pieces (x ∷ rest)
        ∙ ap non_empty first
        ∙ non_empty-cons taken.0 es longer
        ∙ ap (λ r. taken.0 ∷ r) (sym behind ∙ sym (skip_slashes-elements taken.1)))
      longer (set_name-IsNamed taken.0 name) trimmed.no_slash
      (omega (arith, trimmed.shorter, h.shorter, amount, longer))

-- `skipelem` takes the first name of a path: it answers none if the path has no name; and else it leaves a
-- shorter path with the other names and no leading slash, and in `name` the first 14 bytes of the first one,
-- and a NUL behind them if it has fewer.
pub skipelem-Skips : (path : List ℕ) (name : Memory) → Skips path name (skipelem path name)
unfolding skipelem
skipelem-Skips path name = first_elem-Skips path (skip_slashes path) name refl
