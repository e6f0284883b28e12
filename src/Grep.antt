-- ===== src/Grep.antt =====
-- xv6/grep.c: the matcher of regular expressions. A string is the list of its characters before the
-- NUL, and a pointer into it is what is left of it.
pub mod Language
mod Tests
use laboratorio_ramiro.Prelude.{
  ◌==◌, true, if◌then◌else◌, List, [], Bool, ◌&&◌, ◌||◌, false, ◌∷◌, ℕ,
}

unfoldable pub is_end : List ℕ → Bool
is_end [] = true
is_end (t ∷ ts) = false

-- `*text != '\0' && (c == '.' || c == *text)`, and then `rest` of what follows.
unfoldable pub match_one : ℕ → (List ℕ → Bool) → List ℕ → Bool
match_one c rest [] = false
match_one c rest (t ∷ ts) = (c == b'.' || c == t) && rest ts

-- The loop of `matchstar`; `rest` is `matchhere` of what is left of the expression.
unfoldable pub matchstar : ℕ → (List ℕ → Bool) → List ℕ → Bool
matchstar c rest [] = rest []
matchstar c rest (t ∷ ts) = rest (t ∷ ts) || (t == c || c == b'.') && matchstar c rest ts

unfoldable pub matchhere : List ℕ → List ℕ → Bool
unfolding is_end match_one
matchhere [] text = true
matchhere (c ∷ []) text = if c == b'$' then is_end text else match_one c (λ ts. true) text
matchhere (c ∷ d ∷ re) text =
    let star = matchstar c (matchhere re) text in
    let one = match_one c (matchhere (d ∷ re)) text in if d == b'*' then star else one

-- The loop of `match`.
unfoldable pub match_from : List ℕ → List ℕ → Bool
match_from re [] = matchhere re []
match_from re (t ∷ ts) = matchhere re (t ∷ ts) || match_from re ts

unfoldable pub match : List ℕ → List ℕ → Bool
unfolding match_from
match [] text = match_from [] text
match (c ∷ re) text = if c == b'^' then matchhere re text else match_from (c ∷ re) text
