-- ===== src/Grep/Tests.antt =====
-- The matcher at concrete inputs, and its theorem there.
use laboratorio_ramiro.Grep.{match, matchhere, matchstar, match_from}
use laboratorio_ramiro.Grep.Language.{Found, match-Found}
use laboratorio_ramiro.Prelude.{◌≡◌, List, refl, ◌∷◌, ℕ, true, ◌↔◌, false, []}

-- `^ab*c$`
abbrev anchored : List ℕ
anchored = b'^' ∷ b'a' ∷ b'b' ∷ b'*' ∷ b'c' ∷ b'$' ∷ []

abbrev abbc : List ℕ
abbc = b'a' ∷ b'b' ∷ b'b' ∷ b'c' ∷ []

match-Found_example : (match anchored abbc ≡ true) ↔ Found anchored abbc
match-Found_example = match-Found anchored abbc

abbc_matches : match anchored abbc ≡ true
unfolding match matchhere matchstar match_from
abbc_matches = refl

tail_fails : match anchored (b'x' ∷ abbc) ≡ false
unfolding match matchhere matchstar match_from
tail_fails = refl

-- `.*x` finds an x anywhere.
dots_match : match (b'.' ∷ b'*' ∷ b'x' ∷ []) (b'a' ∷ b'x' ∷ b'b' ∷ []) ≡ true
unfolding match matchhere matchstar match_from
dots_match = refl
