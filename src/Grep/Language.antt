-- ===== src/Grep/Language.antt =====
-- What a regular expression means, and that the matcher decides it.
use laboratorio_ramiro.Grep.{is_end, match, match_from, match_one, matchhere, matchstar}
use laboratorio_ramiro.Prelude.{
  and_true, ap, arith, ◌++◌, Bool-cases, ◌∙◌, ◌⊎◌, refl, sym, inr, inl, Bool, ◌↔◌, List, [], ◌==◌,
  ℕ, true, if◌then◌else◌, ◌≡◌, ◌∷◌, ◌||◌,
}

-- A character, or `.`.
pub data Symbol : Type 0 where
  dot : Symbol
  char : ℕ → Symbol

pub data Piece : Type 0 where
  once : Symbol → Piece
  many : Symbol → Piece
  end : Piece

abbrev pub symbol : ℕ → Symbol
symbol c = if c == b'.' then dot else char c

-- The pieces of an expression: `*` makes the character before it many, and a last `$` is the end.
unfoldable pub pieces : List ℕ → List Piece
pieces [] = []
pieces (c ∷ []) = (if c == b'$' then end else once (symbol c)) ∷ []
pieces (c ∷ d ∷ re) =
    let starred = many (symbol c) ∷ pieces re in
    let plain = once (symbol c) ∷ pieces (d ∷ re) in if d == b'*' then starred else plain

abbrev pub Accepts : Symbol → ℕ → Type 0
Accepts dot t = Unit {0}
Accepts (char c) t = c ≡ t

-- The pieces match a beginning of the text.
pub data Matches : List Piece → List ℕ → Type 0 where
  done : {text : List ℕ} → Matches [] text
  one :
      {s : Symbol} {ps : List Piece} {t : ℕ} {ts : List ℕ}
      → Accepts s t
      → Matches ps ts
      → Matches (once s ∷ ps) (t ∷ ts)
  stop :
      {s : Symbol} {ps : List Piece} {text : List ℕ} → Matches ps text → Matches (many s ∷ ps) text
  more :
      {s : Symbol} {ps : List Piece} {t : ℕ} {ts : List ℕ}
      → Accepts s t
      → Matches (many s ∷ ps) ts
      → Matches (many s ∷ ps) (t ∷ ts)
  at_end : Matches (end ∷ []) []

Accepts-iff : (c t : ℕ) → ((c == b'.' || c == t) ≡ true) ↔ Accepts (symbol c) t
Accepts-iff c t = elim (Bool-cases (c == b'.')) [
  | inl any ↦ rw any ((λ h. tt), λ h. refl)
  | inr plain ↦ rw plain ((λ h. ground arith), λ h. ground arith)
]

module _ {s : Symbol} {ps : List Piece} where
  many-nil : Matches (many s ∷ ps) [] → Matches ps []
  many-nil (stop m) = m

  many-cons :
      {t : ℕ} {ts : List ℕ}
      → Matches (many s ∷ ps) (t ∷ ts)
      → Matches ps (t ∷ ts) ⊎ (Accepts s t × Matches (many s ∷ ps) ts)
  many-cons (stop m) = inl m
  many-cons (more a m) = inr (a, m)

  once-cons : {t : ℕ} {ts : List ℕ} → Matches (once s ∷ ps) (t ∷ ts) → Accepts s t × Matches ps ts
  once-cons (one a m) = (a, m)

  once-nil : Matches (once s ∷ ps) [] → ⊥
  once-nil m = elim m [ ]

end_only : {t : ℕ} {ts : List ℕ} → Matches (end ∷ []) (t ∷ ts) → ⊥
end_only m = elim m [ ]

-- `rest` decides what the pieces `ps` match.
abbrev Decides : (List ℕ → Bool) → List Piece → Type 0
Decides rest ps = (text : List ℕ) → (rest text ≡ true) ↔ Matches ps text

or_true : (a b : Bool) → (a || b) ≡ true → (a ≡ true) ⊎ (b ≡ true)
or_true a b h = ground arith

matchstar-Matches :
    (c : ℕ) (ps : List Piece) (rest : List ℕ → Bool)
    → Decides rest ps
    → Decides (matchstar c rest) (many (symbol c) ∷ ps)
unfolding matchstar
matchstar-Matches c ps rest h [] = ((λ e. stop ((h []).0 e)), λ m. (h []).1 (many-nil m))
matchstar-Matches c ps rest h (t ∷ ts) =
    let ih = matchstar-Matches c ps rest h ts in
    let same : (t == c || c == b'.') ≡ (c == b'.' || c == t) = ground arith in
    (
      (λ e. elim (or_true (rest (t ∷ ts)) _ e) [
        | inl now ↦ stop ((h (t ∷ ts)).0 now)
        | inr later ↦
            let (a, m) = and_true _ _ later in more ((Accepts-iff c t).0 (sym same ∙ a)) (ih.0 m)
      ]),
      λ m. elim (many-cons m) [
        | inl now ↦ ground (arith, (h (t ∷ ts)).1 now)
        | inr (a, later) ↦ ground (arith, (Accepts-iff c t).1 a, ih.1 later)
      ],
    )

match_one-Matches :
    (c : ℕ) (ps : List Piece) (rest : List ℕ → Bool)
    → Decides rest ps
    → Decides (match_one c rest) (once (symbol c) ∷ ps)
unfolding match_one
match_one-Matches c ps rest h [] = ((λ e. absurd (cc)), λ m. absurd (once-nil m))
match_one-Matches c ps rest h (t ∷ ts) = (
  (λ e. let (a, m) = and_true _ _ e in one ((Accepts-iff c t).0 a) ((h ts).0 m)),
  λ m. let (a, later) = once-cons m in ground (arith, (Accepts-iff c t).1 a, (h ts).1 later),
)

end-Matches : Decides is_end (end ∷ [])
unfolding is_end
end-Matches [] = ((λ e. at_end), λ m. refl)
end-Matches (t ∷ ts) = ((λ e. absurd (cc)), λ m. absurd (end_only m))

matchhere-Matches : (re : List ℕ) → Decides (matchhere re) (pieces re)
unfolding matchhere pieces
matchhere-Matches [] text = ((λ e. done), λ m. refl)
matchhere-Matches (c ∷ []) text = elim (Bool-cases (c == b'$')) [
  | inl last ↦ rw last (end-Matches text)
  | inr plain ↦ rw plain (match_one-Matches c [] (λ ts. true) (λ ts. ((λ e. done), λ m. refl)) text)
]
matchhere-Matches (c ∷ d ∷ re) text = elim (Bool-cases (d == b'*')) [
  | inl star ↦ rw star (matchstar-Matches c (pieces re) (matchhere re) (matchhere-Matches re) text)
  | inr plain ↦
      rw plain (
        match_one-Matches c (pieces (d ∷ re)) (matchhere (d ∷ re)) (matchhere-Matches (d ∷ re))
          text)
]

-- The pieces match somewhere in the text.
abbrev pub Anywhere : List Piece → List ℕ → Type 0
Anywhere ps text = (before after : List ℕ) × (text ≡ before ++ after) × Matches ps after

match_from-here : (re text : List ℕ) → Matches (pieces re) text → match_from re text ≡ true
unfolding match_from
match_from-here re [] m = (matchhere-Matches re []).1 m
match_from-here re (t ∷ ts) m = ground (arith, (matchhere-Matches re (t ∷ ts)).1 m)

match_from-later :
    (re before after : List ℕ) → Matches (pieces re) after → match_from re (before ++ after) ≡ true
unfolding match_from
match_from-later re [] after m = match_from-here re after m
match_from-later re (t ∷ before) after m = ground (arith, match_from-later re before after m)

match_from-Anywhere : (re text : List ℕ) → match_from re text ≡ true → Anywhere (pieces re) text
unfolding match_from
match_from-Anywhere re [] e = ([], [], refl, (matchhere-Matches re []).0 e)
match_from-Anywhere re (t ∷ ts) e = elim (or_true (matchhere re (t ∷ ts)) _ e) [
  | inl now ↦ ([], t ∷ ts, refl, (matchhere-Matches re (t ∷ ts)).0 now)
  | inr later ↦
      let (before, after, split, m) = match_from-Anywhere re ts later in
      (t ∷ before, after, ap (◌∷◌ t) split, m)
]

match_from-Matches : (re text : List ℕ) → (match_from re text ≡ true) ↔ Anywhere (pieces re) text
match_from-Matches re text = (
  match_from-Anywhere re text,
  λ (before, after, split, m). rw split (match_from-later re before after m),
)

-- At the beginning of the text for an expression that begins with `^`, else anywhere.
abbrev pub Found : List ℕ → List ℕ → Type 0
Found [] text = Anywhere [] text
Found (c ∷ re) text =
    if c == b'^' then Matches (pieces re) text else Anywhere (pieces (c ∷ re)) text

-- `match` answers 1 exactly if the pieces of the expression match the text: at its beginning, for an
-- expression that begins with `^`, or somewhere in it, for any other.
pub match-Found : (re text : List ℕ) → (match re text ≡ true) ↔ Found re text
unfolding match pieces
match-Found [] text = match_from-Matches [] text
match-Found (c ∷ re) text = elim (Bool-cases (c == b'^')) [
  | inl anchored ↦ rw anchored (matchhere-Matches re text)
  | inr free ↦ rw free (match_from-Matches (c ∷ re) text)
]
