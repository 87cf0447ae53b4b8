-- ===== src/Http/Text.antt =====
-- What the code uses of the package strings.
use Prim.Native.Char.{Char, code}
use Prim.Native.String.{◌++◌ as concat}
use Prim.Native.String.append
use micro_coin.Base.{
  sym, ◌∙◌, Bool-cases, Option-cases, inl, inr, ℕ, ◌≡◌, ap, List, [], ◌∷◌, String, Option, none,
  some, ◌==◌, if◌then◌else◌, arith,
}

-- The text before and after the first character of the given code, if it has one.
abbrev pub cut : ℕ → String → Option (String × String)
cut c String.[] = none
cut c (String.◌∷◌ d s) =
    if code d == c
    then some ("", s)
    else elim (cut c s) [ none ↦ none | some (before, rest) ↦ some (String.◌∷◌ d before, rest) ]

-- `strings.SplitN(s, sep, 2)` for a separator of one character.
abbrev pub split_two : ℕ → String → List String
split_two c s = elim (cut c s) [ none ↦ s ∷ [] | some (before, rest) ↦ before ∷ rest ∷ [] ]

-- A cut leaves out one character of the code.
pub cut_lem :
    (c : ℕ) (s before rest : String)
    → cut c s ≡ some (before, rest)
    → (d : Char) × (code d ≡ c) × (s ≡ concat before (String.◌∷◌ d rest))
cut_lem c String.[] before rest h = cc
cut_lem c (String.◌∷◌ d s) before rest h = elim (Bool-cases (code d == c)) [
  | inl e ↦
      let eb : before ≡ "" = ground arith in
      let er : rest ≡ s = ground arith in
      (d, ground arith, rw (eb, er) (sym (append.nil (String.◌∷◌ d s))))
  | inr e ↦ elim (Option-cases (cut c s)) [
    | inl missing ↦ absurd (ground arith)
    | inr ((b, r), found) ↦
        let (x, same, whole) = cut_lem c s b r found in
        let eb : before ≡ String.◌∷◌ d b = ground arith in
        let er : rest ≡ r = ground arith in
        (
          x,
          same,
          rw (eb, er) (ap (λ t. String.◌∷◌ d t) whole ∙ sym (append.cons d b (String.◌∷◌ x r))),
        )
  ]
]
