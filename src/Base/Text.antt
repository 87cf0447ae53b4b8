-- ===== src/Base/Text.antt =====
-- Texts compared by characters, and appended.
use text.Mathlib.Text.{◌==◌, is_eq}
use text.Mathlib.TextPositions.{compare_refl}
use mathlib.Core.Path.{◌≡◌, ◌∙◌, ap}
use mathlib.Core.Bool.{Bool, true, ◌&&◌, not}
use Prim.Native.Nat.{ℕ, compare}
use Prim.Native.Char.{Char, code}
use Prim.Native.String.{String, ◌++◌ as concat}
use Prim.Native.String.append
use native.Mathlib.Omega.{arith}

pub str_eq_refl : (s : String) → (s == s) ≡ true
str_eq_refl s = ground (arith, compare_refl s)

pub in_front : (c : Char) (rest : String) → concat (String.◌∷◌ c String.[]) rest ≡ String.◌∷◌ c rest
in_front c rest = append.cons c String.[] rest ∙ ap (λ t. String.◌∷◌ c t) (append.nil rest)

-- Whether a text is without the character of a code.
abbrev pub lacks : ℕ → String → Bool
lacks k String.[] = true
lacks k (String.◌∷◌ c s) = not (is_eq (compare (code c) k)) && lacks k s
