-- ===== src/Auth/Base64.antt =====
-- `base64.RawStdEncoding`, as internal/auth/auth.go uses it. Bytes are numbers below 256.
pub mod RoundTrip
use Prim.Native.Char.{code}
use Prim.Native.String.{◌++◌ as concat}
use micro_coin.Base.{
  ℕ, zero, suc, ◌+◌, ◌*◌, ◌/◌, ◌%◌, ◌||◌, List, [], ◌∷◌, String, Option, none, some, ◌==◌,
  if◌then◌else◌,
}

abbrev pub alphabet : String
alphabet = "ABCDEFGHIJKLMNOPQRSTUVWXYZabcdefghijklmnopqrstuvwxyz0123456789+/"

abbrev pub letter_of : String → ℕ → String
letter_of String.[] i = ""
letter_of (String.◌∷◌ c s) zero = String.◌∷◌ c ""
letter_of (String.◌∷◌ c s) (suc i) = letter_of s i

-- The place of a character of the given code.
abbrev pub place_of : ℕ → String → Option ℕ
place_of k String.[] = none
place_of k (String.◌∷◌ c s) =
    if code c == k then some 0 else elim (place_of k s) [ none ↦ none | some i ↦ some (suc i) ]

abbrev pub digit : ℕ → String
digit = letter_of alphabet

unfoldable pub encode_to_string : List ℕ → String
encode_to_string [] = ""
encode_to_string (a ∷ []) = concat (digit (a / 4)) (digit (a % 4 * 16))
encode_to_string (a ∷ b ∷ []) =
    concat (digit (a / 4)) (concat (digit (a % 4 * 16 + b / 16)) (digit (b % 16 * 4)))
encode_to_string (a ∷ b ∷ c ∷ rest) = concat (digit (a / 4)) (
    concat (digit (a % 4 * 16 + b / 16))
      (concat (digit (b % 16 * 4 + c / 64)) (concat (digit (c % 64)) (encode_to_string rest))))

-- The digits of a text; line ends are passed over.
abbrev pub digits_of : String → Option (List ℕ)
digits_of String.[] = some []
digits_of (String.◌∷◌ c s) = elim (digits_of s) [
  | none ↦ none
  | some ds ↦
      if code c == 10 || code c == 13
      then some ds
      else elim (place_of (code c) alphabet) [ none ↦ none | some d ↦ some (d ∷ ds) ]
]

-- Bits past the last byte are ignored.
abbrev pub bytes_of : List ℕ → Option (List ℕ)
bytes_of [] = some []
bytes_of (x ∷ []) = none
bytes_of (x ∷ y ∷ []) = some ((x * 4 + y / 16) ∷ [])
bytes_of (x ∷ y ∷ z ∷ []) = some ((x * 4 + y / 16) ∷ (y % 16 * 16 + z / 4) ∷ [])
bytes_of (x ∷ y ∷ z ∷ t ∷ rest) = elim (bytes_of rest) [
  | none ↦ none
  | some bs ↦ some ((x * 4 + y / 16) ∷ (y % 16 * 16 + z / 4) ∷ (z % 4 * 64 + t) ∷ bs)
]

unfoldable pub decode_string : String → Option (List ℕ)
decode_string s = elim (digits_of s) [ none ↦ none | some ds ↦ bytes_of ds ]
