-- ===== src/Auth/Base64/RoundTrip.antt =====
-- Base64 read back: the 64 characters one by one, then the three shapes of a last group.
use Prim.Native.Char.{Char, code}
use Prim.Native.String.{◌++◌ as concat}
use mathlib.Core.Path.{◌∙◌}
use micro_coin.Base.{
  ℕ, zero, suc, ◌+◌, ◌*◌, ◌/◌, ◌%◌, ◌<◌, ◌≡◌, refl, ◌&&◌, ◌||◌, not, Bool, true, false, List, [],
  ◌∷◌, String, Option, none, some, ◌==◌, arith, All, inl, inr, ℕ-cases, Option-cases,
}
use micro_coin.Base.Text.{in_front, lacks}
use micro_coin.Auth.Base64.{
  digit, place_of, alphabet, digits_of, bytes_of, encode_to_string, decode_string,
}

-- A Boolean test of every number below a bound.
abbrev all_below : (ℕ → Bool) → ℕ → Bool
all_below p zero = true
all_below p (suc n) = p n && all_below p n

all_below-at : (p : ℕ → Bool) (n d : ℕ) → all_below p n ≡ true → d < n → p d ≡ true
all_below-at p zero d h q = absurd (omega arith)
all_below-at p (suc n) d h q = elim (ℕ-cases d n) [
  | inl e ↦ rw e (ground arith)
  | inr e ↦ all_below-at p n d (ground arith) (ground arith)
]

abbrev is_place : ℕ → Option ℕ → Bool
is_place d none = false
is_place d (some e) = d == e

-- The digit is one character, neither a line end nor a dollar sign, found at its own place.
abbrev is_letter : ℕ → String → Bool
is_letter d String.[] = false
is_letter d (String.◌∷◌ c String.[]) =
    not (code c == 10 || code c == 13)
    && not (code c == 36)
    && is_place d (place_of (code c) alphabet)
is_letter d (String.◌∷◌ c (String.◌∷◌ c' s)) = false

letters : all_below (λ d. is_letter d (digit d)) 64 ≡ true
letters = refl

abbrev Letter : ℕ → String → Type 0
Letter d s =
    (c : Char) × (s ≡ String.◌∷◌ c String.[])
    × ((code c == 10 || code c == 13) ≡ false)
    × ((code c == 36) ≡ false)
    × (place_of (code c) alphabet ≡ some d)

is_place-some : (d : ℕ) (o : Option ℕ) → is_place d o ≡ true → o ≡ some d
is_place-some d none h = cc
is_place-some d (some e) h = ground arith

tests-true : (a b c : Bool) → (not a && not b && c) ≡ true → (a ≡ false) × (b ≡ false) × (c ≡ true)
tests-true a b c h = ground arith

is_letter-Letter : (d : ℕ) (s : String) → is_letter d s ≡ true → Letter d s
is_letter-Letter d String.[] h = cc
is_letter-Letter d (String.◌∷◌ c String.[]) h =
    let (line, dollar, place) =
      tests-true (code c == 10 || code c == 13) (code c == 36)
        (is_place d (place_of (code c) alphabet)) h in
    (c, refl, line, dollar, is_place-some d (place_of (code c) alphabet) place)
is_letter-Letter d (String.◌∷◌ c (String.◌∷◌ c' s)) h = cc

digit-Letter : (d : ℕ) → d < 64 → Letter d (digit d)
digit-Letter d h =
    is_letter-Letter d (digit d) (all_below-at (λ e. is_letter e (digit e)) 64 d letters h)

-- What a text of digits in front of a text is read as.
abbrev onto : ℕ → Option (List ℕ) → Option (List ℕ)
onto d none = none
onto d (some ds) = some (d ∷ ds)

digits_of-cons :
    (d : ℕ) (c : Char) (rest : String)
    → (code c == 10 || code c == 13) ≡ false
    → place_of (code c) alphabet ≡ some d
    → digits_of (String.◌∷◌ c rest) ≡ onto d (digits_of rest)
digits_of-cons d c rest line place = elim (Option-cases (digits_of rest)) [
  | inl h ↦ rw (h) refl
  | inr (ds, h) ↦ rw (h, line, place) refl
]

digits_of-Letter :
    (d : ℕ) (s rest : String) → Letter d s → digits_of (concat s rest) ≡ onto d (digits_of rest)
digits_of-Letter d s rest (c, e, line, dollar, place) =
    rw (e, in_front c rest) (digits_of-cons d c rest line place)

digits_of-digit :
    (d : ℕ) (rest : String) (ds : List ℕ)
    → d < 64
    → digits_of rest ≡ some ds
    → digits_of (concat (digit d) rest) ≡ some (d ∷ ds)
digits_of-digit d rest ds h e = rw (digits_of-Letter d (digit d) rest (digit-Letter d h), e) refl

digits_of-last : (d : ℕ) → d < 64 → digits_of (digit d) ≡ some (d ∷ [])
digits_of-last d h =
    let (c, e, line, dollar, place) = digit-Letter d h in
    rw e (digits_of-cons d c String.[] line place)

-- A byte.
abbrev pub IsByte : ℕ → Type 0
IsByte b = b < 256

-- The numbers that an encoding writes as characters.
abbrev groups : List ℕ → List ℕ
groups [] = []
groups (a ∷ []) = (a / 4) ∷ (a % 4 * 16) ∷ []
groups (a ∷ b ∷ []) = (a / 4) ∷ (a % 4 * 16 + b / 16) ∷ (b % 16 * 4) ∷ []
groups (a ∷ b ∷ c ∷ rest) =
    (a / 4) ∷ (a % 4 * 16 + b / 16) ∷ (b % 16 * 4 + c / 64) ∷ (c % 64) ∷ groups rest

digits_of-encode :
    (bs : List ℕ) → All IsByte bs → digits_of (encode_to_string bs) ≡ some (groups bs)
unfolding encode_to_string
digits_of-encode [] h = refl
digits_of-encode (a ∷ []) h =
    digits_of-digit (a / 4) _ _ (omega arith) (digits_of-last (a % 4 * 16) (omega arith))
digits_of-encode (a ∷ b ∷ []) h = digits_of-digit (a / 4) _ _ (omega arith) (
    digits_of-digit (a % 4 * 16 + b / 16) _ _ (omega arith)
      (digits_of-last (b % 16 * 4) (omega arith)))
digits_of-encode (a ∷ b ∷ c ∷ rest) h = digits_of-digit (a / 4) _ _ (omega arith) (
    digits_of-digit (a % 4 * 16 + b / 16) _ _ (omega arith) (
      digits_of-digit (b % 16 * 4 + c / 64) _ _ (omega arith)
        (digits_of-digit (c % 64) _ _ (omega arith) (digits_of-encode rest h.1.1.1))))

bytes_of-groups : (bs : List ℕ) → All IsByte bs → bytes_of (groups bs) ≡ some bs
bytes_of-groups [] h = refl
bytes_of-groups (a ∷ []) h = ground arith
bytes_of-groups (a ∷ b ∷ []) h = ground arith
bytes_of-groups (a ∷ b ∷ c ∷ rest) h = ground (arith, bytes_of-groups rest h.1.1.1)

-- A list of bytes is read back from its base64.
pub decode_string-encode_to_string :
    (bs : List ℕ) → All IsByte bs → decode_string (encode_to_string bs) ≡ some bs
unfolding decode_string
decode_string-encode_to_string bs h =
    rw (decode_string, digits_of-encode bs h) (bytes_of-groups bs h)

lacks-digit : (d : ℕ) (rest : String) → d < 64 → lacks 36 (concat (digit d) rest) ≡ lacks 36 rest
lacks-digit d rest h =
    let (c, e, line, dollar, place) = digit-Letter d h in rw (e, in_front c rest, dollar) refl

lacks-last : (d : ℕ) → d < 64 → lacks 36 (digit d) ≡ true
lacks-last d h = let (c, e, line, dollar, place) = digit-Letter d h in rw (e, dollar) refl

pub lacks-encode_to_string : (bs : List ℕ) → All IsByte bs → lacks 36 (encode_to_string bs) ≡ true
unfolding encode_to_string
lacks-encode_to_string [] h = refl
lacks-encode_to_string (a ∷ []) h =
    rw (lacks-digit (a / 4) (digit (a % 4 * 16)) (omega arith))
      (lacks-last (a % 4 * 16) (omega arith))
lacks-encode_to_string (a ∷ b ∷ []) h =
    rw
      (
        lacks-digit (a / 4) (concat (digit (a % 4 * 16 + b / 16)) (digit (b % 16 * 4)))
            (omega arith),
        lacks-digit (a % 4 * 16 + b / 16) (digit (b % 16 * 4)) (omega arith),
      )
      (lacks-last (b % 16 * 4) (omega arith))
lacks-encode_to_string (a ∷ b ∷ c ∷ rest) h =
    lacks-digit (a / 4) _ (omega arith)
    ∙ lacks-digit (a % 4 * 16 + b / 16) _ (omega arith)
    ∙ lacks-digit (b % 16 * 4 + c / 64) _ (omega arith)
    ∙ lacks-digit (c % 64) _ (omega arith)
    ∙ lacks-encode_to_string rest h.1.1.1
