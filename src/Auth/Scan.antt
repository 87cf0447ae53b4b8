-- ===== src/Auth/Scan.antt =====
-- `strings.Split` at one character and the `fmt.Sscanf` of internal/auth/auth.go. Of the white space
-- that `%d` skips, this is the ASCII part.
use Prim.Native.Char.{code}
use micro_coin.Base.{
  ℕ, zero, suc, ◌+◌, ◌-◌, ◌*◌, Bool, true, false, ◌||◌, ◌&&◌, List, [], ◌∷◌, String, Option, none,
  some, ◌==◌, leb, ltb, if◌then◌else◌,
}
use micro_coin.Base.Int.{ℤ, pos, negsuc}

abbrev pub split : ℕ → String → List String
split c String.[] = "" ∷ []
split c (String.◌∷◌ d s) = elim (split c s) [
  | [] ↦ []
  | part ∷ parts ↦ if code d == c then "" ∷ part ∷ parts else String.◌∷◌ d part ∷ parts
]

-- What follows a literal of the format.
abbrev pub after_literal : String → String → Option String
after_literal String.[] s = some s
after_literal (String.◌∷◌ c l) String.[] = none
after_literal (String.◌∷◌ c l) (String.◌∷◌ d s) =
    if code c == code d then after_literal l s else none

-- A line end before a number is refused.
abbrev pub skip_space : String → String
skip_space String.[] = ""
skip_space (String.◌∷◌ c s) =
    if code c == 32 || code c == 9 || code c == 11 || code c == 12
    then skip_space s
    else String.◌∷◌ c s

abbrev pub is_digit : ℕ → Bool
is_digit k = leb 48 k && leb k 57

-- The digits at the front: the number read so far, with whether there is one, and the rest.
abbrev pub scan_digits : String → ℕ → Bool → Option (ℕ × String)
scan_digits String.[] n seen = if seen then some (n, "") else none
scan_digits (String.◌∷◌ c s) n seen =
    let more = scan_digits s (n * 10 + (code c - 48)) true in
    if is_digit (code c) then more else if seen then some (n, String.◌∷◌ c s) else none

-- An `int` of 64 bits.
abbrev pub signed : Bool → ℕ × String → Option (ℤ × String)
signed false (n, rest) = if ltb n 9223372036854775808 then some (pos n, rest) else none
signed true (zero, rest) = some (pos 0, rest)
signed true (suc n, rest) = if ltb n 9223372036854775808 then some (negsuc n, rest) else none

abbrev pub with_sign : String → Option (ℤ × String)
with_sign String.[] = none
with_sign (String.◌∷◌ c s) =
    let unsigned = scan_digits (String.◌∷◌ c s) 0 false in
    if code c == 45
    then elim (scan_digits s 0 false) [ none ↦ none | some p ↦ signed true p ]
    else if code c == 43
    then elim (scan_digits s 0 false) [ none ↦ none | some p ↦ signed false p ]
    else elim unsigned [ none ↦ none | some p ↦ signed false p ]

-- A literal and a `%d`.
abbrev pub scan_int : String → String → Option (ℤ × String)
scan_int literal s = elim (after_literal literal s) [
  | none ↦ none
  | some rest ↦ with_sign (skip_space rest)
]
