-- ===== src/Auth/Passwords/Tests.antt =====
-- A stored hash and its reading, with a toy in the place of Argon2.
use text.Mathlib.Text.{◌==◌ as str_eq}
use micro_coin.Base.{
  if◌then◌else◌, none, arith, ℕ, ◌≡◌, refl, true, drop, ◌++◌, ◌==◌, List, [], ◌∷◌, String, Option,
  some, take,
}
use micro_coin.Database.World.{ok}
use micro_coin.Auth.Base64.{encode_to_string, decode_string}
use micro_coin.Auth.Passwords.{hash_password, verify_password, same_bytes}
use micro_coin.Auth.Passwords.Verify.{verify_password-hash_password}

-- The salt, again.
abbrev toy : String → List ℕ → ℕ → ℕ → ℕ → ℕ → Option (List ℕ)
toy password salt rounds space threads size = some (take size salt)

abbrev salt : List ℕ
salt = 1 ∷ 255 ∷ 77 ∷ 0 ∷ []

salt_read : decode_string (encode_to_string salt) ≡ some salt
unfolding decode_string encode_to_string
salt_read = refl

hash_made :
    hash_password toy (λ n. some salt) "secret"
    ≡ some (ok "$argon2id$v=19$m=65536,t=3,p=2$Af9NAA$Af9NAA")
unfolding hash_password encode_to_string
hash_made = refl

password_verified :
    verify_password toy "secret" "$argon2id$v=19$m=65536,t=3,p=2$Af9NAA$Af9NAA" ≡ some (ok true)
unfolding verify_password decode_string
password_verified = refl

-- Sixteen bytes.
abbrev pub random_bytes : List ℕ
random_bytes = 1 ∷ 2 ∷ 3 ∷ 4 ∷ 5 ∷ 6 ∷ 7 ∷ 8 ∷ 9 ∷ 10 ∷ 11 ∷ 12 ∷ 13 ∷ 14 ∷ 15 ∷ 255 ∷ []

abbrev pub entropy : ℕ → Option (List ℕ)
entropy n = if n == 16 then some random_bytes else none

-- Two keys of 32 bytes.
abbrev pub key : List ℕ
key = random_bytes ++ random_bytes

abbrev pub other_key : List ℕ
other_key = random_bytes ++ 9 ∷ drop 1 random_bytes

abbrev pub two_keys : String → List ℕ → ℕ → ℕ → ℕ → ℕ → Option (List ℕ)
two_keys password used rounds space threads size =
    some (if str_eq password "secret" then key else other_key)

verify_password-hash_password_example :
    (text : String) × (hash_password two_keys entropy "secret" ≡ some (ok text))
    × (verify_password two_keys "secret" text ≡ some (ok true))
    × (verify_password two_keys "guess" text ≡ some (ok (same_bytes key other_key)))
verify_password-hash_password_example =
    verify_password-hash_password two_keys entropy "secret" "guess" random_bytes key other_key refl
      refl refl (omega arith) (omega arith) refl
