-- ===== src/Auth/Passwords.antt =====
-- internal/auth/auth.go: `HashPassword` and `VerifyPassword`. Argon2 is not part of the repository:
-- `id_key` takes the password, the salt, the rounds, the memory, the threads and the length of the key,
-- and `none` is its panic, when there are no rounds or no threads. `entropy n` is what `rand.Read`
-- fills n bytes with, or its failure.
pub mod Tests
pub mod Verify
use Prim.Native.String.{◌++◌ as concat}
use text.Mathlib.Text.{◌==◌ as str_eq}
use micro_coin.Base.{
  ℕ, suc, ◌+◌, ◌-◌, ◌%◌, ◌≡◌, Bool, true, false, ◌||◌, ◌&&◌, not, List, [], ◌∷◌, String, Option,
  none, some, ◌==◌, if◌then◌else◌, length,
}
use micro_coin.Base.Int.{ℤ, pos, negsuc}
use micro_coin.Database.World.{Result, ok, err, Error, driver, message}
use micro_coin.Auth.Base64.{encode_to_string, decode_string}
use micro_coin.Auth.Scan.{split, scan_int}

pub record Argon2idParams : Type 0 where
  pub memory : ℕ
  pub iterations : ℕ
  pub parallelism : ℕ
  pub salt_length : ℕ
  pub key_length : ℕ

abbrev pub memory : ℕ
memory = 65536

abbrev pub iterations : ℕ
iterations = 3

abbrev pub parallelism : ℕ
parallelism = 2

abbrev pub salt_length : ℕ
salt_length = 16

abbrev pub key_length : ℕ
key_length = 32

-- `argon2.Version` is 0x13.
abbrev pub version : ℤ
version = pos 19

-- `uint32(n)` and `uint8(n)`, for the modulus of the type.
abbrev pub to_unsigned : ℕ → ℤ → ℕ
to_unsigned modulus (pos n) = n % modulus
to_unsigned modulus (negsuc n) = modulus - suc (n % modulus)

abbrev pub same_int : ℤ → ℤ → Bool
same_int (pos m) (pos n) = m == n
same_int (negsuc m) (negsuc n) = m == n
same_int _ _ = false

abbrev pub same_bytes : List ℕ → List ℕ → Bool
same_bytes [] [] = true
same_bytes (a ∷ xs) (b ∷ ys) = a == b && same_bytes xs ys
same_bytes _ _ = false

-- `m=%d,t=%d,p=%d`
unfoldable pub scan_params : String → Option (ℕ × ℕ × ℕ)
scan_params s = elim (scan_int "m=" s) [
  | none ↦ none
  | some (m, s') ↦ elim (scan_int ",t=" s') [
    | none ↦ none
    | some (t, s'') ↦ elim (scan_int ",p=" s'') [
      | none ↦ none
      | some (p, rest) ↦
          some (to_unsigned 4294967296 m, to_unsigned 4294967296 t, to_unsigned 256 p)
    ]
  ]
]

-- From the version on: the four parts behind "$argon2id$".
unfoldable pub decode_parts :
    String → String → String → String → Result (Argon2idParams × List ℕ × List ℕ)
unfolding scan_params
decode_parts numbered params salt hash = elim (scan_int "v=" numbered) [
  | none ↦ err driver
  | some (v, rest) ↦
      if not (same_int v version)
      then err (message "incompatible version")
      else elim (scan_params params) [
        | none ↦ err driver
        | some (m, t, p) ↦ elim (decode_string salt) [
          | none ↦ err driver
          | some salt_bytes ↦ elim (decode_string hash) [
            | none ↦ err driver
            | some hash_bytes ↦ ok (
              record {
                memory = m;
                iterations = t;
                parallelism = p;
                salt_length = length salt_bytes % 4294967296;
                key_length = length hash_bytes % 4294967296;
              },
              salt_bytes,
              hash_bytes,
            )
          ]
        ]
      ]
]

-- The errors of Sscanf and of base64 are `driver`.
unfoldable pub decode_hash : String → Result (Argon2idParams × List ℕ × List ℕ)
unfolding decode_parts
decode_hash encoded_hash = elim (split 36 encoded_hash) [
  | start ∷ name ∷ numbered ∷ params ∷ salt ∷ hash ∷ [] ↦
      if not (str_eq start "") || not (str_eq name "argon2id")
      then err (message "invalid hash format")
      else decode_parts numbered params salt hash
  | _ ↦ err (message "invalid hash format")
]

module _ (id_key : String → List ℕ → ℕ → ℕ → ℕ → ℕ → Option (List ℕ)) where
  -- A panic is `none`.
  unfoldable pub hash_password : (ℕ → Option (List ℕ)) → String → Option (Result String)
  hash_password entropy password = elim (entropy salt_length) [
    | none ↦ some (err driver)
    | some salt ↦ elim (id_key password salt iterations memory parallelism key_length) [
      | none ↦ none
      | some hash ↦ some (
          ok (
            concat "$argon2id$v=19$m=65536,t=3,p=2$"
              (concat (encode_to_string salt) (concat "$" (encode_to_string hash)))))
    ]
  ]

  unfoldable pub verify_password : String → String → Option (Result Bool)
  unfolding decode_hash
  verify_password password encoded_hash = elim (decode_hash encoded_hash) [
    | err e ↦ some (err e)
    | ok (p, salt, hash) ↦
        elim (id_key password salt p.iterations p.memory p.parallelism p.key_length) [
          | none ↦ none
          | some other_hash ↦ some (ok (same_bytes hash other_hash))
        ]
  ]
