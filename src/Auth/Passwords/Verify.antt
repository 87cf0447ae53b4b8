-- ===== src/Auth/Passwords/Verify.antt =====
-- A stored hash, taken apart again by `decodeHash`.
use Prim.Native.Char.{Char, code}
use Prim.Native.String.{◌++◌ as concat}
use Prim.Native.String.append
use text.Mathlib.TextLemmas.{append_assoc}
use micro_coin.Base.Text.{in_front, lacks}
use micro_coin.Base.{
  ℕ, ◌%◌, ◌≡◌, refl, ap, ◌∙◌, true, false, List, [], ◌∷◌, String, Option, none, some, arith, All,
  length, ◌==◌, Bool-cases, inl, inr, false, Bool, ==_refl,
}
use micro_coin.Database.World.{Result, ok}
use micro_coin.Auth.Base64.{encode_to_string, decode_string}
use micro_coin.Auth.Base64.RoundTrip.{
  IsByte, decode_string-encode_to_string, lacks-encode_to_string,
}
use micro_coin.Auth.Scan.{split}
use micro_coin.Auth.Passwords.{
  Argon2idParams, decode_hash, decode_parts, hash_password, verify_password, same_bytes,
  salt_length, key_length, iterations, memory, parallelism,
}

split_cons : (s : String) → (part : String) × (parts : List String) × (split 36 s ≡ part ∷ parts)
split_cons String.[] = ("", [], refl)
split_cons (String.◌∷◌ c s) =
    let (part, parts, e) = split_cons s in
    elim (Bool-cases (code c == 36)) [
      | inl h ↦ ("", part ∷ parts, rw (e, h) refl)
      | inr h ↦ (String.◌∷◌ c part, parts, rw (e, h) refl)
    ]

split-at : (s : String) → split 36 (concat "$" s) ≡ "" ∷ split 36 s
split-at s = let (part, parts, e) = split_cons s in rw (in_front "$" s, e) refl

split-letter :
    (c : Char) (s part : String) (parts : List String)
    → (code c == 36) ≡ false
    → split 36 s ≡ part ∷ parts
    → split 36 (String.◌∷◌ c s) ≡ String.◌∷◌ c part ∷ parts
split-letter c s part parts h e = rw (e, h) refl

split-lacks : (s : String) → lacks 36 s ≡ true → split 36 s ≡ s ∷ []
split-lacks String.[] h = refl
split-lacks (String.◌∷◌ c s) h = split-letter c s s [] (ground arith) (split-lacks s (ground arith))

split-part :
    (s t : String) → lacks 36 s ≡ true → split 36 (concat s (concat "$" t)) ≡ s ∷ split 36 t
split-part String.[] t h = rw (append.nil (concat "$" t)) (split-at t)
split-part (String.◌∷◌ c s) t h = rw (append.cons c s (concat "$" t)) (
    split-letter c (concat s (concat "$" t)) s (split 36 t) (ground arith)
      (split-part s t (ground arith)))

-- The parts of what `HashPassword` writes.
abbrev stored : String → String → String
stored salt hash = concat "$argon2id$v=19$m=65536,t=3,p=2$" (concat salt (concat "$" hash))

peel : (s t u rest : String) → concat t u ≡ rest → concat (concat s t) u ≡ concat s rest
peel s t u rest e = append_assoc s t u ∙ ap (λ x. concat s x) e

stored-parts :
    (salt hash : String)
    → stored salt hash
      ≡ concat "" (
          concat "$" (
            concat "argon2id" (
              concat "$" (
                concat "v=19" (
                  concat "$"
                    (concat "m=65536,t=3,p=2" (concat "$" (concat salt (concat "$" hash)))))))))
stored-parts salt hash =
    let tail = concat salt (concat "$" hash) in
    peel "" "$argon2id$v=19$m=65536,t=3,p=2$" tail _ (
      peel "$" "argon2id$v=19$m=65536,t=3,p=2$" tail _ (
        peel "argon2id" "$v=19$m=65536,t=3,p=2$" tail _ (
          peel "$" "v=19$m=65536,t=3,p=2$" tail _ (
            peel "v=19" "$m=65536,t=3,p=2$" tail _
              (peel "$" "m=65536,t=3,p=2$" tail _ (peel "m=65536,t=3,p=2" "$" tail _ refl))))))

split-stored :
    (salt hash : String)
    → lacks 36 salt ≡ true
    → lacks 36 hash ≡ true
    → split 36 (stored salt hash) ≡ "" ∷ "argon2id" ∷ "v=19" ∷ "m=65536,t=3,p=2" ∷ salt ∷ hash ∷ []
split-stored salt hash hs hh =
    rw
      (
        stored-parts salt hash,
        split-part "" _ refl,
        split-part "argon2id" _ refl,
        split-part "v=19" _ refl,
        split-part "m=65536,t=3,p=2" _ refl,
        split-part salt hash hs,
        split-lacks hash hh,
      )
      refl

-- What `decodeHash` reads from it.
abbrev params_of : List ℕ → List ℕ → Argon2idParams
params_of salt hash = record {
  memory = 65536;
  iterations = 3;
  parallelism = 2;
  salt_length = length salt % 4294967296;
  key_length = length hash % 4294967296;
}

decode_parts-read :
    (s h : String) (salt hash : List ℕ)
    → decode_string s ≡ some salt
    → decode_string h ≡ some hash
    → decode_parts "v=19" "m=65536,t=3,p=2" s h ≡ ok (params_of salt hash, salt, hash)
unfolding decode_parts
decode_parts-read s h salt hash es eh = rw (decode_parts, es, eh) refl

pub decode_hash-stored :
    (salt hash : List ℕ)
    → All IsByte salt
    → All IsByte hash
    → decode_hash (stored (encode_to_string salt) (encode_to_string hash))
      ≡ ok (params_of salt hash, salt, hash)
unfolding decode_hash
decode_hash-stored salt hash hs hh =
    rw
      (
        decode_hash,
        split-stored (encode_to_string salt) (encode_to_string hash)
            (lacks-encode_to_string salt hs) (lacks-encode_to_string hash hh),
      )
      (decode_parts-read _ _ salt hash (decode_string-encode_to_string salt hs)
        (decode_string-encode_to_string hash hh))

same_bytes_refl : (xs : List ℕ) → same_bytes xs xs ≡ true
same_bytes_refl [] = refl
same_bytes_refl (x ∷ xs) = rw (==_refl x) (same_bytes_refl xs)

module _ (id_key : String → List ℕ → ℕ → ℕ → ℕ → ℕ → Option (List ℕ)) where
  -- A password against what is stored: its key with the stored salt is compared.
  pub verify_password-stored :
      (password : String) (salt hash : List ℕ)
      → All IsByte salt
      → All IsByte hash
      → length hash ≡ key_length
      → verify_password id_key password (stored (encode_to_string salt) (encode_to_string hash))
        ≡ elim (id_key password salt iterations memory parallelism key_length)
            as (λ _. Option (Result Bool)) [
              | none ↦ none
              | some key ↦ some (ok (same_bytes hash key))
            ]
  unfolding verify_password
  verify_password-stored password salt hash hs hh size =
      rw (verify_password, decode_hash-stored salt hash hs hh, size) refl

  -- A password is hashed with the salt that the random source gives. What is stored is accepted with
  -- that password, and with any other password exactly when Argon2 makes the same key of the two; this
  -- is so if the salt and the keys are bytes and the stored key has the length that was asked for.
  pub verify_password-hash_password :
      (entropy : ℕ → Option (List ℕ)) (password other : String) (salt hash key : List ℕ)
      → entropy salt_length ≡ some salt
      → id_key password salt iterations memory parallelism key_length ≡ some hash
      → id_key other salt iterations memory parallelism key_length ≡ some key
      → All IsByte salt
      → All IsByte hash
      → length hash ≡ key_length
      → (text : String) × (hash_password id_key entropy password ≡ some (ok text))
        × (verify_password id_key password text ≡ some (ok true))
        × (verify_password id_key other text ≡ some (ok (same_bytes hash key)))
  unfolding hash_password
  verify_password-hash_password entropy password other salt hash key es eh ek hs hh size = (
    stored (encode_to_string salt) (encode_to_string hash),
    rw (hash_password, es, eh) refl,
    verify_password-stored password salt hash hs hh size ∙ rw (eh, same_bytes_refl hash) refl,
    verify_password-stored other salt hash hs hh size ∙ rw ek refl,
  )
