-- ===== src/Idempotency/Visits.antt =====
-- internal/idempotency/idempotency.go: when the order in which `GenerateFingerprint` visits the headers
-- does not matter.
use mathlib.Core.List.{Permᴰ}
use mathlib.Core.List.Permᴰ.{nil, cons, swap, trans}
use micro_coin.Base.{
  ◌≡◌, ◌∙◌, refl, sym, ap, Bool, true, false, Bool-cases, inl, inr, List, [], ◌∷◌, String, arith,
  if◌then◌else◌,
}
use micro_coin.Idempotency.{Hashing, is_critical, critical, generate_fingerprint}

-- No header takes part in the fingerprint, and at most one does.
abbrev pub none_critical : List (String × String) → Bool
none_critical [] = true
none_critical ((key, value) ∷ rest) = if is_critical key then false else none_critical rest

abbrev pub one_critical : List (String × String) → Bool
one_critical [] = true
one_critical ((key, value) ∷ rest) =
    if is_critical key then none_critical rest else one_critical rest

-- A `range` visits every header once.
abbrev pub IsVisit : (List (String × String) → List (String × String)) → Type 0
IsVisit visit = (headers : List (String × String)) → Permᴰ headers (visit headers)

critical_none :
    (hs : List (String × String)) (data_ : String)
    → none_critical hs ≡ true
    → critical hs data_ ≡ data_
critical_none [] data_ h = refl
critical_none ((key, value) ∷ hs) data_ h = ground (arith, h, critical_none hs data_)

one_of_none : (hs : List (String × String)) → none_critical hs ≡ true → one_critical hs ≡ true
one_of_none [] h = refl
one_of_none ((key, value) ∷ hs) h = ground (arith, h, one_of_none hs)

none_critical-Perm :
    {xs ys : List (String × String)} → Permᴰ xs ys → none_critical xs ≡ none_critical ys
none_critical-Perm nil = refl
none_critical-Perm (cons e p) = rw (e, none_critical-Perm p) refl
none_critical-Perm (swap {a = a} {b = b} e e') = rw (e, e') (ground arith)
none_critical-Perm (trans p q) = none_critical-Perm p ∙ none_critical-Perm q

one_critical-Perm :
    {xs ys : List (String × String)} → Permᴰ xs ys → one_critical xs ≡ one_critical ys
one_critical-Perm nil = refl
one_critical-Perm (cons e p) = rw (e, none_critical-Perm p, one_critical-Perm p) refl
one_critical-Perm (swap e e') = rw (e, e') (ground arith)
one_critical-Perm (trans p q) = one_critical-Perm p ∙ one_critical-Perm q

tail_one :
    (h : String × String) (hs : List (String × String))
    → one_critical (h ∷ hs) ≡ true
    → one_critical hs ≡ true
tail_one h hs e = elim (Bool-cases (is_critical h.0)) [
  | inl c ↦ one_of_none hs (ground (arith, c, e))
  | inr c ↦ ground (arith, c, e)
]

exchanged :
    (g h : String × String) (hs : List (String × String)) (data_ : String)
    → one_critical (g ∷ h ∷ hs) ≡ true
    → critical (g ∷ h ∷ hs) data_ ≡ critical (h ∷ g ∷ hs) data_
exchanged g h hs data_ e = elim (Bool-cases (is_critical g.0)) [
  | inl c ↦ elim (Bool-cases (is_critical h.0)) [
    | inl c' ↦ absurd (ground (arith, c, c', e))
    | inr c' ↦ rw (c, c') refl
  ]
  | inr c ↦ rw c refl
]

critical-Perm :
    {xs ys : List (String × String)}
    → Permᴰ xs ys
    → one_critical xs ≡ true
    → (data_ : String) → critical xs data_ ≡ critical ys data_
critical-Perm nil h data_ = refl
critical-Perm (cons {a = a} {l₁ = l₁} e p) h data_ = rw (← e) (critical-Perm p (tail_one a l₁ h) _)
critical-Perm (swap {a = a} {b = b} {l = l} e e') h data_ = rw (← e, ← e') (exchanged a b l data_ h)
critical-Perm (trans p q) h data_ =
    critical-Perm p h data_ ∙ critical-Perm q (sym (one_critical-Perm p) ∙ h) data_

-- With at most one of the two headers, two orders of the visits give the same fingerprint.
pub generate_fingerprint-IsVisit :
    (hash : Hashing) (visit : List (String × String) → List (String × String)) (body : String)
    (headers : List (String × String))
    → IsVisit hash.visit
    → IsVisit visit
    → one_critical headers ≡ true
    → generate_fingerprint hash body headers
      ≡ generate_fingerprint (record hash { visit = visit }) body headers
generate_fingerprint-IsVisit hash visit body headers p q one =
    ap hash.sum (sym (critical-Perm (p headers) one body) ∙ critical-Perm (q headers) one body)
