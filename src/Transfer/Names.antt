-- ===== src/Transfer/Names.antt =====
-- The names of files in packages/operations/src/transfer-grants.ts.
use trust_core.Common.{
  Bool-cases, string_eq, number_eq, option_eq, length, all, ℕ, zero, suc, ◌≤◌, ◌≡◌, refl, ap, ◌∙◌,
  inl, inr, true, List, [], ◌∷◌, arith,
}
use trust_core.Transfer.{sanitize_file_name, is_name_char, replace_runs, first_of}

underscore-safe : is_name_char b'_' ≡ true
unfolding is_name_char
underscore-safe = refl

replaced-safe : (cs : List ℕ) → all is_name_char (replace_runs cs).1 ≡ true
replaced-safe [] = refl
replaced-safe (c ∷ cs) = elim (Bool-cases (is_name_char c)) [
  | inl is ↦ ground (arith, is, replaced-safe cs)
  | inr other ↦ elim (Bool-cases (replace_runs cs).0) [
    | inl run ↦ ground (arith, other, run, replaced-safe cs)
    | inr new ↦ ground (arith, other, new, underscore-safe, replaced-safe cs)
  ]
]

first_of-safe :
    (n : ℕ) (cs : List ℕ) → all is_name_char cs ≡ true → all is_name_char (first_of n cs) ≡ true
first_of-safe zero cs h = refl
first_of-safe (suc n) [] h = refl
first_of-safe (suc n) (c ∷ cs) h = ground (arith, h, first_of-safe n cs)

first_of-length : (n : ℕ) (cs : List ℕ) → length (first_of n cs) ≤ n
first_of-length zero cs = omega arith
first_of-length (suc n) [] = omega arith
first_of-length (suc n) (c ∷ cs) = omega (arith, first_of-length n cs)

first_of-all : (n : ℕ) (cs : List ℕ) → length cs ≤ n → first_of n cs ≡ cs
first_of-all zero [] h = refl
first_of-all zero (c ∷ cs) h = absurd (omega (arith, h))
first_of-all (suc n) [] h = refl
first_of-all (suc n) (c ∷ cs) h = ap (λ l. c ∷ l) (first_of-all n cs (omega (arith, h)))

replaced_same : (cs : List ℕ) → all is_name_char cs ≡ true → (replace_runs cs).1 ≡ cs
replaced_same [] h = refl
replaced_same (c ∷ cs) h = ground (arith, h, replaced_same cs)

sanitize_file_name_same :
    (name : List ℕ)
    → all is_name_char name ≡ true
    → length name ≤ 180
    → sanitize_file_name name ≡ name
unfolding sanitize_file_name
sanitize_file_name_same name safe short =
    ap (first_of 180) (replaced_same name safe) ∙ first_of-all 180 name short

-- A sanitized name of a file has none but letters, digits, spaces and the marks _ . - ( ) [ ], has
-- at most 180 characters, and stays the same when it is sanitized again.
pub sanitize_file_name-safe :
    (name : List ℕ)
    → (all is_name_char (sanitize_file_name name) ≡ true)
      × (length (sanitize_file_name name) ≤ 180)
      × (sanitize_file_name (sanitize_file_name name) ≡ sanitize_file_name name)
unfolding sanitize_file_name
sanitize_file_name-safe name =
    let safe = first_of-safe 180 (replace_runs name).1 (replaced-safe name) in
    let short = first_of-length 180 (replace_runs name).1 in
    (safe, short, sanitize_file_name_same (sanitize_file_name name) safe short)
