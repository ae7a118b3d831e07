-- ===== src/Storage/Keys/Unique.antt =====
-- The keys of packages/storage/src/keys.ts tell workspaces and digests apart.
use trust_core.Common.{
  codes-inj, is_hex_text-all, codes-append, string_eq, number_eq, option_eq, all, codes, is_hex,
  is_hex_text, ok, ℕ, String, ◌≡◌, refl, sym, ap, ◌∙◌, true, List, [], ◌∷◌, ◌++◌, arith,
}
use Prim.Native.Char.{code}
use Prim.Native.String.{◌++◌ as text_append}
use trust_core.Storage.Keys.{
  is_safe, is_safe_id, is_safe_list, span_safe, canonical_object_key, first_two, object_path,
}
use trust_core.Storage.Keys.Apart.{span_safe-append}

same_tail : (c : ℕ) (xs ys : List ℕ) → c ∷ xs ≡ c ∷ ys → xs ≡ ys
same_tail c xs ys h = cc

-- What stands before the first slash, and what stands after it.
safe_split :
    (cs ds xs ys : List ℕ)
    → all is_safe cs ≡ true
    → all is_safe ds ≡ true
    → cs ++ b'/' ∷ xs ≡ ds ++ b'/' ∷ ys
    → (cs ≡ ds) × (xs ≡ ys)
unfolding is_safe
safe_split cs ds xs ys safe_c safe_d h =
    let split : (cs, b'/' ∷ xs) ≡ (ds, b'/' ∷ ys) =
      sym (span_safe-append cs b'/' xs safe_c refl)
      ∙ ap span_safe h
      ∙ span_safe-append ds b'/' ys safe_d refl in
    (ap (λ p. p.0) split, same_tail b'/' xs ys (ap (λ p. p.1) split))

prefix_inj : (p cs ds : List ℕ) → p ++ cs ≡ p ++ ds → cs ≡ ds
prefix_inj [] cs ds h = h
prefix_inj (c ∷ p) cs ds h = prefix_inj p cs ds cc

hex-safe : (c : ℕ) → is_hex c ≡ true → is_safe c ≡ true
unfolding is_hex is_safe
hex-safe c h = ground (arith, h)

first_two-safe :
    (d : String) → all is_hex (codes d) ≡ true → all is_safe (codes (first_two d)) ≡ true
first_two-safe String.[] h = refl
first_two-safe (String.◌∷◌ a String.[]) h = ground (arith, h, hex-safe (code a))
first_two-safe (String.◌∷◌ a (String.◌∷◌ b s)) h =
    ground (arith, h, hex-safe (code a), hex-safe (code b))

all_safe : (cs : List ℕ) → is_safe_list cs ≡ true → all is_safe cs ≡ true
all_safe [] h = refl
all_safe (c ∷ cs) h = h

codes_path :
    (d : String)
    → codes (object_path d) ≡ codes "objects/" ++ (codes (first_two d) ++ b'/' ∷ codes d)
codes_path d =
    codes-append "objects/" (text_append (first_two d) (text_append "/" d))
    ∙ ap (λ l. codes "objects/" ++ l) (codes-append (first_two d) (text_append "/" d))
    ∙ ap (λ l. codes "objects/" ++ (codes (first_two d) ++ l)) (codes-append "/" d)

-- The parts of a canonical key.
pub canonical_codes :
    (w d k : String)
    → canonical_object_key w d ≡ ok k
    → (codes k ≡ codes "workspaces/" ++ (codes w ++ b'/' ∷ codes (object_path d)))
      × (all is_safe (codes w) ≡ true)
      × (all is_hex (codes d) ≡ true)
unfolding canonical_object_key is_safe_id
canonical_codes w d k h =
    let rest = text_append "/" (object_path d) in
    let made : k ≡ text_append "workspaces/" (text_append w rest) = ground (arith, h) in
    let safe : is_safe_id w ≡ true = ground (arith, h) in
    let hex : is_hex_text 64 d ≡ true = ground (arith, h) in
    (
      ap codes made
          ∙ codes-append "workspaces/" (text_append w rest)
          ∙ ap (λ l. codes "workspaces/" ++ l) (codes-append w rest)
          ∙ ap (λ l. codes "workspaces/" ++ (codes w ++ l)) (codes-append "/" (object_path d)),
      all_safe (codes w) safe,
      is_hex_text-all 64 d hex,
    )

-- A canonical key is made from one workspace and one digest only, so no two workspaces share a
-- key.
pub canonical_object_key-inj :
    (w w' d d' k : String)
    → canonical_object_key w d ≡ ok k
    → canonical_object_key w' d' ≡ ok k
    → (w ≡ w') × (d ≡ d')
canonical_object_key-inj w w' d d' k h h' =
    let (made, safe, hex) = canonical_codes w d k h in
    let (made', safe', hex') = canonical_codes w' d' k h' in
    let (same_w, same_path) =
      safe_split (codes w) (codes w') (codes (object_path d)) (codes (object_path d')) safe safe' (
        prefix_inj (codes "workspaces/") (codes w ++ b'/' ∷ codes (object_path d))
          (codes w' ++ b'/' ∷ codes (object_path d')) (sym made ∙ made')) in
    let tails =
      prefix_inj (codes "objects/") (codes (first_two d) ++ b'/' ∷ codes d)
        (codes (first_two d') ++ b'/' ∷ codes d')
        (sym (codes_path d) ∙ same_path ∙ codes_path d') in
    let (same_two, same_d) =
      safe_split (codes (first_two d)) (codes (first_two d')) (codes d) (codes d')
        (first_two-safe d hex) (first_two-safe d' hex') tails in
    (codes-inj w w' same_w, codes-inj d d' same_d)
