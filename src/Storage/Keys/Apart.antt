-- ===== src/Storage/Keys/Apart.antt =====
-- Temporary keys, and the keys of packages/storage/src/keys.ts.
use trust_core.Common.{
  codes-append, after_prefix-append, after_prefix, string_eq, number_eq, option_eq, all, codes, ok,
  ℕ, String, ◌≡◌, refl, ap, ◌∙◌, true, false, List, [], ◌∷◌, ◌++◌, arith,
}
use Prim.Native.String.{◌++◌ as text_append}
use trust_core.Storage.Keys.{
  is_safe, is_safe_id, is_safe_list, span_safe, is_temporary_key, canonical_object_key,
  temporary_object_key, first_two, object_path, is_workspace_path, is_temporary_path, is_some_safe,
}

-- A safe text before an unsafe character is the whole of the span.
pub span_safe-append :
    (cs : List ℕ) (c : ℕ) (rest : List ℕ)
    → all is_safe cs ≡ true
    → is_safe c ≡ false
    → span_safe (cs ++ c ∷ rest) ≡ (cs, c ∷ rest)
unfolding span_safe
span_safe-append [] c rest h stop = ground (arith, stop)
span_safe-append (x ∷ cs) c rest h stop = ground (arith, h, span_safe-append cs c rest, stop)

span_path :
    (ws cs : List ℕ)
    → is_safe_list ws ≡ true
    → is_workspace_path (span_safe (ws ++ b'/' ∷ cs))
      ≡ is_some_safe (after_prefix (codes "/temporary/") (b'/' ∷ cs))
unfolding is_safe
span_path [] cs h = cc
span_path (c ∷ ws) cs h = ap is_workspace_path (span_safe-append (c ∷ ws) b'/' cs h refl)

-- A path of a workspace is a temporary key if what follows the workspace is `/temporary/` and a safe
-- identifier.
workspace_path :
    (w rest : String) (cs : List ℕ)
    → is_safe_id w ≡ true
    → codes rest ≡ b'/' ∷ cs
    → is_temporary_key (text_append "workspaces/" (text_append w rest))
      ≡ is_some_safe (after_prefix (codes "/temporary/") (b'/' ∷ cs))
unfolding is_temporary_key is_safe_id
workspace_path w rest cs safe slash =
    let parts : codes (text_append "workspaces/" (text_append w rest))
        ≡ codes "workspaces/" ++ (codes w ++ b'/' ∷ cs) =
      codes-append "workspaces/" (text_append w rest)
      ∙ ap (λ l. codes "workspaces/" ++ l) (codes-append w rest)
      ∙ ap (λ l. codes "workspaces/" ++ (codes w ++ l)) slash in
    ap (λ l. is_temporary_path (after_prefix (codes "workspaces/") l)) parts
    ∙ ap is_temporary_path (after_prefix-append (codes "workspaces/") (codes w ++ b'/' ∷ cs))
    ∙ span_path (codes w) cs safe

-- The key of a canonical object is no temporary key, so what is refused on other than temporary keys
-- is refused on it.
pub canonical_object_key_apart :
    (w sha256 k : String) → canonical_object_key w sha256 ≡ ok k → is_temporary_key k ≡ false
unfolding canonical_object_key after_prefix
canonical_object_key_apart w sha256 k h =
    let rest = text_append "/" (object_path sha256) in
    let made : k ≡ text_append "workspaces/" (text_append w rest) = ground (arith, h) in
    let safe : is_safe_id w ≡ true = ground (arith, h) in
    ap is_temporary_key made
    ∙ workspace_path w rest (codes (object_path sha256)) safe
        (codes-append "/" (object_path sha256))
    ∙ ap (λ l. is_some_safe (after_prefix (codes "/temporary/") (b'/' ∷ l)))
        (codes-append "objects/" (text_append (first_two sha256) (text_append "/" sha256)))

-- The keys that are made for temporary objects are temporary keys.
pub temporary_object_key_lem :
    (w operation k : String) → temporary_object_key w operation ≡ ok k → is_temporary_key k ≡ true
unfolding temporary_object_key is_safe_id
temporary_object_key_lem w operation k h =
    let rest = text_append "/temporary/" operation in
    let made : k ≡ text_append "workspaces/" (text_append w rest) = ground (arith, h) in
    let safe : is_safe_id w ≡ true = ground (arith, h) in
    let safe_operation : is_safe_list (codes operation) ≡ true = ground (arith, h) in
    ap is_temporary_key made
    ∙ workspace_path w rest (codes "temporary/" ++ codes operation) safe
        (codes-append "/temporary/" operation)
    ∙ ap is_some_safe (after_prefix-append (codes "/temporary/") (codes operation))
    ∙ safe_operation
