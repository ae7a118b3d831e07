-- ===== src/Audit.antt =====
-- packages/audit/src/audit-chain.ts. A value of JSON is a literal (null, true, false or a number) as
-- `JSON.stringify` writes it, a text, an array or an object. `JSON.stringify` of a text, the order in
-- which `sort` puts keys, and the hexadecimal SHA-256 of a text are arguments.
pub mod Chained
mod Examples
use trust_core.Common.{
  if◌then◌else◌, ◌==◌, string_eq, number_eq, option_eq, discrete_eq, String, Bool, true, false, not,
  List, [], ◌∷◌, arith,
}
use Prim.Native.String.{◌++◌ as text_append}

mutual
  pub data Json : Type 0 where
    literal : (spelling : String) → Json
    string : String → Json
    array : Items → Json
    object : Fields → Json

  pub data Items : Type 0 where
    no_item : Items
    item : Json → Items → Items

  pub data Fields : Type 0 where
    no_field : Fields
    field : (key : String) → Json → Fields → Fields

pub data ActorType : Type 0 where
  user service application system : ActorType

abbrev actor_name : ActorType → String
actor_name user = "user"
actor_name service = "service"
actor_name application = "application"
actor_name system = "system"

pub record AuditEventBody : Type 0 where
  pub id : String
  pub workspace_id : String
  pub actor_type : ActorType
  pub actor_id : String
  pub action : String
  pub subject_kind : String
  pub subject_id : String
  pub timestamp : String
  pub request_id : String
  pub correlation_id : String
  pub metadata : Json

pub record ChainedAuditEvent : Type 0 where
  pub body : AuditEventBody
  pub previous_event_hash : String
  pub event_hash : String

-- The body as the object that is hashed.
abbrev pub body_json : AuditEventBody → Json
body_json b = object (
    field "id" (string b.id) (
      field "workspaceId" (string b.workspace_id) (
        field "actorType" (string (actor_name b.actor_type)) (
          field "actorId" (string b.actor_id) (
            field "action" (string b.action) (
              field "subjectKind" (string b.subject_kind) (
                field "subjectId" (string b.subject_id) (
                  field "timestamp" (string b.timestamp) (
                    field "requestId" (string b.request_id) (
                      field "correlationId" (string b.correlation_id)
                        (field "metadata" b.metadata no_field)))))))))))

-- `join(",")`.
join : List String → String
join [] = ""
join (s ∷ []) = s
join (s ∷ ss) = text_append s (text_append "," (join ss))

module _ (quote : String → String) (before : String → String → Bool) where
  -- A pair of a key and the text of its member, put where `sort` puts the key.
  place : String × String → List (String × String) → List (String × String)
  place p [] = p ∷ []
  place p (q ∷ rest) =
      let later = place p rest in if before q.0 p.0 then q ∷ later else p ∷ q ∷ rest

  sorted : List (String × String) → List (String × String)
  unfolding place
  sorted [] = []
  sorted (p ∷ rest) = place p (sorted rest)

  abbrev members : List (String × String) → List String
  members [] = []
  members ((key, value) ∷ rest) = text_append (quote key) (text_append ":" value) ∷ members rest

  mutual
    pub canonical_value : Json → String
    canonical_value (literal spelling) = spelling
    canonical_value (string s) = quote s
    canonical_value (array xs) = text_append "[" (text_append (join (canonical_items xs)) "]")
    canonical_value (object fs) =
        text_append "{" (text_append (join (members (sorted (canonical_fields fs)))) "}")

    canonical_items : Items → List String
    canonical_items no_item = []
    canonical_items (item x xs) = canonical_value x ∷ canonical_items xs

    canonical_fields : Fields → List (String × String)
    canonical_fields no_field = []
    canonical_fields (field key x fs) = (key, canonical_value x) ∷ canonical_fields fs

  module _ (sha256 : String → String) where
    pub append_audit_event : AuditEventBody → String → ChainedAuditEvent
    append_audit_event body previous = record {
      body = body;
      previous_event_hash = previous;
      event_hash = sha256 (text_append (canonical_value (body_json body)) previous);
    }

    -- The loop from a previous hash.
    pub verify_from : String → List ChainedAuditEvent → Bool
    verify_from previous [] = true
    verify_from previous (e ∷ events) =
        let later = verify_from e.event_hash events in
        if not (e.previous_event_hash == previous)
        then false
        else if not ((append_audit_event e.body previous).event_hash == e.event_hash)
        then false
        else later

    pub verify_audit_chain : List ChainedAuditEvent → Bool
    unfolding verify_from
    verify_audit_chain events = verify_from "" events
