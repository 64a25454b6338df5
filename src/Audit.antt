-- ===== src/Audit.antt =====
-- src/lib/audit.ts: the journal of each workspace, a chain of hashed entries.
mod Sanitize
pub mod Chain
pub mod Log
pub mod Covered
pub mod Tamper
pub mod Clean
unfoldable pub use Sanitize.*
use devispropre.Base.{
  ℕ, suc, ◌+◌, ◌-◌, Bool, true, false, not, ◌&&◌, ◌||◌, Option, none, some, List, [], ◌∷◌, ◌++◌,
  map, leb, ltb, ◌==◌, if◌then◌else◌, or_else, is_some, is_none, keep, all, length,
}
use devispropre.Text.{Text, codes, text_eq, slice_to, trim, is_empty}
use devispropre.Table.{find_last_by, order_by}
use devispropre.Money.{Number}
use devispropre.Platform.{Platform}
use devispropre.Json.{
  Value, null, num, str, obj, Fields, end, field, quote, join, pair_texts, canonicalize, bool_text,
}

pub record AuditContext : Type 0 where
  pub user_id : Text
  pub actor_user_id : Option Text
  pub ip_address : Option Text
  pub user_agent : Option Text

pub data AuditAction : Type 0 where
  create update soft_delete lock send reminder_scheduled accept refuse convert_to_facture
        verify_hash issue pay cancel export_proof :
      AuditAction

abbrev pub action_text : AuditAction → Text
action_text create = codes "CREATE"
action_text update = codes "UPDATE"
action_text soft_delete = codes "SOFT_DELETE"
action_text lock = codes "LOCK"
action_text send = codes "SEND"
action_text reminder_scheduled = codes "REMINDER_SCHEDULED"
action_text accept = codes "ACCEPT"
action_text refuse = codes "REFUSE"
action_text convert_to_facture = codes "CONVERT_TO_FACTURE"
action_text verify_hash = codes "VERIFY_HASH"
action_text issue = codes "ISSUE"
action_text pay = codes "PAY"
action_text cancel = codes "CANCEL"
action_text export_proof = codes "EXPORT_PROOF"

-- A row of "AuditLog", with `AuditChainEntry` in it.
pub record AuditLog : Type 0 where
  pub user_id : Text
  pub action : AuditAction
  pub entity_type : Text
  pub entity_id : Text
  pub devis_id : Option Text
  pub facture_id : Option Text
  pub metadata : Text
  pub ip_address : Option Text
  pub user_agent : Option Text
  pub content_hash : Option Text
  pub seq : Option ℕ
  pub prev_hash : Option Text
  pub entry_hash : Option Text
  pub created_at : ℕ

abbrev pub nullable : {D : Type 0} → Option Text → Value D
nullable none = null
nullable (some s) = str s

-- `entry.seq`, once rows with no number are left out
abbrev pub seq_number : AuditLog → ℕ
seq_number e = or_else e.seq 0

-- `last?.seq ?? 0`
abbrev pub last_seq : Option AuditLog → ℕ
last_seq none = 0
last_seq (some e) = seq_number e

-- `last?.entryHash ?? null`
abbrev pub last_hash : Option AuditLog → Option Text
last_hash none = none
last_hash (some e) = e.entry_hash

pub data AuditChainCheck : Type 0 where
  valid : ℕ → AuditChainCheck
  gap link hash : ℕ → ℕ → AuditChainCheck

abbrev pub option_text_eq : Option Text → Option Text → Bool
option_text_eq none none = true
option_text_eq (some s) (some t) = text_eq s t
option_text_eq _ _ = false

-- The rows of a user's chain.
abbrev pub in_chain : Text → AuditLog → Bool
in_chain user_id e = text_eq e.user_id user_id && is_some e.seq

-- What `logAudit` is called with.
pub record AuditParams (D : Type 0) : Type 0 where
  pub action : AuditAction
  pub entity_type : Text
  pub entity_id : Text
  pub devis_id : Option Text
  pub facture_id : Option Text
  pub metadata : List (Text × Meta D)
  pub content_hash : Option Text

module _ {D : Type 0} (p : Platform D) where
  open p.number use {nat, print}

  unfoldable pub entry_value : AuditLog → Value D
  entry_value e = obj (
      field (codes "v") (num (nat 1)) (
        field (codes "seq") (num (nat (seq_number e))) (
          field (codes "prevHash") (nullable e.prev_hash) (
            field (codes "userId") (str e.user_id) (
              field (codes "action") (str (action_text e.action)) (
                field (codes "entityType") (str e.entity_type) (
                  field (codes "entityId") (str e.entity_id) (
                    field (codes "metadata") (str e.metadata) (
                      field (codes "contentHash") (nullable e.content_hash) (
                        field (codes "ipAddress") (nullable e.ip_address) (
                          field (codes "userAgent") (nullable e.user_agent) (
                            field (codes "createdAt") (str (p.iso_string e.created_at))
                              end))))))))))))

  unfoldable pub compute_audit_entry_hash : AuditLog → Text
  compute_audit_entry_hash e = p.sha256 (canonicalize p.number (entry_value e))

  -- the loop of `verifyAuditChain`, over `prev` and `expectedSeq`
  unfoldable pub verify_from : ℕ → Option Text → ℕ → List AuditLog → AuditChainCheck
  verify_from total prev expected [] = valid total
  verify_from total prev expected (e ∷ entries) =
      let rest = verify_from total e.entry_hash (expected + 1) entries in
      if not (seq_number e == expected)
      then gap (expected - 1) expected
      else if not (option_text_eq e.prev_hash prev)
      then link (expected - 1) (seq_number e)
      else if not (option_text_eq (some (compute_audit_entry_hash e)) e.entry_hash)
      then hash (expected - 1) (seq_number e)
      else rest

  unfoldable pub verify_audit_chain : List AuditLog → AuditChainCheck
  verify_audit_chain entries = verify_from (length entries) none 1 entries

  unfoldable pub verify_workspace_audit_chain : Text → List AuditLog → AuditChainCheck
  verify_workspace_audit_chain user_id table =
      verify_audit_chain (order_by seq_number (keep (in_chain user_id) table))

  abbrev meta_text : Meta D → Text
  meta_text (text s) = quote s
  meta_text (number a) = print a
  meta_text (boolean b) = bool_text b
  meta_text nothing = codes "null"
  meta_text other = []

  -- `JSON.stringify` of clean metadata
  unfoldable pub metadata_text : List (Text × Meta D) → Text
  metadata_text fields =
      b'{' ∷ (join (pair_texts (map (λ f. (f.0, meta_text f.1)) fields)) ++ b'}' ∷ [])

  -- `...(ctx.actorUserId && ctx.actorUserId !== ctx.userId ? { actorUserId } : {})`
  abbrev pub actor_metadata : AuditContext → List (Text × Meta D) → List (Text × Meta D)
  actor_metadata ctx metadata = elim ctx.actor_user_id [
    | none ↦ metadata
    | some actor ↦
        if is_empty actor || text_eq actor ctx.user_id
        then metadata
        else assign (codes "actorUserId") (text actor) metadata
  ]

  -- The row that `logAudit` adds, given the last row of the chain.
  unfoldable pub next_entry : AuditContext → AuditParams D → ℕ → Option AuditLog → AuditLog
  next_entry ctx params now last =
      let row : AuditLog = record {
        user_id = ctx.user_id;
        action = params.action;
        entity_type = slice_to 64 params.entity_type;
        entity_id = slice_to 64 params.entity_id;
        devis_id = params.devis_id;
        facture_id = params.facture_id;
        metadata =
            metadata_text (sanitize_audit_metadata (some (actor_metadata ctx params.metadata)));
        ip_address = sanitize_ip ctx.ip_address;
        user_agent = sanitize_user_agent ctx.user_agent;
        content_hash = params.content_hash;
        seq = some (last_seq last + 1);
        prev_hash = last_hash last;
        entry_hash = none;
        created_at = now;
      } in
      record row { entry_hash = some (compute_audit_entry_hash row) }

  -- `logAudit`: the transaction holds the workspace's lock, so the row read as the last still is.
  unfoldable pub log_audit : AuditContext → AuditParams D → ℕ → List AuditLog → List AuditLog
  log_audit ctx params now table =
      table ++ next_entry ctx params now (find_last_by seq_number (in_chain ctx.user_id) table) ∷ []
