-- ===== src/Limits.antt =====
-- src/limits.rs: the resource policy that a document carries.
use esbt_web.Base.{ℕ, ◌<◌, ◌≤◌, ◌≡◌, ◌↔◌, ◌||◌, ltb, ◌==◌, if◌then◌else◌, arith}
use esbt_web.Error.{Result, ok, err, invalid_operation}

pub record ResourceLimits : Type 0 where
  pub max_message_bytes : ℕ
  pub max_operations_per_update : ℕ
  pub max_identifier_depth : ℕ
  pub max_version_sites : ℕ
  pub max_sparse_receipts : ℕ
  pub max_snapshot_items : ℕ
  pub max_pending_operations : ℕ
  pub max_deferred_deletes : ℕ
  pub max_document_units : ℕ
  pub max_allocation_attempts : ℕ
  pub max_retained_operations : ℕ
  pub max_undo_transactions : ℕ

-- `ResourceLimits::default`, which is `wire_default` too.
abbrev pub wire_default : ResourceLimits
wire_default = record {
  max_message_bytes = 16777216;
  max_operations_per_update = 100000;
  max_identifier_depth = 1024;
  max_version_sites = 65536;
  max_sparse_receipts = 1000000;
  max_snapshot_items = 2000000;
  max_pending_operations = 250000;
  max_deferred_deletes = 2000000;
  max_document_units = 2000000;
  max_allocation_attempts = 65536;
  max_retained_operations = 4000000;
  max_undo_transactions = 10000;
}

-- `WIRE_HEADER_BYTES` of src/wire.rs.
abbrev pub wire_header_bytes : ℕ
wire_header_bytes = 11

-- `ResourceLimits::validate`.
unfoldable pub validate : ResourceLimits → Result (Unit {0})
validate l =
    if ltb l.max_message_bytes wire_header_bytes
      || (l.max_operations_per_update == 0)
      || (l.max_identifier_depth == 0)
      || (l.max_version_sites == 0)
      || (l.max_snapshot_items == 0)
      || (l.max_allocation_attempts == 0)
      || (l.max_retained_operations == 0)
    then err invalid_operation
    else if ltb l.max_snapshot_items l.max_document_units
    then err invalid_operation
    else if ltb l.max_retained_operations l.max_operations_per_update
    then err invalid_operation
    else ok tt

-- A coherent policy: every primitive can run once, and what a document may hold it can checkpoint
-- and replay.
pub record IsCoherent (l : ResourceLimits) : Type 0 where
  pub envelope : wire_header_bytes ≤ l.max_message_bytes
  pub operations : 0 < l.max_operations_per_update
  pub depth : 0 < l.max_identifier_depth
  pub sites : 0 < l.max_version_sites
  pub items : 0 < l.max_snapshot_items
  pub attempts : 0 < l.max_allocation_attempts
  pub retained : 0 < l.max_retained_operations
  pub checkpoint : l.max_document_units ≤ l.max_snapshot_items
  pub replay : l.max_operations_per_update ≤ l.max_retained_operations

-- `validate` accepts exactly the coherent policies.
pub validate_limits_iff : (l : ResourceLimits) → (validate l ≡ ok tt) ↔ IsCoherent l
unfolding validate
validate_limits_iff l = (
  λ h. record {
    envelope = ground arith;
    operations = ground arith;
    depth = ground arith;
    sites = ground arith;
    items = ground arith;
    attempts = ground arith;
    retained = ground arith;
    checkpoint = ground arith;
    replay = ground arith;
  },
  λ h. ground arith,
)
