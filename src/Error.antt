-- ===== src/Error.antt =====
-- src/error.rs: the engine's error codes, and fallible code as a result. The `detail` text of an
-- `EngineError`, a fixed string for diagnostics, is left out.
use mathlib.Core.Path.{◌≡◌, refl}
use mathlib.Core.Logic.{◌⊎◌, inl, inr}

pub data ErrorCode : Type 0 where
  invalid_site_id invalid_range allocation_exhausted malformed_encoding : ErrorCode
  unsupported_format_version non_canonical_encoding message_too_large : ErrorCode
  too_many_operations identifier_too_deep too_many_version_sites : ErrorCode
  too_many_sparse_receipts too_many_snapshot_items too_many_pending_operations : ErrorCode
  too_many_deferred_deletes document_too_large integer_overflow : ErrorCode
  operation_identity_conflict snapshot_has_sequence_gaps snapshot_not_causally_closed : ErrorCode
  missing_local_history history_unavailable transaction_already_active : ErrorCode
  no_active_transaction invalid_handle invalid_anchor undo_unavailable : ErrorCode
  redo_unavailable invalid_operation snapshot_state_conflict : ErrorCode

pub data Result {ℓ} (A : Type ℓ) : Type ℓ where
  err : ErrorCode → Result A
  ok : A → Result A

-- A check that ends in `?`, and what follows it.
infixl 5 ◌>>◌
abbrev pub ◌>>◌ {ℓ} : {B : Type ℓ} → Result (Unit {0}) → Result B → Result B
err e >> rest = err e
ok u >> rest = rest

-- A split on a computed result that keeps the equation.
pub Result-cases {ℓ} :
    {A : Type ℓ} (r : Result A) → ((e : ErrorCode) × (r ≡ err e)) ⊎ ((a : A) × (r ≡ ok a))
Result-cases (ok a) = inr (a, refl)
Result-cases (err e) = inl (e, refl)
