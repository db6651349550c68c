-- ===== src/Update.antt =====
-- src/update.rs: update batches.
pub mod VisibleEdit
pub mod Canonical
use esbt_web.Base.{
  ℕ, ◌<◌, ◌≡◌, refl, Bool, true, false, not, ◌&&◌, ◌||◌, Option, none, some, List, [], ◌∷◌, ltb,
  ◌==◌, if◌then◌else◌,
}
use esbt_web.Error.{Result, ok, err, ◌>>◌, non_canonical_encoding}
use esbt_web.Op
use esbt_web.Op.{Op}

pub record OperationRef : Type 0 where
  pub origin : ℕ
  pub sequence : ℕ

-- `OperationRef::from`.
abbrev pub identity : Op → OperationRef
identity op = record { origin = op.origin; sequence = op.seq }

-- `value >= identity` of pairs.
abbrev pub at_least : OperationRef → OperationRef → Bool
at_least value i =
    ltb i.origin value.origin || ((i.origin == value.origin) && not (ltb value.sequence i.sequence))

-- `previous.is_some_and(…)`.
abbrev pub blocks : Option OperationRef → OperationRef → Bool
blocks none i = false
blocks (some value) i = at_least value i

-- The loop of `Update::from_canonical_operations`.
unfoldable pub check_operations : Option OperationRef → List Op → Result (Unit {0})
check_operations previous [] = ok tt
check_operations previous (op ∷ ops) = do
  Op.validate none op
  if blocks previous (identity op) then err non_canonical_encoding else ok tt
  check_operations (some (identity op)) ops

-- `Update::from_canonical_operations`. An update is its list of operations.
unfoldable pub from_canonical_operations : List Op → Result (List Op)
unfolding check_operations
from_canonical_operations ops = do check_operations none ops; ok ops
