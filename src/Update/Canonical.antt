-- ===== src/Update/Canonical.antt =====
-- src/update.rs: which lists of operations make an update.
use esbt_web.Base.{
  ◌<◌, ◌≡◌, ◌↔◌, refl, false, ◌⊎◌, inl, inr, Option, none, some, List, [], ◌∷◌, arith,
}
use esbt_web.Error.{ok, Result-cases}
use esbt_web.Op
use esbt_web.Op.{Op}
use esbt_web.Op.Validate.{IsOperation, validate-IsOperation_iff}
use esbt_web.Update.{OperationRef, identity, blocks, check_operations, from_canonical_operations}

-- Lexicographic order of identities.
abbrev pub Precedes : OperationRef → OperationRef → Type 0
Precedes i j = (i.origin < j.origin) ⊎ ((i.origin ≡ j.origin) × (i.sequence < j.sequence))

abbrev pub After : Option OperationRef → OperationRef → Type 0
After none j = Unit
After (some i) j = Precedes i j

-- Every operation is valid and its identity comes after that of the one before it.
abbrev pub Ascends : Option OperationRef → List Op → Type 0
Ascends previous [] = Unit
Ascends previous (op ∷ ops) =
    IsOperation none op × After previous (identity op) × Ascends (some (identity op)) ops

blocks_iff :
    (previous : Option OperationRef) (j : OperationRef)
    → (blocks previous j ≡ false) ↔ After previous j
blocks_iff none j = (λ h. tt, λ h. refl)
blocks_iff (some i) j = (λ h. ground arith, λ h. ground arith)

check-ok :
    (previous : Option OperationRef) (ops : List Op)
    → check_operations previous ops ≡ ok tt
    → Ascends previous ops
unfolding check_operations
check-ok previous [] h = tt
check-ok previous (op ∷ ops) h = elim (Result-cases (Op.validate none op)) [
  | inl (e, bad) ↦ absurd (ground (arith, bad))
  | inr (u, good) ↦
      let free : blocks previous (identity op) ≡ false = ground (arith, good) in
      let rest : check_operations (some (identity op)) ops ≡ ok tt = ground (arith, good, free) in
      (
        (validate-IsOperation_iff none op).0 good,
        (blocks_iff previous (identity op)).0 free,
        check-ok (some (identity op)) ops rest,
      )
]

ok-check :
    (previous : Option OperationRef) (ops : List Op)
    → Ascends previous ops
    → check_operations previous ops ≡ ok tt
unfolding check_operations
ok-check previous [] h = refl
ok-check previous (op ∷ ops) h =
    let valid = (validate-IsOperation_iff none op).1 h.0 in
    let free = (blocks_iff previous (identity op)).1 h.1 in
    rw (valid, free) (ok-check (some (identity op)) ops h.2)

-- `from_canonical_operations` makes of a list of operations an update with that very list exactly
-- if every operation is valid and their identities strictly ascend.
pub from_canonical_operations_iff :
    (ops : List Op) → (from_canonical_operations ops ≡ ok ops) ↔ Ascends none ops
unfolding from_canonical_operations
from_canonical_operations_iff ops = (
  λ h. check-ok none ops (elim (Result-cases (check_operations none ops)) [
    | inl (e, bad) ↦ absurd (ground (arith, bad, h))
    | inr (u, good) ↦ good
  ]),
  λ h. let good = ok-check none ops h in rw good,
)
