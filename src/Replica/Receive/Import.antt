-- ===== src/Replica/Receive/Import.antt =====
-- src/replica.rs: `import_operation` takes an operation once.
use esbt_web.Base.{
  ℕ, ◌≡◌, ◌↔◌, ◌⊎◌, refl, ap, sym, ◌∙◌, Bool, true, false, ◌&&◌, ◌||◌, Bool-cases, inl, inr, Option,
  none, some, [], ◌∷◌, ◌==◌, if◌then◌else◌, arith,
}
use esbt_web.Base.Eq.{nat_eq, pair_eq}
use esbt_web.Base.Table
use esbt_web.Base.Table.{lookup-insert}
use esbt_web.Error.{Result, ok, err, Result-cases}
use esbt_web.Op
use esbt_web.Op.{Op, is_ins}
use esbt_web.Op.Equality
use esbt_web.Op.Validate.{IsOperation, validate-IsOperation_iff}
use esbt_web.Clock
use esbt_web.Clock.Receipts.{contains-note}
use esbt_web.Replica.{Replica}
use esbt_web.Replica.Drain.Frame.{SameHistory, drain_weights-SameHistory}
use esbt_web.Replica.Receive.{
  admit_one, admit_all, admit_validated_operations, import_at, import_validated, import_operation,
  touch,
}

-- Admitting one operation leaves the history of the replica that the first loop made.
admitted_one :
    (op : Op) (r : Replica)
    → SameHistory (admit_one op r) (admit_validated_operations (op ∷ []) r).1
unfolding admit_validated_operations admit_all
admitted_one op r = drain_weights-SameHistory (touch op.weight []) [] (admit_one op r)

-- The identity of the operation is neither logged nor received, and where it inserts, its counter is
-- not bound to another insertion.
abbrev pub IsFresh : Op → Replica → Type 0
IsFresh op r =
    (Table.lookup (op.origin, op.seq) r.log ≡ none)
    × (Clock.contains op.origin op.seq r.version ≡ false)
    × ((is_ins op && Clock.contains op.weight.site op.counter r.insertion_version) ≡ false)

abbrev replica_of : Replica → Result (Bool × Replica) → Replica
replica_of r (ok (new, after)) = after
replica_of r (err e) = r

import_at-IsFresh :
    (logged : Option Op) (op : Op) (r after : Replica)
    → import_at logged op r ≡ ok (true, after)
    → (logged ≡ none)
      × (Clock.contains op.origin op.seq r.version ≡ false)
      × ((is_ins op && Clock.contains op.weight.site op.counter r.insertion_version) ≡ false)
      × (after ≡ (admit_validated_operations (op ∷ []) r).1)
unfolding import_at
import_at-IsFresh (some existing) op r after h = absurd (ground (arith, h))
import_at-IsFresh none op r after h =
    let admitted = (admit_validated_operations (op ∷ []) r).1 in
    elim (Bool-cases (Clock.contains op.origin op.seq r.version)) [
      | inl seen ↦ absurd (ground (arith, h, seen))
      | inr unseen ↦
          elim (Bool-cases
            (is_ins op && Clock.contains op.weight.site op.counter r.insertion_version)) [
              | inl bound ↦ absurd (ground (arith, h, unseen, bound))
              | inr free ↦
                  let e : ok (true, admitted) ≡ ok (true, after) =
                    ground (arith, h, unseen, free) in
                  (refl, unseen, free, sym (ap (replica_of r) e))
            ]
    ]

fresh-import_at :
    (logged : Option Op) (op : Op) (r : Replica)
    → logged ≡ none
    → Clock.contains op.origin op.seq r.version ≡ false
    → (is_ins op && Clock.contains op.weight.site op.counter r.insertion_version) ≡ false
    → import_at logged op r ≡ ok (true, (admit_validated_operations (op ∷ []) r).1)
unfolding import_at
fresh-import_at (some existing) op r h k l = absurd (ground (arith, h))
fresh-import_at none op r h k l = rw (k, l) refl

-- `import_operation` answers that an operation is new, and leaves a given replica, exactly where
-- the operation is valid, its identity is neither logged nor received, an insertion has a counter
-- that was not received for the site of its weight, and the replica left is the one that admits
-- the operation.
pub import_operation-IsFresh_iff :
    (op : Op) (r after : Replica)
    → (import_operation op r ≡ ok (true, after))
      ↔ (IsOperation none op × IsFresh op r × (after ≡ (admit_validated_operations (op ∷ []) r).1))
unfolding import_operation import_validated
import_operation-IsFresh_iff op r after = (
  (λ h. elim (Result-cases (Op.validate none op)) [
    | inl (e, refused) ↦ absurd (ground (arith, h, refused))
    | inr (u, valid) ↦
        let h' : import_at (Table.lookup (op.origin, op.seq) r.log) op r ≡ ok (true, after) =
          ground (arith, h, valid) in
        let fresh = import_at-IsFresh (Table.lookup (op.origin, op.seq) r.log) op r after h' in
        ((validate-IsOperation_iff none op).0 valid, (fresh.0, fresh.1, fresh.2), fresh.3)
  ]),
  λ h. rw ((validate-IsOperation_iff none op).1 h.0) (
      fresh-import_at (Table.lookup (op.origin, op.seq) r.log) op r h.1.0 h.1.1 h.1.2
      ∙ ap (λ s. ok (true, s)) (sym h.2)),
)

-- If `import_operation` took an operation as new, then the replica that it left takes the same
-- operation for a duplicate and stays as it is.
pub import_operation-again :
    (op : Op) (r after : Replica)
    → import_operation op r ≡ ok (true, after)
    → import_operation op after ≡ ok (false, after)
unfolding import_operation import_validated import_at admit_one
import_operation-again op r after h =
    let fresh = (import_operation-IsFresh_iff op r after).0 h in
    let history = admitted_one op r in
    let logged : Table.lookup (op.origin, op.seq) after.log ≡ some op =
      ap (λ (s : Replica). Table.lookup (op.origin, op.seq) s.log) fresh.2
      ∙ ap (Table.lookup (op.origin, op.seq)) history.log
      ∙ lookup-insert (op.origin, op.seq) (op.origin, op.seq) op r.log
      ∙ ap (λ b. if b then some op else Table.lookup (op.origin, op.seq) r.log)
          (pair_eq.eqb_refl (op.origin, op.seq)) in
    rw ((validate-IsOperation_iff none op).1 fresh.0, logged, Op.Equality.eqb_refl op) refl

-- If `import_operation` took an operation as new, then the receipts of operations are those before
-- and the one of the operation.
pub contains-import_operation :
    (op : Op) (r after : Replica) (s q : ℕ)
    → import_operation op r ≡ ok (true, after)
    → Clock.contains s q after.version
      ≡ (Clock.contains s q r.version || ((s == op.origin) && (q == op.seq)))
unfolding admit_one
contains-import_operation op r after s q h =
    let fresh = (import_operation-IsFresh_iff op r after).0 h in
    let e : after.version ≡ Clock.note op.origin op.seq r.version =
      ap (λ (t : Replica). t.version) fresh.2 ∙ (admitted_one op r).version in
    ap (Clock.contains s q) e
    ∙ contains-note op.origin op.seq s q r.version
    ∙ ground (arith, fresh.0.seq_nonzero)

import_at-duplicate :
    (logged : Option Op) (op : Op) (r after : Replica)
    → import_at logged op r ≡ ok (false, after)
    → after ≡ r
unfolding import_at
import_at-duplicate (some existing) op r after h = elim (Bool-cases (Op.Equality.eqb existing op)) [
  | inl same ↦
      let e : ok (false, r) ≡ ok (false, after) = ground (arith, h, same) in
      sym (ap (replica_of r) e)
  | inr other ↦ absurd (ground (arith, h, other))
]
import_at-duplicate none op r after h =
    elim (Bool-cases (Clock.contains op.origin op.seq r.version)) [
      | inl seen ↦
          let e : ok (false, r) ≡ ok (false, after) = ground (arith, h, seen) in
          sym (ap (replica_of r) e)
      | inr unseen ↦ absurd (ground (arith, h, unseen))
    ]

-- A result of `import_operation` is a duplicate, which leaves the replica, or an admission.
pub import_operation-cases :
    (op : Op) (r : Replica) (new : Bool) (after : Replica)
    → import_operation op r ≡ ok (new, after)
    → ((new ≡ false) × (after ≡ r))
      ⊎ (IsOperation none op × (after ≡ (admit_validated_operations (op ∷ []) r).1))
unfolding import_operation import_validated
import_operation-cases op r true after h =
    let fresh = (import_operation-IsFresh_iff op r after).0 h in inr (fresh.0, fresh.2)
import_operation-cases op r false after h = elim (Result-cases (Op.validate none op)) [
  | inl (e, refused) ↦ absurd (ground (arith, h, refused))
  | inr (u, valid) ↦ inl (
    refl,
    import_at-duplicate (Table.lookup (op.origin, op.seq) r.log) op r after
        (ground (arith, h, valid)),
  )
]
