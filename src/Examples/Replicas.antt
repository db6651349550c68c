-- ===== src/Examples/Replicas.antt =====
-- src/replica.rs at a replica of site 3 that receives from site 9.
use esbt_web.Base.{
  ◌+◌, ◌<◌, u64_limit, ◌≡◌, ◌↔◌, refl, true, false, not, ◌&&◌, ◌||◌, none, [], ◌∷◌, All, length,
  ◌==◌, arith,
}
use esbt_web.Base.Int.{pos}
use esbt_web.Base.OrdMap
use esbt_web.Base.Table
use esbt_web.Error.{ok}
use esbt_web.Config.{ReplicaConfig}
use esbt_web.NewSeq.{AllocationStrategy}
use esbt_web.Weight.Equality.{eqb}
use esbt_web.Op.{Op, OpKind}
use esbt_web.Op.Validate.{IsOperation}
use esbt_web.Clock
use esbt_web.DocTree
use esbt_web.DocTree.{DocTree}
use esbt_web.DocTree.Invariant.{IsDoc}
use esbt_web.Update.VisibleEdit.Replay.{replay, IsApplicable}
use esbt_web.Replica
use esbt_web.Replica.{Replica, text}
use esbt_web.Replica.Pending
use esbt_web.Replica.Drain.{passes, drain_weight}
use esbt_web.Replica.Drain.Text.{OnOrdered, drain_weight-Follows}
use esbt_web.Replica.Drain.Fixpoint.{Waits, passes-Waits, drain_weight-Waits}
use esbt_web.Allocator
use esbt_web.Clock.Canonical.{IsWellFormed}
use esbt_web.Replica.Drain.Keeps.{IsSound}
use esbt_web.Replica.Receive.{
  admit_validated_operations, import_operation, receive, ops_missing_from,
}
use esbt_web.Replica.Receive.Missing.{has, values, IsAscending, has-ops_missing_from}
use esbt_web.Replica.Receive.Sound.{receive-IsSound}
use esbt_web.Replica.Local.{
  LocalTransactionCheckpoint, begin_local_transaction, rollback_local_transaction, try_local_insert,
  try_local_delete,
}
use esbt_web.Replica.Local.Rollback.{LocalSteps, rollback_local_transaction-LocalSteps}
use esbt_web.Replica.Receive.Import.{
  IsFresh, import_operation-IsFresh_iff, import_operation-again, contains-import_operation,
}
use esbt_web.Examples.Identifiers.{sample, half-IsFraction}

abbrev pub config : ReplicaConfig
config = record {
  dmax = pos 64;
  base = 10;
  depth = 8;
  adaptive_dmax = none;
  strategy = AllocationStrategy.midpoint;
}

abbrev pub empty : Replica
empty = Replica.new 3 config

abbrev insertion : Op
insertion = record { kind = OpKind.ins 955; weight = sample; counter = 1; origin = 9; seq = 4 }

abbrev waiting : Replica
waiting = record empty { pending = record { by_weight = (sample, insertion ∷ []) ∷ []; len = 1 } }

empty-IsDoc : IsDoc empty.doc
unfolding Replica.new DocTree.atoms
empty-IsDoc = (tt, tt)

queued : All OnOrdered (Pending.for_weight sample waiting.pending)
unfolding Table.lookup eqb
queued = (half-IsFraction, tt)

fits : length (text waiting) + length (Pending.for_weight sample waiting.pending) < u64_limit
unfolding Table.lookup eqb Replica.new DocTree.units
fits = omega arith

drain_weight-Follows_example :
    let (edits, after) = drain_weight sample waiting in
    IsDoc after.doc × (replay edits (text waiting) ≡ text after) × IsApplicable edits (text waiting)
drain_weight-Follows_example = drain_weight-Follows sample waiting empty-IsDoc queued fits

passes-Waits_example :
    let d = passes 2 (insertion ∷ []) empty [] in
    (d.progressed ≡ false) × All (Waits d.replica) d.pending
passes-Waits_example = passes-Waits (insertion ∷ []) empty []

drain_weight-Waits_example :
    let after = (drain_weight sample waiting).1 in
    All (Waits after) (Pending.for_weight sample after.pending)
drain_weight-Waits_example = drain_weight-Waits sample waiting

insertion-IsOperation : IsOperation none insertion
insertion-IsOperation = record {
  origin_nonzero = omega arith;
  seq_nonzero = omega arith;
  counter_nonzero = omega arith;
  identifier = record {
    site_nonzero = omega arith;
    fraction = half-IsFraction;
    num_pos = omega arith;
    den_pos = omega arith;
    num_max = omega arith;
    den_max = omega arith;
    path_nonempty = omega arith;
    depth = tt;
  };
  owner = λ h. refl;
}

insertion-IsFresh : IsFresh insertion empty
unfolding Replica.new Table.lookup Clock.contains OrdMap.lookup
insertion-IsFresh = (refl, refl, refl)

abbrev after : Replica
after = (admit_validated_operations (insertion ∷ []) empty).1

import_operation-IsFresh_iff_example :
    (import_operation insertion empty ≡ ok (true, after))
    ↔ (IsOperation none insertion × IsFresh insertion empty × (after ≡ after))
import_operation-IsFresh_iff_example = import_operation-IsFresh_iff insertion empty after

taken : import_operation insertion empty ≡ ok (true, after)
taken =
    (import_operation-IsFresh_iff insertion empty after).1
      (insertion-IsOperation, insertion-IsFresh, refl)

import_operation-again_example : import_operation insertion after ≡ ok (false, after)
import_operation-again_example = import_operation-again insertion empty after taken

contains-import_operation_example :
    Clock.contains 9 4 after.version
    ≡ (Clock.contains 9 4 empty.version || ((9 == insertion.origin) && (4 == insertion.seq)))
contains-import_operation_example = contains-import_operation insertion empty after 9 4 taken

pub empty-IsSound : IsSound empty
unfolding Replica.new Table.lookup DocTree.atoms
empty-IsSound = ((tt, tt), λ w. tt)

receive-IsSound_example : IsSound (receive insertion empty)
receive-IsSound_example = receive-IsSound insertion empty empty-IsSound

has-ops_missing_from_example :
    (has insertion (ops_missing_from Clock.empty after)
      ≡ (has insertion (values after.log) && not (Clock.contains 9 4 Clock.empty)))
    × IsAscending (ops_missing_from Clock.empty after)
has-ops_missing_from_example = has-ops_missing_from insertion Clock.empty after

abbrev started : Replica
started = record empty { alloc = (Allocator.begin_transaction empty.alloc).1 }

abbrev checkpoint : LocalTransactionCheckpoint
checkpoint = record {
  local_sequence = 0;
  insertion_counter = 0;
  operation_receipts = none;
  insertion_receipts = none;
  insert_run = none;
  visible_revision = 0;
}

begins : begin_local_transaction empty ≡ ok (checkpoint, started)
unfolding begin_local_transaction Replica.new Allocator.begin_transaction Clock.checkpoint_site
    OrdMap.lookup
begins = refl

empty-IsWellFormed : IsWellFormed Clock.empty
empty-IsWellFormed = record { ascending = tt; entries = tt; counted = refl }

-- Two units are typed, and the first is deleted.
abbrev typed : Replica
typed = (try_local_delete 0 (try_local_insert 1 105 8 (try_local_insert 0 72 8 started).1).1).1

typed-LocalSteps : LocalSteps started typed
typed-LocalSteps =
    LocalSteps.delete 0 (LocalSteps.insert 1 105 8 (LocalSteps.insert 0 72 8 LocalSteps.stay))

rollback_local_transaction-LocalSteps_example :
    let rolled = rollback_local_transaction checkpoint typed in
    (rolled.version ≡ empty.version)
    × (rolled.insertion_version ≡ empty.insertion_version)
    × (rolled.local_seq ≡ empty.local_seq)
    × (rolled.counter ≡ empty.counter)
    × (rolled.local_insert_run ≡ empty.local_insert_run)
    × (rolled.visible_revision ≡ empty.visible_revision)
unfolding Replica.new
rollback_local_transaction-LocalSteps_example =
    rollback_local_transaction-LocalSteps empty started typed checkpoint (omega arith)
      empty-IsWellFormed empty-IsWellFormed begins typed-LocalSteps
