-- ===== src/Replica/Receive.antt =====
-- src/replica.rs: operations that arrive, and those that a peer misses.
pub mod Import
pub mod Missing
pub mod Sound
use esbt_web.Base.{
  ℕ, zero, suc, ◌+◌, ◌-◌, max, Ordering, ◌≡◌, refl, Bool, true, false, not, ◌&&◌, ◌||◌, Option,
  none, some, List, [], ◌∷◌, ◌++◌, map, ltb, leb, ◌==◌, if◌then◌else◌,
}
use esbt_web.Base.Eq.{nat_eq, pair_eq}
use esbt_web.Base.Table
use esbt_web.Error.{Result, ok, err, ◌>>◌, operation_identity_conflict}
use esbt_web.Weight
use esbt_web.Weight.{Weight}
use esbt_web.Op
use esbt_web.Op.{Op, OpKind, is_ins}
use esbt_web.Op.Equality
use esbt_web.Clock
use esbt_web.Clock.{Version}
use esbt_web.Update.VisibleEdit.{VisibleEdit}
use esbt_web.Replica.{Replica}
use esbt_web.Replica.Pending
use esbt_web.Replica.Drain.{drain_weights}

-- `touched.insert` of the ordered set of weights.
unfoldable pub touch : Weight → List Weight → List Weight
touch w [] = w ∷ []
touch w (v ∷ vs) = elim (Weight.cmp w v) [
  | Ordering.lt ↦ w ∷ v ∷ vs
  | Ordering.eq ↦ v ∷ vs
  | Ordering.gt ↦ v ∷ touch w vs
]

-- One turn of the first loop of `admit_validated_operations`: the operation is noted, logged and
-- queued, and an own one raises the local counters.
unfoldable pub admit_one : Op → Replica → Replica
unfolding Pending.push_back
admit_one op r =
    let own = op.origin == r.site in
    record r {
      insertion_version =
          if is_ins op
          then Clock.note op.weight.site op.counter r.insertion_version
          else r.insertion_version;
      local_seq = if own then max r.local_seq op.seq else r.local_seq;
      counter = if own && is_ins op then max r.counter op.counter else r.counter;
      log = Table.insert (op.origin, op.seq) op r.log;
      version = Clock.note op.origin op.seq r.version;
      pending = Pending.push_back op r.pending;
    }

unfoldable pub admit_all : List Op → List Weight → Replica → List Weight × Replica
unfolding admit_one touch
admit_all [] touched r = (touched, r)
admit_all (op ∷ ops) touched r = admit_all ops (touch op.weight touched) (admit_one op r)

-- `admit_validated_operations`.
unfoldable pub admit_validated_operations : List Op → Replica → List VisibleEdit × Replica
unfolding admit_all
admit_validated_operations ops r =
    let (touched, admitted) = admit_all ops [] r in drain_weights touched [] admitted

-- `import_operation`, past the validation, from what the log has under the operation's identity.
unfoldable pub import_at : Option Op → Op → Replica → Result (Bool × Replica)
unfolding admit_validated_operations
import_at (some existing) op r =
    if Op.Equality.eqb existing op then ok (false, r) else err operation_identity_conflict
import_at none op r =
    if Clock.contains op.origin op.seq r.version
    then ok (false, r)
    else if is_ins op && Clock.contains op.weight.site op.counter r.insertion_version
    then err operation_identity_conflict
    else ok (true, (admit_validated_operations (op ∷ []) r).1)

unfoldable pub import_validated : Op → Replica → Result (Bool × Replica)
unfolding import_at
import_validated op r = import_at (Table.lookup (op.origin, op.seq) r.log) op r

-- `import_operation`: whether the operation was new, and the replica after. An error leaves the
-- replica as it was.
unfoldable pub import_operation : Op → Replica → Result (Bool × Replica)
unfolding import_validated
import_operation op r = do Op.validate none op; import_validated op r

-- `try_receive`, which takes no echo of the replica's own operations.
unfoldable pub try_receive : Op → Replica → Result (Bool × Replica)
unfolding import_operation
try_receive op r = if op.origin == r.site then ok (false, r) else import_operation op r

-- `receive`, which ignores what is refused.
abbrev pub received : Replica → Result (Bool × Replica) → Replica
received r (err e) = r
received r (ok (new, after)) = after

unfoldable pub receive : Op → Replica → Replica
unfolding try_receive
receive op r = received r (try_receive op r)

-- `restore_validated_operations`.
unfoldable pub restore_validated_operations : List Op → Replica → Replica
unfolding admit_validated_operations
restore_validated_operations ops r = (admit_validated_operations ops r).1

-- `sort_by_key(|op| (op.origin, op.seq))`, which is stable.
abbrev pub key_before : Op → Op → Bool
key_before a b = ltb a.origin b.origin || ((a.origin == b.origin) && ltb a.seq b.seq)

unfoldable pub insert_by_key : Op → List Op → List Op
insert_by_key op [] = op ∷ []
insert_by_key op (o ∷ os) = if key_before o op then o ∷ insert_by_key op os else op ∷ o ∷ os

unfoldable pub sort_by_key : List Op → List Op
unfolding insert_by_key
sort_by_key [] = []
sort_by_key (op ∷ ops) = insert_by_key op (sort_by_key ops)

-- The operations of the log that a version does not contain.
unfoldable pub not_contained : Version → List ((ℕ × ℕ) × Op) → List Op
not_contained v [] = []
not_contained v ((key, op) ∷ log) =
    if Clock.contains op.origin op.seq v then not_contained v log else op ∷ not_contained v log

-- `ops_missing_from`.
unfoldable pub ops_missing_from : Version → Replica → List Op
unfolding sort_by_key not_contained
ops_missing_from peer r = sort_by_key (not_contained peer r.log)

-- `for seq in from..=to`, of `count` numbers.
unfoldable pub ops_from : ℕ → ℕ → ℕ → Replica → List Op
ops_from zero site seq r = []
ops_from (suc count) site seq r =
    let rest = ops_from count site (seq + 1) r in
    elim (Table.lookup (site, seq) r.log) [ none ↦ rest | some op ↦ op ∷ rest ]

-- `ops_in_range`.
unfoldable pub ops_in_range : ℕ → ℕ → ℕ → Replica → List Op
unfolding ops_from
ops_in_range site from to r = ops_from (to + 1 - from) site from r
