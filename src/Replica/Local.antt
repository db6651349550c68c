-- ===== src/Replica/Local.antt =====
-- src/replica.rs: operations that the replica makes itself, and its transactions.
pub mod Receipts
pub mod Rollback
use esbt_web.Base.{
  ℕ, zero, suc, ◌+◌, ◌-◌, min, max, Bool, true, false, not, ◌&&◌, ◌||◌, Option, none, some, List,
  [], ◌∷◌, ◌++◌, leb, ◌==◌, if◌then◌else◌, u64_limit, checked_add64,
}
use esbt_web.Base.Eq.{nat_eq, pair_eq}
use esbt_web.Base.Table
use esbt_web.Error.{
  Result, ok, err, integer_overflow, allocation_exhausted, invalid_operation,
  transaction_already_active,
}
use esbt_web.Weight
use esbt_web.Weight.{Weight, empty_site}
use esbt_web.Weight.Equality.{weight_eq}
use esbt_web.Op.{Op, OpKind}
use esbt_web.Clock
use esbt_web.Clock.{SiteVersion}
use esbt_web.Allocator
use esbt_web.Allocator.{Allocator, site_digit}
use esbt_web.DocTree
use esbt_web.DocTree.{Atom}
use esbt_web.Replica.{Replica, LocalInsertRun, len}
use esbt_web.Replica.Drain.{apply_ready, drain_weight}

-- `LocalTransactionCheckpoint`.
pub record LocalTransactionCheckpoint : Type 0 where
  pub local_sequence : ℕ
  pub insertion_counter : ℕ
  pub operation_receipts : Option SiteVersion
  pub insertion_receipts : Option SiteVersion
  pub insert_run : Option LocalInsertRun
  pub visible_revision : ℕ

-- `begin_local_transaction`.
unfoldable pub begin_local_transaction : Replica → Result (LocalTransactionCheckpoint × Replica)
begin_local_transaction r =
    let (started, alloc) = Allocator.begin_transaction r.alloc in
    if not started
    then err transaction_already_active
    else ok (
      record {
        local_sequence = r.local_seq;
        insertion_counter = r.counter;
        operation_receipts = Clock.checkpoint_site r.site r.version;
        insertion_receipts = Clock.checkpoint_site r.site r.insertion_version;
        insert_run = r.local_insert_run;
        visible_revision = r.visible_revision;
      },
      record r { alloc = alloc },
    )

-- `commit_local_transaction` and `rollback_local_transaction`.
unfoldable pub commit_local_transaction : Replica → Replica
commit_local_transaction r = record r { alloc = Allocator.commit_transaction r.alloc }

unfoldable pub rollback_local_transaction : LocalTransactionCheckpoint → Replica → Replica
rollback_local_transaction checkpoint r = record r {
  alloc = Allocator.rollback_transaction r.alloc;
  local_seq = checkpoint.local_sequence;
  counter = checkpoint.insertion_counter;
  version = Clock.restore_site r.site checkpoint.operation_receipts r.version;
  insertion_version = Clock.restore_site r.site checkpoint.insertion_receipts r.insertion_version;
  local_insert_run = checkpoint.insert_run;
  visible_revision = checkpoint.visible_revision;
}

-- The weight at an index, or a sentinel.
abbrev pub weight_at : ℕ → Weight → Replica → Weight
weight_at index sentinel r = elim (DocTree.get_at index r.doc) [
  | none ↦ sentinel
  | some a ↦ a.weight
]

-- `neighbors`.
unfoldable pub neighbors : ℕ → Replica → Weight × Weight
neighbors index r = (
  if index == 0 then Weight.begin else weight_at (index - 1) Weight.begin r,
  if leb (len r) index then Weight.end else weight_at index Weight.end r,
)

-- A result with the replica after it, which an error may have changed too.
abbrev pub Step : Type 0 → Type 0
Step A = Result A × Replica

-- `try_stamp`.
unfoldable pub try_stamp : Replica → Step ℕ
try_stamp r = elim (checked_add64 r.local_seq 1) [
  | none ↦ (err integer_overflow, r)
  | some seq ↦ (ok seq, record r { local_seq = seq; version = Clock.note r.site seq r.version })
]

abbrev pub transaction_active : Allocator → Bool
transaction_active a = elim a.tracker.undo [ none ↦ false | some changes ↦ true ]

-- A stamped operation is logged and applied; outside a transaction, what it releases is drained.
unfoldable pub apply_local : Op → Replica → Replica
unfolding apply_ready drain_weight
apply_local op r =
    let logged = record r { log = Table.insert (op.origin, op.seq) op r.log } in
    let applied = (apply_ready op logged).1 in
    if not (transaction_active applied.alloc) then (drain_weight op.weight applied).1 else applied

-- `previous_candidate.as_ref() == Some(&weight)`.
abbrev pub repeats : Option Weight → Weight → Bool
repeats none weight = false
repeats (some last) weight = weight_eq.eqb last weight

-- `for _ in 0..max_attempts.max(1)`: the loop that asks the allocator for a weight that the document
-- does not have, and gives up where the allocator repeats itself.
unfoldable pub allocate : ℕ → Weight → Weight → Option Weight → Replica → Option Weight × Replica
allocate zero left right previous r = (none, r)
allocate (suc attempts) left right previous r =
    let (candidate, alloc) = Allocator.create_weight left right r.site r.alloc in
    let after = record r { alloc = alloc } in
    elim candidate [
      | none ↦ (none, after)
      | some weight ↦
          let again = allocate attempts left right (some weight) after in
          if not (DocTree.contains weight r.doc)
          then (some weight, after)
          else if repeats previous weight
          then (none, after)
          else again
    ]

-- `weight.sc.last() != Some(&site_digit)`.
abbrev pub ends_in : ℕ → List ℕ → Bool
ends_in d [] = false
ends_in d (x ∷ []) = x == d
ends_in d (x ∷ y ∷ xs) = ends_in d (y ∷ xs)

-- The root of a run is marked with the site's digit where it can be.
unfoldable pub mark_root : Weight → Weight → Weight → Replica → Weight
mark_root left right weight r =
    let digit = site_digit r.alloc.base r.site in
    let marked = record weight { sc = weight.sc ++ (digit ∷ []) } in
    if not (ends_in digit weight.sc)
      && Weight.lt left marked
      && Weight.lt marked right
      && not (DocTree.contains marked r.doc)
    then marked
    else weight

-- The atom before an index: `index.checked_sub(1).and_then(|i| self.doc.get_at(i))`.
abbrev pub atom_before : ℕ → Replica → Option Atom
atom_before index r = if index == 0 then none else DocTree.get_at (index - 1) r.doc

abbrev pub without_run : Replica → Replica
without_run r = record r { local_insert_run = none }

-- The next component of a run is a `u32`.
abbrev pub u32_limit : ℕ
u32_limit = 0x1_0000_0000

-- The candidate that continues a run, where the atom before is the run's last.
unfoldable pub continue_run : LocalInsertRun → Weight → Replica → Option Weight × Replica
continue_run run right r =
    let candidate =
      Weight.new run.root.f run.root.sn (run.root.sc ++ (run.next_component ∷ [])) r.site in
    if not (Weight.lt run.last candidate && Weight.lt candidate right)
      || DocTree.contains candidate r.doc
    then (none, without_run r)
    else if leb u32_limit (run.next_component + 1)
    then (none, record r { local_insert_run = some (record run { last = candidate }) })
    else (
      some candidate,
      record r {
        local_insert_run =
            some (record run { last = candidate; next_component = run.next_component + 1 });
      },
    )

-- `continue_local_insert_run`.
unfoldable pub continue_local_insert_run : ℕ → Weight → Replica → Option Weight × Replica
unfolding continue_run
continue_local_insert_run index right r = elim r.local_insert_run [
  | none ↦ (none, r)
  | some run ↦ elim (atom_before index r) [
    | none ↦ (none, r)
    | some left ↦
        if not (weight_eq.eqb left.weight run.last) || not (left.counter == run.last_counter)
        then (none, without_run r)
        else continue_run run right r
  ]
]

abbrev pub starting_run : Weight → LocalInsertRun
starting_run w = record { root = w; last = w; last_counter = 0; next_component = 1 }

-- The weight of a local insertion: one that continues the run, or one that starts a new run.
unfoldable pub choose_weight : ℕ → ℕ → Replica → Step Weight
unfolding neighbors continue_local_insert_run allocate mark_root
choose_weight index max_attempts r =
    let (left, right) = neighbors index r in
    let (continued, r1) = continue_local_insert_run index right r in
    elim continued [
      | some weight ↦ (ok weight, r1)
      | none ↦
          let (allocated, r2) = allocate (max max_attempts 1) left right none r1 in
          elim allocated [
            | none ↦ (err allocation_exhausted, r2)
            | some found ↦
                let weight = mark_root left right found r2 in
                (ok weight, record r2 { local_insert_run = some (starting_run weight) })
          ]
    ]

-- The run remembers the counter of its last insertion.
abbrev pub settled : Weight → ℕ → Option LocalInsertRun → Option LocalInsertRun
settled w c none = none
settled w c (some run) =
    if weight_eq.eqb run.last w then some (record run { last_counter = c }) else some run

abbrev pub settle_run : Weight → ℕ → Replica → Replica
settle_run w c r = record r { local_insert_run = settled w c r.local_insert_run }

abbrev pub insertion : Weight → ℕ → ℕ → ℕ → ℕ → Op
insertion w unit counter origin seq = record {
  kind = OpKind.ins unit;
  weight = w;
  counter = counter;
  origin = origin;
  seq = seq;
}

-- An insertion under a weight that the document does not have: the counter is noted, the operation
-- stamped, logged and applied.
unfoldable pub insert_weight : Weight → ℕ → Replica → Step Op
unfolding try_stamp apply_local
insert_weight w unit r = elim (checked_add64 r.counter 1) [
  | none ↦ (err integer_overflow, r)
  | some c ↦
      let noted = record r {
        counter = c;
        insertion_version = Clock.note r.site c r.insertion_version;
        counter_map = Table.insert w c r.counter_map;
      } in
      let (stamped, after) = try_stamp noted in
      elim stamped [
        | err e ↦ (err e, after)
        | ok seq ↦
            let op = insertion w unit c r.site seq in (ok op, settle_run w c (apply_local op after))
      ]
]

-- `try_local_insert`.
unfoldable pub try_local_insert : ℕ → ℕ → ℕ → Replica → Step Op
unfolding choose_weight insert_weight
try_local_insert index unit max_attempts r =
    let (chosen, after) = choose_weight (min index (len r)) max_attempts r in
    if (r.counter == u64_limit - 1) || (r.local_seq == u64_limit - 1)
    then (err integer_overflow, r)
    else elim chosen [ err e ↦ (err e, after) | ok w ↦ insert_weight w unit after ]

abbrev pub deletion : Weight → ℕ → ℕ → ℕ → Op
deletion w counter origin seq = record {
  kind = OpKind.del;
  weight = w;
  counter = counter;
  origin = origin;
  seq = seq;
}

-- `try_local_delete`, of the atom at the index.
unfoldable pub delete_weight : Weight → Replica → Step (Option Op)
unfolding try_stamp apply_local
delete_weight w r = elim (Table.lookup w r.counter_map) [
  | none ↦ (err invalid_operation, r)
  | some c ↦
      let (stamped, after) = try_stamp r in
      elim stamped [
        | err e ↦ (err e, after)
        | ok seq ↦ let op = deletion w c r.site seq in (ok (some op), apply_local op after)
      ]
]

unfoldable pub try_local_delete : ℕ → Replica → Step (Option Op)
unfolding delete_weight
try_local_delete index r =
    let stopped = without_run r in
    if leb (len r) index then (ok none, stopped) else elim (DocTree.get_at index r.doc) [
      | none ↦ (ok none, stopped)
      | some a ↦ delete_weight a.weight stopped
    ]

-- `try_local_insert_at_weight`: an own weight that a deletion released is used again.
unfoldable pub try_local_insert_at_weight : Weight → ℕ → Replica → Step Op
unfolding try_stamp apply_local
try_local_insert_at_weight w unit r =
    let stopped = without_run r in
    if (w.site == empty_site) || not (w.site == r.site) || DocTree.contains w r.doc
    then (err invalid_operation, stopped)
    else elim (checked_add64 r.counter 1) [
      | none ↦ (err integer_overflow, stopped)
      | some c ↦
          let noted = record stopped {
            counter = c;
            insertion_version = Clock.note r.site c r.insertion_version;
          } in
          let (stamped, after) = try_stamp noted in
          elim stamped [
            | err e ↦ (err e, after)
            | ok seq ↦
                let op = insertion w unit c r.site seq in
                (
                  ok op,
                  apply_local op
                      (record after { counter_map = Table.insert w c after.counter_map }),
                )
          ]
    ]
