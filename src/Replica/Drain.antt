-- ===== src/Replica/Drain.antt =====
-- src/replica.rs: causal readiness, and the loop that applies what is ready.
pub mod Step
pub mod Frame
pub mod Text
pub mod Fixpoint
pub mod Keeps
use esbt_web.Base.{
  ℕ, zero, suc, ◌+◌, ◌%◌, ◌^◌, ◌≡◌, refl, Bool, true, false, not, ◌&&◌, ◌||◌, Option, none, some,
  List, [], ◌∷◌, ◌++◌, length, leb, ◌==◌, if◌then◌else◌,
}
use esbt_web.Base.Eq.{nat_eq, pair_eq}
use esbt_web.Base.Table
use esbt_web.Weight.{Weight}
use esbt_web.Weight.Equality.{weight_eq}
use esbt_web.Op.{Op, OpKind, is_ins}
use esbt_web.Clock
use esbt_web.DocTree
use esbt_web.DocTree.{Atom, DocTree}
use esbt_web.DocTree.Delete.{delete}
use esbt_web.Update.VisibleEdit.{VisibleEdit, push_visible_edit}
use esbt_web.Replica.{Replica}
use esbt_web.Replica.Pending

-- The counter of the live atom under a weight.
abbrev pub live : Weight → Replica → Option ℕ
live w r = elim (DocTree.find w r.doc) [ none ↦ none | some found ↦ some found.1 ]

-- `is_causally_ready`: an insertion where the weight is free or holds the same counter, a deletion
-- where the weight holds its counter.
unfoldable pub ready_at : OpKind → ℕ → Option ℕ → Bool
ready_at (OpKind.ins unit) counter none = true
ready_at (OpKind.ins unit) counter (some c) = c == counter
ready_at OpKind.del counter none = false
ready_at OpKind.del counter (some c) = c == counter

unfoldable pub is_causally_ready : Op → Replica → Bool
unfolding ready_at
is_causally_ready op r = ready_at op.kind op.counter (live op.weight r)

-- `should_ignore`, past the test of the delete log.
unfoldable pub ignored_at : OpKind → ℕ → Bool → Option ℕ → Bool
ignored_at (OpKind.ins unit) counter known none = false
ignored_at (OpKind.ins unit) counter known (some c) = leb counter c
ignored_at OpKind.del counter known none = known
ignored_at OpKind.del counter known (some c) = not (c == counter)

-- The insertion that an operation names has a receipt.
abbrev pub insertion_known : Op → Replica → Bool
insertion_known op r = Clock.contains op.weight.site op.counter r.insertion_version

abbrev pub is_deferred : Op → Replica → Bool
is_deferred op r = Table.member (op.weight, op.counter) r.delete_log

unfoldable pub should_ignore : Op → Replica → Bool
unfolding ignored_at
should_ignore op r =
    is_deferred op r || ignored_at op.kind op.counter (insertion_known op r) (live op.weight r)

-- `visible_revision.wrapping_add(1)` of a `u128`.
abbrev pub next_revision : ℕ → ℕ
next_revision n = (n + 1) % 2 ^ 128

abbrev pub point_insert : ℕ → ℕ → VisibleEdit
point_insert index unit = record { from = index; to = index; inserted = unit ∷ [] }

abbrev pub point_delete : ℕ → VisibleEdit
point_delete index = record { from = index; to = index + 1; inserted = [] }

-- The index of a weight in the document; the source panics where an inserted weight has none.
abbrev pub index_in : Weight → DocTree → Option ℕ
index_in w doc = DocTree.index_of w 0 doc

abbrev pub edit_at : (ℕ → VisibleEdit) → Option ℕ → Option VisibleEdit
edit_at edit none = none
edit_at edit (some index) = some (edit index)

-- The insertion of `apply_ready`, past the tests of the delete log and of the document.
unfoldable pub insert_ready : Op → ℕ → Replica → Option VisibleEdit × Replica
insert_ready op unit r =
    let (inserted, doc) =
      DocTree.insert (record { weight = op.weight; unit = unit; counter = op.counter }) r.doc in
    if inserted
    then (
      edit_at (λ index. point_insert index unit) (index_in op.weight doc),
      record r {
        doc = doc;
        counter_map = Table.insert op.weight op.counter r.counter_map;
        visible_revision = next_revision r.visible_revision;
      },
    )
    else (none, r)

unfoldable pub delete_ready : Op → Replica → Option VisibleEdit × Replica
delete_ready op r =
    let index = index_in op.weight r.doc in
    let (deleted, doc) = delete op.weight r.doc in
    if deleted
    then (
      edit_at point_delete index,
      record r {
        doc = doc;
        counter_map = Table.remove op.weight r.counter_map;
        visible_revision = next_revision r.visible_revision;
      },
    )
    else (none, r)

abbrev pub undefer : Op → Replica → Replica
undefer op r = record r { delete_log = Table.discard (op.weight, op.counter) r.delete_log }

-- `apply_ready`.
unfoldable pub apply_kind : OpKind → Op → Replica → Option VisibleEdit × Replica
unfolding insert_ready delete_ready
apply_kind (OpKind.ins unit) op r =
    if is_deferred op r
    then (none, undefer op r)
    else if DocTree.contains op.weight r.doc
    then (none, r)
    else insert_ready op unit r
apply_kind OpKind.del op r = delete_ready op r

unfoldable pub apply_ready : Op → Replica → Option VisibleEdit × Replica
unfolding apply_kind
apply_ready op r = apply_kind op.kind op r

-- `pending.iter().any(…)`: whether the insertion that a deletion names is still queued.
unfoldable pub target_is_pending : ℕ → List Op → Bool
target_is_pending counter [] = false
target_is_pending counter (op ∷ ops) =
    (is_ins op && (op.counter == counter)) || target_is_pending counter ops

-- What becomes of an ignored operation: a deletion is deferred unless its insertion was received and
-- is not queued, and an insertion takes the deferred deletion of it out.
unfoldable pub ignore_kind : OpKind → Op → List Op → Replica → Replica
unfolding target_is_pending
ignore_kind OpKind.del op pending r =
    if target_is_pending op.counter pending || not (insertion_known op r)
    then record r { delete_log = Table.add (op.weight, op.counter) r.delete_log }
    else r
ignore_kind (OpKind.ins unit) op pending r = undefer op r

unfoldable pub ignore : Op → List Op → Replica → Replica
unfolding ignore_kind
ignore op pending r = ignore_kind op.kind op pending r

pub data Verdict : Type 0 where
  ready ignored waiting : Verdict

unfoldable pub verdict : Op → Replica → Verdict
unfolding is_causally_ready should_ignore
verdict op r =
    if is_causally_ready op r
    then Verdict.ready
    else if should_ignore op r
    then Verdict.ignored
    else Verdict.waiting

abbrev pub push_some : List VisibleEdit → Option VisibleEdit → List VisibleEdit
push_some edits none = edits
push_some edits (some edit) = push_visible_edit edits edit

pub record Drained : Type 0 where
  pub pending : List Op
  pub replica : Replica
  pub edits : List VisibleEdit
  pub progressed : Bool

-- One pass of the inner loop of `drain_weight`: `kept` are the operations before the index, `rest`
-- those from it on.
unfoldable pub sweep : List Op → List Op → Replica → List VisibleEdit → Bool → Drained
unfolding verdict apply_ready ignore
sweep kept [] r edits progressed = record {
  pending = kept;
  replica = r;
  edits = edits;
  progressed = progressed;
}
sweep kept (op ∷ rest) r edits progressed = elim (verdict op r) [
  | Verdict.ready ↦
      let applied = apply_ready op r in sweep kept rest applied.1 (push_some edits applied.0) true
  | Verdict.ignored ↦ sweep kept rest (ignore op (kept ++ rest) r) edits true
  | Verdict.waiting ↦ sweep (kept ++ (op ∷ [])) rest r edits progressed
]

-- `while progressed`. A pass that made progress took an operation out, so one more pass than there
-- are operations is enough.
unfoldable pub passes : ℕ → List Op → Replica → List VisibleEdit → Drained
unfolding sweep
passes zero pending r edits = record {
  pending = pending;
  replica = r;
  edits = edits;
  progressed = true;
}
passes (suc fuel) pending r edits =
    let pass = sweep [] pending r edits false in
    elim pass.progressed [ true ↦ passes fuel pass.pending pass.replica pass.edits | false ↦ pass ]

-- `drain_weight`: the edits, and the replica after.
unfoldable pub drain_weight : Weight → Replica → List VisibleEdit × Replica
unfolding passes Pending.take Pending.replace
drain_weight w r =
    let (queue, taken) = Pending.take w r.pending in
    let drained = passes (suc (length queue)) queue (record r { pending = taken }) [] in
    let after = drained.replica in
    (drained.edits, record after { pending = Pending.replace w drained.pending after.pending })

-- `for edit in … { push_visible_edit(&mut edits, edit) }`.
unfoldable pub push_all : List VisibleEdit → List VisibleEdit → List VisibleEdit
push_all edits [] = edits
push_all edits (edit ∷ more) = push_all (push_visible_edit edits edit) more

-- `drain_weights`, after the edits that there are.
unfoldable pub drain_weights : List Weight → List VisibleEdit → Replica → List VisibleEdit × Replica
unfolding drain_weight push_all
drain_weights [] edits r = (edits, r)
drain_weights (w ∷ ws) edits r =
    let drained = drain_weight w r in drain_weights ws (push_all edits drained.0) drained.1

-- `drain`.
abbrev pub drain : Replica → Replica
drain r = (drain_weights (Pending.weights r.pending) [] r).1
