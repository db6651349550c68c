-- ===== src/Replica/Snapshot.antt =====
-- src/replica.rs: compact snapshots of a replica, and `Snapshot` of src/snapshot.rs.
pub mod Install
pub mod Merge
use esbt_web.Base.{
  ℕ, zero, suc, ◌+◌, max, Ordering, ◌≡◌, refl, Bool, true, false, not, ◌&&◌, Option, none, some,
  List, [], ◌∷◌, ◌==◌, ltb, if◌then◌else◌,
}
use esbt_web.Base.Eq.{eqb_list, nat_eq, pair_eq}
use esbt_web.Base.Table
use esbt_web.Error.{Result, ok, err}
use esbt_web.Weight
use esbt_web.Weight.{Weight}
use esbt_web.Weight.Equality.{weight_eq}
use esbt_web.Op.{Op}
use esbt_web.Clock
use esbt_web.Clock.{Version, SiteVersion}
use esbt_web.DocTree
use esbt_web.DocTree.{Atom, DocTree, atoms}
use esbt_web.Replica.{Replica, LocalInsertRun}
use esbt_web.Replica.Pending.{clear}
use esbt_web.Replica.Drain.{next_revision}
use esbt_web.Replica.Receive.{import_operation, ops_missing_from}

pub record Snapshot : Type 0 where
  pub atoms : List Atom
  pub delete_log : List (Weight × ℕ)
  pub version : Version
  pub insertions : Version

-- `delete_log.sort()`, by weight and then by counter.
abbrev pub deletes_before : Weight × ℕ → Weight × ℕ → Bool
deletes_before a b = elim (Weight.cmp a.0 b.0) [
  | Ordering.lt ↦ true
  | Ordering.eq ↦ ltb a.1 b.1
  | Ordering.gt ↦ false
]

unfoldable pub insert_delete : Weight × ℕ → List (Weight × ℕ) → List (Weight × ℕ)
insert_delete d [] = d ∷ []
insert_delete d (e ∷ log) = if deletes_before e d then e ∷ insert_delete d log else d ∷ e ∷ log

unfoldable pub sort_deletes : List (Weight × ℕ) → List (Weight × ℕ)
unfolding insert_delete
sort_deletes [] = []
sort_deletes (d ∷ log) = insert_delete d (sort_deletes log)

-- `Replica::snapshot`.
unfoldable pub snapshot : Replica → Snapshot
unfolding sort_deletes
snapshot r = record {
  atoms = atoms r.doc;
  delete_log = sort_deletes r.delete_log;
  version = r.version;
  insertions = r.insertion_version;
}

-- The atoms of a snapshot are inserted one by one, each with its counter.
unfoldable pub install_atoms : List Atom → DocTree → DocTree
install_atoms [] doc = doc
install_atoms (a ∷ rest) doc = install_atoms rest (DocTree.insert a doc).1

unfoldable pub install_counters : List Atom → List (Weight × ℕ) → List (Weight × ℕ)
install_counters [] counters = counters
install_counters (a ∷ rest) counters =
    install_counters rest (Table.insert a.weight a.counter counters)

unfoldable pub install_deletes : List (Weight × ℕ) → List (Weight × ℕ) → List (Weight × ℕ)
install_deletes [] log = log
install_deletes (d ∷ rest) log = install_deletes rest (Table.add d log)

-- The largest counter of the deferred deletions of a site's weights.
unfoldable pub largest_own : ℕ → List (Weight × ℕ) → ℕ
largest_own site [] = 0
largest_own site ((w, counter) ∷ rest) =
    if w.site == site then max counter (largest_own site rest) else largest_own site rest

-- `==` of atoms.
unfoldable pub eqb_atoms : List Atom → List Atom → Bool
eqb_atoms [] [] = true
eqb_atoms [] (b ∷ bs) = false
eqb_atoms (a ∷ l) [] = false
eqb_atoms (a ∷ l) (b ∷ bs) =
    weight_eq.eqb a.weight b.weight
    && (a.unit == b.unit)
    && (a.counter == b.counter)
    && eqb_atoms l bs

-- `Replica::install_snapshot`.
unfoldable pub install_snapshot : Snapshot → Replica → Replica
unfolding install_atoms install_counters install_deletes largest_own eqb_atoms
install_snapshot snap r =
    let doc = install_atoms snap.atoms DocTree.leaf in
    record r {
      doc = doc;
      counter_map = install_counters snap.atoms [];
      delete_log = install_deletes snap.delete_log [];
      pending = clear r.pending;
      log = [];
      local_insert_run = none;
      version = snap.version;
      insertion_version = snap.insertions;
      local_seq = Clock.highest_seen r.site snap.version;
      counter =
          max (Clock.highest_seen r.site snap.insertions) (largest_own r.site snap.delete_log);
      visible_revision =
          if eqb_atoms (atoms r.doc) (atoms doc)
          then r.visible_revision
          else next_revision r.visible_revision;
    }

pub data SnapshotMergeError : Type 0 where
  snapshot_has_sequence_gaps missing_local_history : SnapshotMergeError
  corrupt_retained_history snapshot_state_conflict : SnapshotMergeError

-- What `merge_snapshot` returns: an error, or whether a new base was installed.
pub data MergeOutcome : Type 0 where
  refused : SnapshotMergeError → MergeOutcome
  merged : Bool → MergeOutcome

-- `==` of versions and of snapshots.
unfoldable pub eqb_sites : List (ℕ × SiteVersion) → List (ℕ × SiteVersion) → Bool
eqb_sites [] [] = true
eqb_sites [] ((k, t) ∷ n) = false
eqb_sites ((j, s) ∷ m) [] = false
eqb_sites ((j, s) ∷ m) ((k, t) ∷ n) =
    (j == k)
    && (s.contiguous == t.contiguous)
    && eqb_list s.seen_after t.seen_after
    && eqb_sites m n

abbrev pub eqb_version : Version → Version → Bool
eqb_version v w = eqb_sites v.sites w.sites && (v.sparse_count == w.sparse_count)

abbrev pub eqb_snapshot : Snapshot → Snapshot → Bool
eqb_snapshot a b =
    eqb_atoms a.atoms b.atoms
    && eqb_list a.delete_log b.delete_log
    && eqb_version a.version b.version
    && eqb_version a.insertions b.insertions

unfoldable pub note_all : List Op → Version → Version
note_all [] v = v
note_all (op ∷ ops) v = note_all ops (Clock.note op.origin op.seq v)

-- The preserved operations are imported again; the first that is refused ends it.
unfoldable pub replay_all : List Op → Replica → Bool × Replica
unfolding import_operation
replay_all [] r = (true, r)
replay_all (op ∷ ops) r = elim (import_operation op r) [
  | err e ↦ (false, r)
  | ok (new, after) ↦ replay_all ops after
]

-- The run survives where its last atom is still live under its counter.
abbrev pub surviving : Option LocalInsertRun → DocTree → Option LocalInsertRun
surviving none doc = none
surviving (some run) doc = elim (DocTree.find run.last doc) [
  | none ↦ none
  | some found ↦ if found.1 == run.last_counter then some run else none
]

-- The rebase of `merge_snapshot`: the snapshot is installed and the preserved operations replayed.
unfoldable pub rebase : Snapshot → List Op → Replica → MergeOutcome × Replica
unfolding install_snapshot replay_all
rebase snap preserved r =
    let installed = install_snapshot snap r in
    let raised = record installed {
      local_seq = max installed.local_seq r.local_seq;
      counter = max installed.counter r.counter;
    } in
    let (complete, after) = replay_all preserved raised in
    if complete
    then (
      MergeOutcome.merged true,
      record after { local_insert_run = surviving r.local_insert_run after.doc },
    )
    else (MergeOutcome.refused SnapshotMergeError.corrupt_retained_history, after)

-- `Replica::merge_snapshot`.
unfoldable pub merge_snapshot : Snapshot → Replica → MergeOutcome × Replica
unfolding snapshot eqb_sites note_all rebase
merge_snapshot snap r =
    let preserved = ops_missing_from snap.version r in
    if not (Clock.is_contiguous snap.version)
    then (MergeOutcome.refused SnapshotMergeError.snapshot_has_sequence_gaps, r)
    else if Clock.covers r.version snap.version && Clock.covers snap.version r.version
    then if eqb_snapshot (snapshot r) snap
      then (MergeOutcome.merged false, r)
      else (MergeOutcome.refused SnapshotMergeError.snapshot_state_conflict, r)
    else if not (Clock.covers (note_all preserved snap.version) r.version)
    then (MergeOutcome.refused SnapshotMergeError.missing_local_history, r)
    else rebase snap preserved r
