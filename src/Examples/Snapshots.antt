-- ===== src/Examples/Snapshots.antt =====
-- src/replica.rs: a snapshot of two atoms, installed.
use esbt_web.Base.{◌≡◌, ◌⊎◌, true, []}
use esbt_web.Clock
use esbt_web.Replica.Drain.Keeps.{IsSound}
use esbt_web.Replica.Snapshot.{
  Snapshot, MergeOutcome, SnapshotMergeError, snapshot, install_snapshot, merge_snapshot,
}
use esbt_web.Replica.Snapshot.Install.{install_snapshot-IsSound}
use esbt_web.Replica.Snapshot.Merge.{merge_snapshot-IsSound}
use esbt_web.Examples.Documents.{listed, listed-IsSorted}
use esbt_web.Examples.Replicas.{empty, empty-IsSound}

abbrev two_received : Clock.Version
two_received = Clock.note 9 2 (Clock.note 9 1 Clock.empty)

abbrev taken : Snapshot
taken = record {
  atoms = listed;
  delete_log = [];
  version = two_received;
  insertions = two_received;
}

install_snapshot-IsSound_example :
    let after = install_snapshot taken empty in
    IsSound after
    × ((snapshot after).atoms ≡ taken.atoms)
    × ((snapshot after).version ≡ taken.version)
    × ((snapshot after).insertions ≡ taken.insertions)
    × (after.site ≡ empty.site)
install_snapshot-IsSound_example = install_snapshot-IsSound taken empty listed-IsSorted

merge_snapshot-IsSound_example :
    let result = merge_snapshot taken empty in
    IsSound result.1
    × ((result.1 ≡ empty)
        ⊎ (result.0 ≡ MergeOutcome.merged true)
        ⊎ (result.0 ≡ MergeOutcome.refused SnapshotMergeError.corrupt_retained_history))
merge_snapshot-IsSound_example = merge_snapshot-IsSound taken empty listed-IsSorted empty-IsSound
