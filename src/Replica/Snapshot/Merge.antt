-- ===== src/Replica/Snapshot/Merge.antt =====
-- src/replica.rs: a replica stays sound when it merges a snapshot.
use esbt_web.Base.{◌≡◌, refl, Bool-cases, true, ◌&&◌, max, ◌⊎◌, inl, inr, List, [], ◌∷◌}
use esbt_web.Error.{Result-cases}
use esbt_web.Op.{Op}
use esbt_web.Clock
use esbt_web.DocTree.Sorted.{IsSorted}
use esbt_web.Replica.{Replica}
use esbt_web.Replica.Drain.Keeps.{IsSound}
use esbt_web.Replica.Receive.{import_operation, ops_missing_from}
use esbt_web.Replica.Receive.Sound.{import_operation-IsSound}
use esbt_web.Replica.Snapshot.{
  Snapshot, MergeOutcome, SnapshotMergeError, snapshot, install_snapshot, replay_all, rebase,
  merge_snapshot, note_all, eqb_snapshot,
}
use esbt_web.Replica.Snapshot.Install.{install_snapshot-IsSound}

replay_all-IsSound : (ops : List Op) (r : Replica) → IsSound r → IsSound (replay_all ops r).1
unfolding replay_all
replay_all-IsSound [] r h = h
replay_all-IsSound (op ∷ ops) r h = elim (Result-cases (import_operation op r)) [
  | inl (e, refused) ↦ rw (refused, replay_all) h
  | inr ((new, after), taken) ↦
      rw (taken, replay_all)
        (replay_all-IsSound ops after (import_operation-IsSound op r new after h taken))
]

rebase-IsSound :
    (snap : Snapshot) (preserved : List Op) (r : Replica)
    → IsSorted snap.atoms
    → IsSound (rebase snap preserved r).1
unfolding rebase
rebase-IsSound snap preserved r s =
    let installed = install_snapshot snap r in
    let raised = record installed {
      local_seq = max installed.local_seq r.local_seq;
      counter = max installed.counter r.counter;
    } in
    let replayed = replay_all-IsSound preserved raised (install_snapshot-IsSound snap r s).0 in
    elim (Bool-cases (replay_all preserved raised).0) [
      | inl complete ↦ rw complete replayed
      | inr stopped ↦ rw stopped replayed
    ]

rebased :
    (snap : Snapshot) (preserved : List Op) (r : Replica)
    → let answer = (rebase snap preserved r).0 in
      (answer ≡ MergeOutcome.merged true)
      ⊎ (answer ≡ MergeOutcome.refused SnapshotMergeError.corrupt_retained_history)
unfolding rebase
rebased snap preserved r =
    let installed = install_snapshot snap r in
    let raised = record installed {
      local_seq = max installed.local_seq r.local_seq;
      counter = max installed.counter r.counter;
    } in
    elim (Bool-cases (replay_all preserved raised).0) [
      | inl complete ↦ rw complete (inl refl)
      | inr stopped ↦ rw stopped (inr refl)
    ]

-- A sound replica (stored sizes right, atoms ascending, both they and the queued operations with
-- weights in lowest terms) stays sound when it merges a snapshot whose atoms ascend by weights in
-- lowest terms, whatever the answer. Unless the answer is that a new base was installed or that
-- retained history is corrupt, the replica stays as it was.
pub merge_snapshot-IsSound :
    (snap : Snapshot) (r : Replica)
    → IsSorted snap.atoms
    → IsSound r
    → let result = merge_snapshot snap r in
      IsSound result.1
      × ((result.1 ≡ r)
          ⊎ (result.0 ≡ MergeOutcome.merged true)
          ⊎ (result.0 ≡ MergeOutcome.refused SnapshotMergeError.corrupt_retained_history))
unfolding merge_snapshot
merge_snapshot-IsSound snap r s h = elim (Bool-cases (Clock.is_contiguous snap.version)) [
  | inr gaps ↦ rw gaps (h, inl refl)
  | inl whole ↦
      let same = Clock.covers r.version snap.version && Clock.covers snap.version r.version in
      elim (Bool-cases same) [
        | inl level ↦ elim (Bool-cases (eqb_snapshot (snapshot r) snap)) [
          | inl equal ↦ rw (whole, level, equal) (h, inl refl)
          | inr conflict ↦ rw (whole, level, conflict) (h, inl refl)
        ]
        | inr apart ↦
            let preserved = ops_missing_from snap.version r in
            elim (Bool-cases (Clock.covers (note_all preserved snap.version) r.version)) [
              | inr missing ↦ rw (whole, apart, missing) (h, inl refl)
              | inl kept ↦
                  rw (whole, apart, kept)
                    (rebase-IsSound snap preserved r s, inr (rebased snap preserved r))
            ]
      ]
]
