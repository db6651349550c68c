-- ===== src/Replica/Drain/Frame.antt =====
-- src/replica.rs: what a drain leaves alone.
use esbt_web.Base.{
  ℕ, zero, suc, ◌≡◌, refl, ◌∙◌, Bool, true, false, not, ◌||◌, Bool-cases, inl, inr, List, [], ◌∷◌,
  ◌++◌, length,
}
use esbt_web.Base.Eq.{nat_eq, pair_eq}
use esbt_web.Weight.{Weight}
use esbt_web.Op.{Op, OpKind}
use esbt_web.DocTree
use esbt_web.DocTree.Delete.{delete}
use esbt_web.Update.VisibleEdit.{VisibleEdit}
use esbt_web.Replica.{Replica, PendingQueue}
use esbt_web.Replica.Pending
use esbt_web.Replica.Drain.{
  verdict, apply_kind, apply_ready, insert_ready, delete_ready, is_deferred, ignore, ignore_kind,
  target_is_pending, insertion_known, push_some, sweep, passes, drain_weight, drain_weights,
  push_all,
}
use esbt_web.Replica.Drain.Text.{Verdict-cases}

-- The two replicas have the same identity, log, receipts and local state.
pub record SameHistory (r s : Replica) : Type 0 where
  pub site : s.site ≡ r.site
  pub alloc : s.alloc ≡ r.alloc
  pub log : s.log ≡ r.log
  pub version : s.version ≡ r.version
  pub insertion_version : s.insertion_version ≡ r.insertion_version
  pub counter : s.counter ≡ r.counter
  pub local_seq : s.local_seq ≡ r.local_seq
  pub local_insert_run : s.local_insert_run ≡ r.local_insert_run

pub SameHistory-refl : (r : Replica) → SameHistory r r
SameHistory-refl r = record {
  site = refl;
  alloc = refl;
  log = refl;
  version = refl;
  insertion_version = refl;
  counter = refl;
  local_seq = refl;
  local_insert_run = refl;
}

pub SameHistory-trans : (r s t : Replica) → SameHistory r s → SameHistory s t → SameHistory r t
SameHistory-trans r s t h k = record {
  site = k.site ∙ h.site;
  alloc = k.alloc ∙ h.alloc;
  log = k.log ∙ h.log;
  version = k.version ∙ h.version;
  insertion_version = k.insertion_version ∙ h.insertion_version;
  counter = k.counter ∙ h.counter;
  local_seq = k.local_seq ∙ h.local_seq;
  local_insert_run = k.local_insert_run ∙ h.local_insert_run;
}

-- Only the document, the queue, the delete log, the counters of live atoms and the revision differ.
same :
    (r : Replica) (doc : DocTree.DocTree) (pending : PendingQueue)
    (delete_log counter_map : List (Weight × ℕ)) (visible_revision : ℕ)
    → SameHistory r (record r {
      doc = doc;
      pending = pending;
      delete_log = delete_log;
      counter_map = counter_map;
      visible_revision = visible_revision;
    })
same r doc pending delete_log counter_map visible_revision = record {
  site = refl;
  alloc = refl;
  log = refl;
  version = refl;
  insertion_version = refl;
  counter = refl;
  local_seq = refl;
  local_insert_run = refl;
}

apply_kind-SameHistory : (k : OpKind) (op : Op) (r : Replica) → SameHistory r (apply_kind k op r).1
unfolding apply_kind insert_ready delete_ready
apply_kind-SameHistory (OpKind.ins unit) op r = elim (Bool-cases (is_deferred op r)) [
  | inl deferred ↦ rw deferred (same r _ _ _ _ _)
  | inr plain ↦ elim (Bool-cases (DocTree.contains op.weight r.doc)) [
    | inl there ↦ rw (plain, there) (SameHistory-refl r)
    | inr new ↦
        let a : DocTree.Atom = record { weight = op.weight; unit = unit; counter = op.counter } in
        elim (Bool-cases (DocTree.insert a r.doc).0) [
          | inl inserted ↦ rw (plain, new, inserted) (same r _ _ _ _ _)
          | inr refused ↦ rw (plain, new, refused) (SameHistory-refl r)
        ]
  ]
]
apply_kind-SameHistory OpKind.del op r = elim (Bool-cases (delete op.weight r.doc).0) [
  | inl deleted ↦ rw deleted (same r _ _ _ _ _)
  | inr absent ↦ rw absent (SameHistory-refl r)
]

pub apply_ready-SameHistory : (op : Op) (r : Replica) → SameHistory r (apply_ready op r).1
unfolding apply_ready
apply_ready-SameHistory op r = apply_kind-SameHistory op.kind op r

ignore_kind-SameHistory :
    (k : OpKind) (op : Op) (pending : List Op) (r : Replica)
    → SameHistory r (ignore_kind k op pending r)
unfolding ignore_kind
ignore_kind-SameHistory OpKind.del op pending r =
    elim (Bool-cases (target_is_pending op.counter pending || not (insertion_known op r))) [
      | inl deferred ↦ rw deferred (same r _ _ _ _ _)
      | inr redundant ↦ rw redundant (SameHistory-refl r)
    ]
ignore_kind-SameHistory (OpKind.ins unit) op pending r = same r _ _ _ _ _

ignore-SameHistory :
    (op : Op) (pending : List Op) (r : Replica) → SameHistory r (ignore op pending r)
unfolding ignore
ignore-SameHistory op pending r = ignore_kind-SameHistory op.kind op pending r

sweep-SameHistory :
    (kept rest : List Op) (r : Replica) (edits : List VisibleEdit) (p : Bool)
    → SameHistory r (sweep kept rest r edits p).replica
unfolding sweep
sweep-SameHistory kept [] r edits p = SameHistory-refl r
sweep-SameHistory kept (op ∷ rest) r edits p = elim (Verdict-cases (verdict op r)) [
  | inl ready ↦
      let after = (apply_ready op r).1 in
      let more = push_some edits (apply_ready op r).0 in
      rw (ready, sweep)
        (SameHistory-trans r after (sweep kept rest after more true).replica
          (apply_ready-SameHistory op r) (sweep-SameHistory kept rest after more true))
  | inr (inl ignored) ↦
      let after = ignore op (kept ++ rest) r in
      rw (ignored, sweep)
        (SameHistory-trans r after (sweep kept rest after edits true).replica
          (ignore-SameHistory op (kept ++ rest) r) (sweep-SameHistory kept rest after edits true))
  | inr (inr waiting) ↦ rw (waiting, sweep) (sweep-SameHistory (kept ++ (op ∷ [])) rest r edits p)
]

passes-SameHistory :
    (fuel : ℕ) (pending : List Op) (r : Replica) (edits : List VisibleEdit)
    → SameHistory r (passes fuel pending r edits).replica
unfolding passes
passes-SameHistory zero pending r edits = SameHistory-refl r
passes-SameHistory (suc fuel) pending r edits =
    let pass = sweep [] pending r edits false in
    let done = sweep-SameHistory [] pending r edits false in
    elim (Bool-cases pass.progressed) [
      | inl again ↦
          rw (again, passes)
            (SameHistory-trans r pass.replica
              (passes fuel pass.pending pass.replica pass.edits).replica done
              (passes-SameHistory fuel pass.pending pass.replica pass.edits))
      | inr stop ↦ rw (stop, passes) done
    ]

-- `drain_weight` leaves the log, the receipts, the counters, the allocator and the run.
pub drain_weight-SameHistory : (w : Weight) (r : Replica) → SameHistory r (drain_weight w r).1
unfolding drain_weight Pending.take
drain_weight-SameHistory w r =
    let queue = Pending.for_weight w r.pending in
    let taken = record r { pending = (Pending.take w r.pending).1 } in
    let d = passes (suc (length queue)) queue taken [] in
    SameHistory-trans r taken (drain_weight w r).1 (same r _ _ _ _ _) (
      SameHistory-trans taken d.replica (drain_weight w r).1
        (passes-SameHistory (suc (length queue)) queue taken []) (same d.replica _ _ _ _ _))

pub drain_weights-SameHistory :
    (ws : List Weight) (edits : List VisibleEdit) (r : Replica)
    → SameHistory r (drain_weights ws edits r).1
unfolding drain_weights
drain_weights-SameHistory [] edits r = SameHistory-refl r
drain_weights-SameHistory (w ∷ ws) edits r =
    let drained = drain_weight w r in
    SameHistory-trans r drained.1 (drain_weights ws (push_all edits drained.0) drained.1).1
      (drain_weight-SameHistory w r)
      (drain_weights-SameHistory ws (push_all edits drained.0) drained.1)
