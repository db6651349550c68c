-- ===== src/Replica/Drain/Keeps.antt =====
-- src/replica.rs: a drain keeps the document sound, and the queues of the other weights.
use esbt_web.Base.{
  ℕ, zero, suc, ◌≡◌, refl, sym, subst, ◌∙◌, Bool, true, false, not, ◌||◌, Bool-cases, inl, inr,
  List, [], ◌∷◌, ◌++◌, All, length, ◌==◌,
}
use esbt_web.Base.Eq.{nat_eq, pair_eq}
use esbt_web.Base.Table
use esbt_web.Base.Table.{lookup-insert, lookup-remove}
use esbt_web.Weight.{Weight}
use esbt_web.Weight.Equality.{weight_eq, eqb_sound}
use esbt_web.Op.{Op, OpKind}
use esbt_web.DocTree
use esbt_web.DocTree.Delete.{delete}
use esbt_web.DocTree.Invariant.{IsDoc}
use esbt_web.Update.VisibleEdit.{VisibleEdit}
use esbt_web.Replica.{Replica, PendingQueue}
use esbt_web.Replica.Pending.{for_weight, take, replace}
use esbt_web.Replica.Pending.Queue.{for_weight-replace}
use esbt_web.Replica.Drain.{
  Drained, verdict, apply_kind, apply_ready, insert_ready, delete_ready, is_deferred, ignore,
  ignore_kind, target_is_pending, insertion_known, push_some, push_all, sweep, passes, drain_weight,
  drain_weights,
}
use esbt_web.Replica.Drain.Step.{apply_ready-Reports, ignore-doc}
use esbt_web.Replica.Drain.Text.{Verdict-cases, OnOrdered, All-append-OnOrdered}

apply_kind-pending :
    (k : OpKind) (op : Op) (r : Replica) → (apply_kind k op r).1.pending ≡ r.pending
unfolding apply_kind insert_ready delete_ready
apply_kind-pending (OpKind.ins unit) op r = elim (Bool-cases (is_deferred op r)) [
  | inl deferred ↦ rw deferred refl
  | inr plain ↦ elim (Bool-cases (DocTree.contains op.weight r.doc)) [
    | inl there ↦ rw (plain, there) refl
    | inr new ↦
        let a : DocTree.Atom = record { weight = op.weight; unit = unit; counter = op.counter } in
        elim (Bool-cases (DocTree.insert a r.doc).0) [
          | inl inserted ↦ rw (plain, new, inserted) refl
          | inr refused ↦ rw (plain, new, refused) refl
        ]
  ]
]
apply_kind-pending OpKind.del op r = elim (Bool-cases (delete op.weight r.doc).0) [
  | inl deleted ↦ rw deleted refl
  | inr absent ↦ rw absent refl
]

ignore_kind-pending :
    (k : OpKind) (op : Op) (pending : List Op) (r : Replica)
    → (ignore_kind k op pending r).pending ≡ r.pending
unfolding ignore_kind
ignore_kind-pending OpKind.del op pending r =
    elim (Bool-cases (target_is_pending op.counter pending || not (insertion_known op r))) [
      | inl deferred ↦ rw deferred refl
      | inr redundant ↦ rw redundant refl
    ]
ignore_kind-pending (OpKind.ins unit) op pending r = refl

-- What a pass keeps: the document is sound, what it leaves is on ordered weights, and it touches no
-- other queue.
abbrev Keeps : Replica → Drained → Type 0
Keeps r d = IsDoc d.replica.doc × All OnOrdered d.pending × (d.replica.pending ≡ r.pending)

sweep-Keeps :
    (kept rest : List Op) (r : Replica) (edits : List VisibleEdit) (p : Bool)
    → IsDoc r.doc
    → All OnOrdered kept
    → All OnOrdered rest
    → Keeps r (sweep kept rest r edits p)
unfolding sweep apply_ready ignore
sweep-Keeps kept [] r edits p d hk hr = (d, hk, refl)
sweep-Keeps kept (op ∷ rest) r edits p d hk hr = elim (Verdict-cases (verdict op r)) [
  | inl ready ↦
      let after = (apply_ready op r).1 in
      let done =
        sweep-Keeps kept rest after (push_some edits (apply_ready op r).0) true
          (apply_ready-Reports op r hr.0 d).0 hk hr.1 in
      rw (ready, sweep) (done.0, done.1, done.2 ∙ apply_kind-pending op.kind op r)
  | inr (inl ignored) ↦
      let after = ignore op (kept ++ rest) r in
      let done =
        sweep-Keeps kept rest after edits true
          (subst IsDoc (sym (ignore-doc op (kept ++ rest) r)) d) hk hr.1 in
      rw (ignored, sweep) (done.0, done.1, done.2 ∙ ignore_kind-pending op.kind op (kept ++ rest) r)
  | inr (inr waiting) ↦
      rw (waiting, sweep)
        (sweep-Keeps (kept ++ (op ∷ [])) rest r edits p d (All-append-OnOrdered kept op hk hr.0)
          hr.1)
]

passes-Keeps :
    (fuel : ℕ) (pending : List Op) (r : Replica) (edits : List VisibleEdit)
    → IsDoc r.doc
    → All OnOrdered pending
    → Keeps r (passes fuel pending r edits)
unfolding passes
passes-Keeps zero pending r edits d h = (d, h, refl)
passes-Keeps (suc fuel) pending r edits d h =
    let pass = sweep [] pending r edits false in
    let done = sweep-Keeps [] pending r edits false d tt h in
    elim (Bool-cases pass.progressed) [
      | inl again ↦
          let more = passes-Keeps fuel pass.pending pass.replica pass.edits done.0 done.1 in
          rw (again, passes) (more.0, more.1, more.2 ∙ done.2)
      | inr stop ↦ rw (stop, passes) done
    ]

-- The document is sound, and every queued operation is on an ordered weight.
abbrev pub IsSound : Replica → Type 0
IsSound r = IsDoc r.doc × ((w : Weight) → All OnOrdered (for_weight w r.pending))

for_weight-take :
    (v w : Weight) (queue : List Op) (q : PendingQueue)
    → weight_eq.eqb v w ≡ false
    → for_weight v (replace w queue (take w q).1) ≡ for_weight v q
unfolding replace take
for_weight-take v w queue q h =
    let taken = Table.remove w q.by_weight in
    elim (Bool-cases (length queue == 0)) [
      | inl none_left ↦
          rw (none_left, lookup-remove v w taken, h, lookup-remove v w q.by_weight, h) refl
      | inr some_left ↦
          rw
            (
              some_left,
              lookup-insert v w queue (Table.remove w taken),
              h,
              lookup-remove v w taken,
              h,
              lookup-remove v w q.by_weight,
              h,
            )
            refl
    ]

drain_weight-IsSound : (w : Weight) (r : Replica) → IsSound r → IsSound (drain_weight w r).1
unfolding drain_weight take
drain_weight-IsSound w r h =
    let queue = for_weight w r.pending in
    let taken = record r { pending = (take w r.pending).1 } in
    let d = passes (suc (length queue)) queue taken [] in
    let kept = passes-Keeps (suc (length queue)) queue taken [] h.0 (h.1 w) in
    (
      kept.0,
      λ v. elim (Bool-cases (weight_eq.eqb v w)) [
        | inl same ↦
            subst (λ u. All OnOrdered (for_weight u (replace w d.pending d.replica.pending)))
              (sym (eqb_sound v w same))
              (rw (for_weight-replace w d.pending d.replica.pending) kept.1)
        | inr other ↦
            subst (λ q. All OnOrdered (for_weight v (replace w d.pending q))) (sym kept.2)
              (rw (for_weight-take v w d.pending r.pending other) (h.1 v))
      ],
    )

pub drain_weights-IsSound :
    (ws : List Weight) (edits : List VisibleEdit) (r : Replica)
    → IsSound r
    → IsSound (drain_weights ws edits r).1
unfolding drain_weights
drain_weights-IsSound [] edits r h = h
drain_weights-IsSound (w ∷ ws) edits r h =
    let drained = drain_weight w r in
    drain_weights-IsSound ws (push_all edits drained.0) drained.1 (drain_weight-IsSound w r h)
