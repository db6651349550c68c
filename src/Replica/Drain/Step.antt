-- ===== src/Replica/Drain/Step.antt =====
-- src/replica.rs: what applying or ignoring one operation does to the document and to the text.
use esbt_web.Base.{
  ℕ, suc, ◌+◌, ◌-◌, ◌≤◌, ◌≡◌, refl, ap, false, not, ◌||◌, Bool-cases, inl, inr, Option, none, some,
  List, length, arith,
}
use esbt_web.Base.Eq.{nat_eq, pair_eq}
use esbt_web.Weight.Order.{IsOrdered}
use esbt_web.Weight.Equality.{weight_eq}
use esbt_web.Op.{Op, OpKind}
use esbt_web.DocTree
use esbt_web.DocTree.{Atom, DocTree}
use esbt_web.DocTree.Delete.{delete}
use esbt_web.DocTree.Invariant.{
  IsDoc, insert-IsDoc, delete-IsDoc, viewed-insert, viewed-delete, viewed-delete_absent, first,
}
use esbt_web.DocTree.Edits.{Makes, insert-Makes, delete-Makes}
use esbt_web.Update.VisibleEdit.{VisibleEdit}
use esbt_web.Update.VisibleEdit.Replay.{length-edited}
use esbt_web.Replica.{Replica, text}
use esbt_web.Replica.Drain.{
  apply_kind, apply_ready, insert_ready, delete_ready, is_deferred, point_insert, point_delete,
  ignore, ignore_kind, target_is_pending, insertion_known,
}

-- An edit makes the new text of the old one, and no edit leaves it; at most one unit is added.
abbrev pub Applies : Option VisibleEdit → List ℕ → List ℕ → Type 0
Applies none old new = new ≡ old
Applies (some e) old new = Makes e old new × (length new ≤ suc (length old))

-- A step that keeps the invariant of the document, and reports what it did to the text.
abbrev pub Reports : Replica → Option VisibleEdit × Replica → Type 0
Reports r (edit, after) = IsDoc after.doc × Applies edit (text r) (text after)

Makes-length :
    (e : VisibleEdit) (old new : List ℕ)
    → length e.inserted ≤ e.to + 1 - e.from
    → Makes e old new
    → length new ≤ suc (length old)
Makes-length e old new small m = omega (arith, m, ap length m.0, length-edited e old m.1 m.2, small)

insert_ready-Reports :
    (op : Op) (unit : ℕ) (r : Replica)
    → IsOrdered op.weight
    → IsDoc r.doc
    → DocTree.contains op.weight r.doc ≡ false
    → Reports r (insert_ready op unit r)
unfolding insert_ready
insert_ready-Reports op unit r ho d new =
    let a : Atom = record { weight = op.weight; unit = unit; counter = op.counter } in
    let made = insert-Makes a r.doc ho d new in
    let e = point_insert made.0 unit in
    rw (first (viewed-insert a r.doc ho d new), made.1)
      (
        insert-IsDoc a r.doc ho d,
        (
          made.2,
          Makes-length e (text r) (DocTree.units (DocTree.insert a r.doc).1) (omega arith) made.2,
        ),
      )

delete_ready-Reports :
    (op : Op) (r : Replica) → IsOrdered op.weight → IsDoc r.doc → Reports r (delete_ready op r)
unfolding delete_ready
delete_ready-Reports op r ho d = elim (Bool-cases (DocTree.contains op.weight r.doc)) [
  | inl there ↦
      let made = delete-Makes op.weight r.doc ho d there in
      rw (first (viewed-delete op.weight r.doc ho d there), made.1)
        (
          delete-IsDoc op.weight r.doc ho d,
          (
            made.2,
            Makes-length (point_delete made.0) (text r) (DocTree.units (delete op.weight r.doc).1)
                (omega arith) made.2,
          ),
        )
  | inr absent ↦ rw (first (viewed-delete_absent op.weight r.doc ho d absent)) (d, refl)
]

apply_kind-Reports :
    (k : OpKind) (op : Op) (r : Replica)
    → IsOrdered op.weight
    → IsDoc r.doc
    → Reports r (apply_kind k op r)
unfolding apply_kind
apply_kind-Reports (OpKind.ins unit) op r ho d = elim (Bool-cases (is_deferred op r)) [
  | inl deferred ↦ rw deferred (d, refl)
  | inr plain ↦ elim (Bool-cases (DocTree.contains op.weight r.doc)) [
    | inl there ↦ rw (plain, there) (d, refl)
    | inr new ↦ rw (plain, new) (insert_ready-Reports op unit r ho d new)
  ]
]
apply_kind-Reports OpKind.del op r ho d = delete_ready-Reports op r ho d

-- If the document keeps its invariant and the weight is in lowest terms, then `apply_ready` keeps
-- the invariant. The edit that it reports lies within the text and makes the new text of the old
-- one, and where it reports none the text is unchanged.
pub apply_ready-Reports :
    (op : Op) (r : Replica) → IsOrdered op.weight → IsDoc r.doc → Reports r (apply_ready op r)
unfolding apply_ready
apply_ready-Reports op r ho d = apply_kind-Reports op.kind op r ho d

ignore_kind-doc :
    (k : OpKind) (op : Op) (pending : List Op) (r : Replica)
    → (ignore_kind k op pending r).doc ≡ r.doc
unfolding ignore_kind
ignore_kind-doc OpKind.del op pending r =
    elim (Bool-cases (target_is_pending op.counter pending || not (insertion_known op r))) [
      | inl deferred ↦ rw deferred refl
      | inr redundant ↦ rw redundant refl
    ]
ignore_kind-doc (OpKind.ins unit) op pending r = refl

-- Ignoring an operation leaves the document.
pub ignore-doc : (op : Op) (pending : List Op) (r : Replica) → (ignore op pending r).doc ≡ r.doc
unfolding ignore
ignore-doc op pending r = ignore_kind-doc op.kind op pending r
