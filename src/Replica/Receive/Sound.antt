-- ===== src/Replica/Receive/Sound.antt =====
-- src/replica.rs: a replica stays sound, whatever it receives.
use esbt_web.Base.{◌≡◌, refl, sym, subst, Bool, Bool-cases, inl, inr, List, [], ◌∷◌, All, ◌==◌}
use esbt_web.Error.{Result, ok, err}
use esbt_web.Weight.{Weight}
use esbt_web.Weight.Equality.{weight_eq}
use esbt_web.Op.{Op}
use esbt_web.Replica.{Replica}
use esbt_web.Replica.Pending.{for_weight}
use esbt_web.Replica.Pending.Queue.{for_weight-push_back}
use esbt_web.Replica.Drain.Text.{OnOrdered, All-append-OnOrdered}
use esbt_web.Replica.Drain.Keeps.{IsSound, drain_weights-IsSound}
use esbt_web.Replica.Receive.{
  touch, admit_one, admit_all, admit_validated_operations, import_operation, try_receive, receive,
  received,
}
use esbt_web.Replica.Receive.Import.{import_operation-cases}

admit_one-IsSound : (op : Op) (r : Replica) → OnOrdered op → IsSound r → IsSound (admit_one op r)
unfolding admit_one
admit_one-IsSound op r ho h = (
  h.0,
  λ w. rw (for_weight-push_back w op r.pending) (elim (Bool-cases (weight_eq.eqb w op.weight)) [
    | inl same ↦
        rw same (All-append-OnOrdered (for_weight op.weight r.pending) op (h.1 op.weight) ho)
    | inr other ↦ rw other (h.1 w)
  ]),
)

admit_all-IsSound :
    (ops : List Op) (touched : List Weight) (r : Replica)
    → All OnOrdered ops
    → IsSound r
    → IsSound (admit_all ops touched r).1
unfolding admit_all
admit_all-IsSound [] touched r ho h = h
admit_all-IsSound (op ∷ ops) touched r ho h =
    admit_all-IsSound ops (touch op.weight touched) (admit_one op r) ho.1
      (admit_one-IsSound op r ho.0 h)

-- If every node of the document stores its size, the atoms ascend, and the queued operations are on
-- weights in lowest terms, then the same holds after `admit_validated_operations` of a batch of
-- operations on such weights.
pub admit_validated_operations-IsSound :
    (ops : List Op) (r : Replica)
    → All OnOrdered ops
    → IsSound r
    → IsSound (admit_validated_operations ops r).1
unfolding admit_validated_operations
admit_validated_operations-IsSound ops r ho h =
    let admitted = admit_all ops [] r in
    drain_weights-IsSound admitted.0 [] admitted.1 (admit_all-IsSound ops [] r ho h)

received-IsSound :
    (r : Replica) (result : Result (Bool × Replica))
    → ((new : Bool) (after : Replica) → result ≡ ok (new, after) → IsSound after)
    → IsSound r
    → IsSound (received r result)
received-IsSound r (err e) f h = h
received-IsSound r (ok (new, after)) f h = f new after refl

pub import_operation-IsSound :
    (op : Op) (r : Replica) (new : Bool) (after : Replica)
    → IsSound r
    → import_operation op r ≡ ok (new, after)
    → IsSound after
import_operation-IsSound op r new after h e = elim (import_operation-cases op r new after e) [
  | inl (duplicate, same) ↦ subst IsSound (sym same) h
  | inr (valid, admitted) ↦
      subst IsSound (sym admitted)
        (admit_validated_operations-IsSound (op ∷ []) r (valid.identifier.fraction, tt) h)
]

-- If every node of the document stores its size, the atoms ascend by weights in lowest terms, and
-- the queued operations are on such weights, then the same holds after `receive` of any operation
-- whatever.
pub receive-IsSound : (op : Op) (r : Replica) → IsSound r → IsSound (receive op r)
unfolding receive try_receive
receive-IsSound op r h = elim (Bool-cases (op.origin == r.site)) [
  | inl echo ↦ rw (echo, receive, try_receive) h
  | inr foreign ↦
      rw (foreign, receive, try_receive)
        (received-IsSound r (import_operation op r)
          (λ new after e. import_operation-IsSound op r new after h e) h)
]
