-- ===== src/Replica/Pending/Queue.antt =====
-- src/replica.rs: what is queued under a weight after the operations of the queue.
use esbt_web.Base.{
  ◌≡◌, refl, true, Bool-cases, inl, inr, List, [], ◌∷◌, ◌++◌, length, ◌==◌, if◌then◌else◌, arith,
}
use esbt_web.Base.Table
use esbt_web.Base.Table.{lookup-insert, lookup-remove}
use esbt_web.Weight.{Weight}
use esbt_web.Weight.Equality.{weight_eq, eqb_refl}
use esbt_web.Op.{Op}
use esbt_web.Replica.{PendingQueue}
use esbt_web.Replica.Pending.{for_weight, push_back, replace}

pub for_weight-push_back :
    (w : Weight) (op : Op) (q : PendingQueue)
    → for_weight w (push_back op q)
      ≡ (if weight_eq.eqb w op.weight then for_weight op.weight q ++ (op ∷ []) else for_weight w q)
unfolding push_back
for_weight-push_back w op q = elim (Bool-cases (weight_eq.eqb w op.weight)) [
  | inl same ↦
      rw (lookup-insert w op.weight (for_weight op.weight q ++ (op ∷ [])) q.by_weight, same) refl
  | inr other ↦
      rw (lookup-insert w op.weight (for_weight op.weight q ++ (op ∷ [])) q.by_weight, other) refl
]

empty_queue : (l : List Op) → (length l == 0) ≡ true → [] ≡ l
empty_queue [] h = refl
empty_queue (x ∷ l) h = absurd (ground arith)

pub for_weight-replace :
    (w : Weight) (queue : List Op) (q : PendingQueue) → for_weight w (replace w queue q) ≡ queue
unfolding replace
for_weight-replace w queue q = elim (Bool-cases (length queue == 0)) [
  | inl none_left ↦
      rw (none_left, lookup-remove w w q.by_weight, eqb_refl w) (empty_queue queue none_left)
  | inr some_left ↦
      rw (some_left, lookup-insert w w queue (Table.remove w q.by_weight), eqb_refl w) refl
]
