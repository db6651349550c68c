-- ===== src/Replica/Pending.antt =====
-- src/replica.rs: `PendingQueue`.
pub mod Queue
use esbt_web.Base.{
  ℕ, ◌+◌, ◌-◌, min, ◌≡◌, refl, Option, none, some, List, [], ◌∷◌, ◌++◌, map, length, ◌==◌,
  if◌then◌else◌, u64_limit, unwrap_or,
}
use esbt_web.Base.Table
use esbt_web.Weight.{Weight}
use esbt_web.Weight.Equality.{weight_eq}
use esbt_web.Op.{Op}
use esbt_web.Replica.{PendingQueue, nothing_pending}
use esbt_web.Update.VisibleEdit.{saturating_add}

-- `for_weight`, with no queue for the empty one.
abbrev pub for_weight : Weight → PendingQueue → List Op
for_weight w q = unwrap_or [] (Table.lookup w q.by_weight)

unfoldable pub push_back : Op → PendingQueue → PendingQueue
push_back op q = record {
  by_weight = Table.insert op.weight (for_weight op.weight q ++ (op ∷ [])) q.by_weight;
  len = saturating_add q.len 1;
}

unfoldable pub take : Weight → PendingQueue → List Op × PendingQueue
take w q =
    let queue = for_weight w q in
    (queue, record { by_weight = Table.remove w q.by_weight; len = q.len - length queue })

unfoldable pub replace : Weight → List Op → PendingQueue → PendingQueue
replace w queue q =
    let rest = Table.remove w q.by_weight in
    let left = q.len - length (for_weight w q) in
    if length queue == 0
    then record { by_weight = rest; len = left }
    else record { by_weight = Table.insert w queue rest; len = saturating_add left (length queue) }

-- `clear` and `weights`.
abbrev pub clear : PendingQueue → PendingQueue
clear q = nothing_pending

abbrev pub weights : PendingQueue → List Weight
weights q = map (λ e. e.0) q.by_weight
