-- ===== src/NewSeq.antt =====
-- src/newseq.rs: NEWSEQ, which makes a sequence path between two neighbours. Digits are `u32`.
pub mod Choose
pub mod Path
use esbt_web.Base.{
  ℕ, zero, suc, ◌+◌, ◌-◌, ◌/◌, ◌%◌, ◌<◌, min, max, Bool, true, false, List, [], ◌∷◌, length, ltb,
  leb, ◌==◌, if◌then◌else◌,
}

pub data AllocationStrategy : Type 0 where
  midpoint : AllocationStrategy
  boundary_low : ℕ → AllocationStrategy
  boundary_high : ℕ → AllocationStrategy
  alternating_by_depth : ℕ → AllocationStrategy

abbrev pub u32_max : ℕ
u32_max = 0xffff_ffff

-- `u32::saturating_add`.
abbrev pub saturating_add : ℕ → ℕ → ℕ
saturating_add a b = min (a + b) u32_max

-- How far above `lv` each strategy goes. `boundary.max(1).min(interval)` is the bounded step.
abbrev bounded : ℕ → ℕ → ℕ
bounded boundary interval = min (max boundary 1) interval

unfoldable pub step : AllocationStrategy → ℕ → ℕ → ℕ
step midpoint interval depth = interval / 2 + 1
step (boundary_low boundary) interval depth = bounded boundary interval
step (boundary_high boundary) interval depth = interval - bounded boundary interval + 1
step (alternating_by_depth boundary) interval depth =
    if depth % 2 == 0 then bounded boundary interval else interval - bounded boundary interval + 1

-- `AllocationStrategy::choose`.
unfoldable pub choose : AllocationStrategy → ℕ → ℕ → ℕ → ℕ → ℕ
choose strategy lv rv interval depth =
    let new_val = saturating_add lv (step strategy interval depth) in
    let capped = if leb rv new_val then rv - 1 else new_val in max capped (saturating_add lv 1)

-- The digit at the current depth, or the default where the path has ended, and the path behind it.
abbrev pub digit : ℕ → List ℕ → ℕ
digit d [] = d
digit d (x ∷ xs) = x

abbrev pub behind : List ℕ → List ℕ
behind [] = []
behind (x ∷ xs) = xs

-- `1 + (site_id % u128::from(base - 1)) as u32`.
abbrev pub tie : ℕ → ℕ → ℕ
tie site base = 1 + site % (base - 1)

-- The loop of `newseq`. The lists are what the neighbours hold from `depth` on, and `rounds + 1` the
-- depth that is left below the limit.
unfoldable pub newseq_loop : ℕ → ℕ → List ℕ → List ℕ → ℕ → ℕ → AllocationStrategy → List ℕ
newseq_loop zero depth left right base site strategy =
    let lv = digit 0 left in
    let rv = digit base right in
    let interval = rv - lv - 1 in
    if ltb 0 interval then choose strategy lv rv interval depth ∷ [] else lv ∷ tie site base ∷ []
newseq_loop (suc rounds) depth left right base site strategy =
    let lv = digit 0 left in
    let rv = digit base right in
    let interval = rv - lv - 1 in
    let rest = newseq_loop rounds (depth + 1) (behind left) (behind right) base site strategy in
    if ltb 0 interval then choose strategy lv rv interval depth ∷ [] else lv ∷ rest

unfoldable pub newseq : List ℕ → List ℕ → ℕ → ℕ → ℕ → AllocationStrategy → List ℕ
newseq left right base max_depth site strategy =
    newseq_loop (max max_depth 1 - 1) 0 left right (max base 2) site strategy

-- The loop of `newseq_unbounded`, over the rounds `depth..=limit`.
unfoldable pub unbounded_loop : ℕ → ℕ → List ℕ → List ℕ → ℕ → AllocationStrategy → List ℕ
unbounded_loop zero depth left right base strategy = []
unbounded_loop (suc rounds) depth left right base strategy =
    let lv = digit 0 left in
    let rv = digit base right in
    let interval = rv - lv - 1 in
    let rest = unbounded_loop rounds (depth + 1) (behind left) (behind right) base strategy in
    if ltb 0 interval then choose strategy lv rv interval depth ∷ [] else lv ∷ rest

unfoldable pub newseq_unbounded : List ℕ → List ℕ → ℕ → AllocationStrategy → List ℕ
newseq_unbounded left right base strategy =
    let limit = max (length left) (length right) + 1 in
    unbounded_loop (limit + 1) 0 left right (max base 2) strategy
