-- ===== src/NewSeq/Choose.antt =====
-- src/newseq.rs: every strategy chooses a digit strictly inside the gap.
use esbt_web.Base.{ℕ, ◌+◌, ◌-◌, ◌<◌, ◌≤◌, arith}
use esbt_web.NewSeq.{
  AllocationStrategy, midpoint, boundary_low, boundary_high, alternating_by_depth, step, choose,
  u32_max,
}

step_bounds :
    (s : AllocationStrategy) (interval depth : ℕ)
    → 0 < interval
    → (1 ≤ step s interval depth) × (step s interval depth ≤ interval)
unfolding step
step_bounds midpoint interval depth h = omega arith
step_bounds (boundary_low b) interval depth h = ground arith
step_bounds (boundary_high b) interval depth h = ground arith
step_bounds (alternating_by_depth b) interval depth h = ground arith

-- Between digits with a number between them, `choose` takes such a number, whatever the strategy.
pub choose_between :
    (s : AllocationStrategy) (lv rv depth : ℕ)
    → lv + 1 < rv
    → rv ≤ u32_max
    → (lv < choose s lv rv (rv - lv - 1) depth) × (choose s lv rv (rv - lv - 1) depth < rv)
unfolding choose
choose_between s lv rv depth h u = ground (arith, step_bounds s (rv - lv - 1) depth (omega arith))
