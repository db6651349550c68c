-- ===== src/Allocator/Dmax.antt =====
-- src/allocator.rs: the `Dmax` in force, through the allocator's operations.
use esbt_web.Base.{
  ℕ, subst, not, ◌&&◌, Option, none, some, Bool-cases, Option-cases, inl, inr, arith,
}
use esbt_web.Base.Int.{ℤ, pos, ◌≤ℤ◌}
use esbt_web.Fraction
use esbt_web.Fraction.{Fraction}
use esbt_web.Weight.{Weight, dmax_hard_ceiling}
use esbt_web.Codec.Weights.{encoded_weight_len}
use esbt_web.Allocator.Adaptive
use esbt_web.Allocator.Adaptive.{AdaptiveDmaxConfig, AdaptiveDmax, observe_cost, observe_decision}
use esbt_web.Allocator.Adaptive.Band.{IsBanded, adapt-IsBanded}
use esbt_web.Allocator.{
  Allocator, below, observed, adapted, create_weight, enable_adaptive_dmax, create_weight_inner,
}

-- `Dmax` is in the band of the controller, or, without one, between 2 and the hard ceiling.
abbrev BoundedBy : Option AdaptiveDmax → ℤ → Type 0
BoundedBy none dmax = (pos 2 ≤ℤ dmax) × (dmax ≤ℤ dmax_hard_ceiling)
BoundedBy (some c) dmax = IsBanded dmax c

abbrev pub IsBounded : Allocator → Type 0
IsBounded a = BoundedBy a.adaptive a.dmax

observed-IsBanded :
    (a : Allocator) (left right : Weight) (c : AdaptiveDmax)
    → IsBanded a.dmax c
    → IsBanded a.dmax (observed a left right c)
unfolding observed observe_decision
observed-IsBanded a left right c h =
    let m = Fraction.mediant left.f right.f in
    elim (Bool-cases
      (not (Fraction.is_begin m) && not (Fraction.is_end m) && below left.f m && below m right.f)) [
        | inl separates ↦ rw separates (record {
          at_least_two = h.at_least_two;
          below_hard_ceiling = h.below_hard_ceiling;
          current = h.current;
          fallback = h.fallback;
        })
        | inr apart ↦ rw apart h
      ]

adapted-IsBanded :
    (w : Option Weight) (site : ℕ) (dmax : ℤ) (c : AdaptiveDmax)
    → IsBanded dmax c
    → IsBanded (adapted w site dmax c).0 (adapted w site dmax c).1
unfolding adapted observe_cost
adapted-IsBanded none site dmax c h = h
adapted-IsBanded (some w) site dmax c h =
    adapt-IsBanded dmax (observe_cost (encoded_weight_len w site) c) (record {
      at_least_two = h.at_least_two;
      below_hard_ceiling = h.below_hard_ceiling;
      current = h.current;
      fallback = h.fallback;
    })

-- An allocation keeps `Dmax` within its bounds, whatever the controller observes.
pub create_weight-IsBounded :
    (a : Allocator) (left right : Weight) (site : ℕ)
    → IsBounded a
    → IsBounded (create_weight left right site a).1
unfolding create_weight
create_weight-IsBounded a left right site h = elim (Option-cases a.adaptive) [
  | inl absent ↦ rw absent (subst (λ o. BoundedBy o a.dmax) absent h)
  | inr (c, present) ↦
      let banded = subst (λ o. BoundedBy o a.dmax) present h in
      rw present (
        adapted-IsBanded (create_weight_inner a left right site).0 site a.dmax
          (observed a left right c) (observed-IsBanded a left right c banded))
]

-- Enabling the controller under any configuration puts `Dmax` within a sound band.
pub enable_adaptive_dmax-IsBounded :
    (config : AdaptiveDmaxConfig) (a : Allocator) → IsBounded (enable_adaptive_dmax config a)
unfolding enable_adaptive_dmax Adaptive.new
enable_adaptive_dmax-IsBounded config a = record {
  at_least_two = ground arith;
  below_hard_ceiling = ground arith;
  current = (ground arith, ground arith);
  fallback = tt;
}
