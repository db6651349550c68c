-- ===== src/Allocator.antt =====
-- src/allocator.rs: CREATE_WEIGHT.
pub mod Tracker
pub mod Adaptive
pub mod Between
pub mod Total
pub mod Dmax
use esbt_web.Base.{
  ℕ, ◌+◌, ◌-◌, ◌%◌, max, ◌≡◌, refl, Bool, true, false, not, ◌&&◌, ◌||◌, Option, none, some, List,
  [], ◌∷◌, if◌then◌else◌,
}
use esbt_web.Base.Int.{
  ℤ, pos, ◌+ℤ◌, ◌-ℤ◌, ltb_ℤ, min_ℤ, max_ℤ, clamp_ℤ, tdiv, saturating_add, saturating_sub,
}
use esbt_web.Base.Order.{is_lt}
use esbt_web.Fraction
use esbt_web.Fraction.{Fraction}
use esbt_web.Weight
use esbt_web.Weight.{Weight, dmax_hard_ceiling}
use esbt_web.NewSeq.{AllocationStrategy, newseq, newseq_unbounded}
use esbt_web.Codec.Weights.{encoded_weight_len}
use esbt_web.Allocator.Tracker
use esbt_web.Allocator.Adaptive
use esbt_web.Allocator.Adaptive.{
  AdaptiveDmaxConfig, AdaptiveDmax, observe_cost, observe_decision, adapt,
}

pub record Allocator : Type 0 where
  pub dmax : ℤ
  pub base : ℕ
  pub depth : ℕ
  pub strategy : AllocationStrategy
  pub tracker : Tracker.Tracker
  pub adaptive : Option AdaptiveDmax

-- `Allocator::new`.
abbrev pub new : ℤ → ℕ → ℕ → Allocator
new dmax base depth = record {
  dmax = clamp_ℤ (pos 2) dmax_hard_ceiling dmax;
  base = max base 2;
  depth = max depth 1;
  strategy = AllocationStrategy.midpoint;
  tracker = Tracker.default;
  adaptive = none;
}

-- `Allocator::enable_adaptive_dmax`.
unfoldable pub enable_adaptive_dmax : AdaptiveDmaxConfig → Allocator → Allocator
enable_adaptive_dmax config a =
    let controller = Adaptive.new config in
    record {
      dmax = clamp_ℤ controller.config.floor controller.config.ceiling a.dmax;
      base = a.base;
      depth = a.depth;
      strategy = a.strategy;
      tracker = a.tracker;
      adaptive = some controller;
    }

-- The order of fractions, as `<`.
abbrev pub below : Fraction → Fraction → Bool
below f g = is_lt (Fraction.cmp_rat f g)

-- `Allocator::mediant_fits`.
abbrev pub mediant_fits : ℤ → Fraction → Bool
mediant_fits dmax f =
    not (Fraction.is_begin f) && not (Fraction.is_end f) && ltb_ℤ f.p dmax && ltb_ℤ f.q dmax

-- `Allocator::site_digit`. `new` raises the base to at least 2; the source divides by zero or
-- underflows at one below, and this gives a digit there.
abbrev pub site_digit : ℕ → ℕ → ℕ
site_digit base site = 1 + site % (base - 1)

-- The closure `between`.
abbrev pub between : Weight → Weight → Weight → Option Weight
between left right w = if Weight.lt left w && Weight.lt w right then some w else none

-- A weight, and the tracker that allocating it leaves.
abbrev pub Candidate : Type 0
Candidate = Option (Weight × Tracker.Tracker)

abbrev pub leaves : Option Weight → Tracker.Tracker → Candidate
leaves none t = none
leaves (some w) t = some (w, t)

-- `if let Some(weight) = ... { return Some(weight); }`, and what follows it.
abbrev pub or_else : Candidate → Candidate → Candidate
or_else (some found) next = some found
or_else none next = next

-- The mediant, where it separates the fractions and is below `Dmax`.
unfoldable pub at_mediant : Allocator → Weight → Weight → ℕ → Candidate
at_mediant a left right site =
    let fm = Fraction.mediant left.f right.f in
    if mediant_fits a.dmax fm && below left.f fm && below fm right.f
    then leaves (between left right (Weight.new fm (pos 0) (site_digit a.base site ∷ []) site))
        a.tracker
    else none

-- The fraction to fall back to.
abbrev pub fallback : Weight → Weight → Fraction
fallback left right = if Fraction.is_begin left.f then right.f else left.f

abbrev pub left_at_fb : Weight → Weight → Bool
left_at_fb left right = not (Fraction.is_begin left.f) && Fraction.eqb left.f (fallback left right)

-- Right allocation, one step above the bound `sn_r` and the left neighbour.
abbrev pub right_sn : Weight → Weight → ℤ → ℤ
right_sn left right sn_r =
    saturating_add (if left_at_fb left right then max_ℤ sn_r left.sn else sn_r) (pos 1)

unfoldable pub at_right : Weight → Weight → ℕ → ℤ → ℤ → Tracker.Tracker → Candidate
at_right left right site sn_l sn_r t =
    let fb = fallback left right in
    let sn = right_sn left right sn_r in
    if below fb right.f || (Fraction.eqb fb right.f && ltb_ℤ sn right.sn)
    then leaves (between left right (Weight.new fb sn left.sc site)) (Tracker.set fb sn_l sn t)
    else none

-- Left allocation, one step below the bound `sn_l` and the right neighbour.
unfoldable pub at_left : Weight → Weight → ℕ → ℤ → ℤ → Tracker.Tracker → Candidate
at_left left right site sn_l sn_r t =
    let fb = fallback left right in
    let sn = saturating_sub (min_ℤ sn_l right.sn) (pos 1) in
    if Fraction.eqb fb right.f && (not (left_at_fb left right) || ltb_ℤ left.sn sn)
    then leaves (between left right (Weight.new fb sn left.sc site)) (Tracker.set fb sn sn_r t)
    else none

-- The middle of a gap between two sequence numbers.
unfoldable pub at_interior : ℕ → Weight → Weight → ℕ → Tracker.Tracker → Candidate
at_interior base left right site t =
    let fb = fallback left right in
    let gap = right.sn -ℤ left.sn in
    if left_at_fb left right && Fraction.eqb fb right.f && ltb_ℤ (pos 1) gap
    then leaves
        (between left right
          (Weight.new fb (left.sn +ℤ tdiv gap (pos 2)) (site_digit base site ∷ []) site))
        t
    else none

-- The sequence path, capped and uncapped, and then the site alone.
unfoldable pub at_path : Allocator → Weight → Weight → ℕ → Tracker.Tracker → Candidate
at_path a left right site t =
    let fb = fallback left right in
    let capped = newseq left.sc right.sc a.base a.depth site a.strategy in
    let uncapped = newseq_unbounded left.sc right.sc a.base a.strategy in
    or_else (leaves (between left right (Weight.new fb left.sn capped site)) t) (
      or_else (leaves (between left right (Weight.new fb left.sn uncapped site)) t)
        (leaves (between left right (Weight.new fb left.sn left.sc site)) t))

-- What follows the mediant, with the tracker's bounds of the fallback fraction.
unfoldable pub at_fallback : Allocator → Weight → Weight → ℕ → ℤ → ℤ → Tracker.Tracker → Candidate
unfolding at_right at_left at_interior at_path
at_fallback a left right site sn_l sn_r t = or_else (at_right left right site sn_l sn_r t) (
    or_else (at_left left right site sn_l sn_r t)
      (or_else (at_interior a.base left right site t) (at_path a left right site t)))

-- The weight of a candidate and its tracker, or what follows it.
unfoldable pub concluded :
    Candidate → Option Weight × Tracker.Tracker → Option Weight × Tracker.Tracker
concluded none next = next
concluded (some (w, t)) next = (some w, t)

-- `Allocator::create_weight_inner`.
unfoldable pub create_weight_inner :
    Allocator → Weight → Weight → ℕ → Option Weight × Tracker.Tracker
unfolding at_mediant at_fallback concluded
create_weight_inner a left right site =
    let tracked = Tracker.pair (fallback left right) a.tracker in
    concluded (at_mediant a left right site) (
      concluded (at_fallback a left right site tracked.0.0 tracked.0.1 tracked.1) (none, tracked.1))

-- The decision that the controller observes, where the mediant separates the fractions.
unfoldable pub observed : Allocator → Weight → Weight → AdaptiveDmax → AdaptiveDmax
observed a left right c =
    let mediant = Fraction.mediant left.f right.f in
    if not (Fraction.is_begin mediant)
      && not (Fraction.is_end mediant)
      && below left.f mediant
      && below mediant right.f
    then observe_decision mediant a.dmax (mediant_fits a.dmax mediant) c
    else c

-- The controller's step after an allocation.
unfoldable pub adapted : Option Weight → ℕ → ℤ → AdaptiveDmax → ℤ × AdaptiveDmax
adapted none site dmax c = (dmax, c)
adapted (some w) site dmax c = adapt dmax (observe_cost (encoded_weight_len w site) c)

-- `Allocator::create_weight`.
unfoldable pub create_weight : Weight → Weight → ℕ → Allocator → Option Weight × Allocator
unfolding create_weight_inner observed adapted
create_weight left right site a =
    let (allocated, tracker) = create_weight_inner a left right site in
    elim a.adaptive [
      | none ↦ (
        allocated,
        record {
          dmax = a.dmax;
          base = a.base;
          depth = a.depth;
          strategy = a.strategy;
          tracker = tracker;
          adaptive = none;
        },
      )
      | some c ↦
          let (dmax, controller) = adapted allocated site a.dmax (observed a left right c) in
          (
            allocated,
            record {
              dmax = dmax;
              base = a.base;
              depth = a.depth;
              strategy = a.strategy;
              tracker = tracker;
              adaptive = some controller;
            },
          )
    ]

-- `Allocator::begin_transaction`, `commit_transaction` and `rollback_transaction`.
unfoldable pub begin_transaction : Allocator → Bool × Allocator
begin_transaction a =
    let started = Tracker.begin a.tracker in (started.0, record a { tracker = started.1 })

unfoldable pub commit_transaction : Allocator → Allocator
commit_transaction a = record a { tracker = Tracker.commit a.tracker }

unfoldable pub rollback_transaction : Allocator → Allocator
rollback_transaction a = record a { tracker = Tracker.rollback a.tracker }
