-- ===== src/Allocator/Adaptive.antt =====
-- src/allocator.rs: the controller that adapts `Dmax` to the observed edits. Counters are `u32`
-- values, costs `u64` values, and sums and products wrap as in a release build.
pub mod Band
use esbt_web.Base.{
  ℕ, ◌+◌, ◌-◌, ◌*◌, ◌/◌, ◌%◌, ◌^◌, min, max, ◌≡◌, refl, Bool, true, false, not, ◌&&◌, Option, none,
  some, ltb, leb, ◌==◌, if◌then◌else◌, u64_limit,
}
use esbt_web.Base.Int.{ℤ, pos, ◌*ℤ◌, ltb_ℤ, min_ℤ, max_ℤ, clamp_ℤ, saturate}
use esbt_web.Fraction.{Fraction}
use esbt_web.Weight.{dmax_hard_ceiling}
use esbt_web.NewSeq.{u32_max, saturating_add}

pub record AdaptiveDmaxConfig : Type 0 where
  pub floor : ℤ
  pub ceiling : ℤ
  pub window : ℕ
  pub holdoff_windows : ℕ

pub record DmaxProbe : Type 0 where
  pub previous_dmax : ℤ
  pub baseline_cost : ℕ

pub record AdaptiveDmax : Type 0 where
  pub config : AdaptiveDmaxConfig
  pub decisions : ℕ
  pub near_misses : ℕ
  pub overshoots : ℕ
  pub cost_ewma : ℕ
  pub probe : Option DmaxProbe
  pub holdoff : ℕ

-- `AdaptiveDmax::new`.
unfoldable pub new : AdaptiveDmaxConfig → AdaptiveDmax
new config =
    let floor = clamp_ℤ (pos 2) dmax_hard_ceiling config.floor in
    record {
      config = record {
        floor = floor;
        ceiling = clamp_ℤ floor dmax_hard_ceiling config.ceiling;
        window = max config.window 1;
        holdoff_windows = config.holdoff_windows;
      };
      decisions = 0;
      near_misses = 0;
      overshoots = 0;
      cost_ewma = 0;
      probe = none;
      holdoff = 0;
    }

-- The smoothed cost after a sample of so many bytes.
unfoldable pub smoothed : ℕ → ℕ → ℕ
smoothed cost encoded_bytes =
    let sample = encoded_bytes * 2 ^ 8 % u64_limit in
    if cost == 0 then sample else cost - cost / 2 ^ 3 + sample / 2 ^ 3

-- `AdaptiveDmax::observe_cost`.
unfoldable pub observe_cost : ℕ → AdaptiveDmax → AdaptiveDmax
unfolding smoothed
observe_cost encoded_bytes c = record {
  config = c.config;
  decisions = c.decisions;
  near_misses = c.near_misses;
  overshoots = c.overshoots;
  cost_ewma = smoothed c.cost_ewma encoded_bytes;
  probe = c.probe;
  holdoff = c.holdoff;
}

-- Whether a rejected mediant is a near miss.
abbrev pub is_near : Fraction → ℤ → Bool
is_near mediant dmax = ltb_ℤ (max_ℤ mediant.p mediant.q) (saturate (dmax *ℤ pos 8))

-- `AdaptiveDmax::observe_decision`.
unfoldable pub observe_decision : Fraction → ℤ → Bool → AdaptiveDmax → AdaptiveDmax
observe_decision mediant dmax accepted c = record {
  config = c.config;
  decisions = saturating_add c.decisions 1;
  near_misses =
      if not accepted && is_near mediant dmax
      then saturating_add c.near_misses 1
      else c.near_misses;
  overshoots =
      if not accepted && not (is_near mediant dmax)
      then saturating_add c.overshoots 1
      else c.overshoots;
  cost_ewma = c.cost_ewma;
  probe = c.probe;
  holdoff = c.holdoff;
}

-- Whether a probed raise made identifiers more expensive.
abbrev pub regressed : DmaxProbe → ℕ → Bool
regressed probe cost =
    not (probe.baseline_cost == 0)
    && ltb ((probe.baseline_cost + probe.baseline_cost / 8) % u64_limit) cost

-- The controller with its window closed.
abbrev pub closed : Option DmaxProbe → ℕ → AdaptiveDmax → AdaptiveDmax
closed probe holdoff c = record {
  config = c.config;
  decisions = 0;
  near_misses = 0;
  overshoots = 0;
  cost_ewma = c.cost_ewma;
  probe = probe;
  holdoff = holdoff;
}

-- What follows a window whose probe, if any, stands.
unfoldable pub settle : Bool → ℤ → AdaptiveDmax → ℤ × AdaptiveDmax
settle raises dmax c =
    if ltb 0 c.holdoff
    then (dmax, closed none (c.holdoff - 1) c)
    else if raises && ltb_ℤ dmax c.config.ceiling
    then (
      min_ℤ (saturate (dmax *ℤ pos 2)) c.config.ceiling,
      closed (some (record { previous_dmax = dmax; baseline_cost = c.cost_ewma })) 0 c,
    )
    else (dmax, closed none 0 c)

-- `AdaptiveDmax::adapt`.
unfoldable pub adapt : ℤ → AdaptiveDmax → ℤ × AdaptiveDmax
unfolding settle
adapt current_dmax c =
    let rejections = (c.near_misses + c.overshoots) % 2 ^ 32 in
    let near_dominated = ltb rejections (c.near_misses * 2 % 2 ^ 32) in
    let pressured = leb c.decisions (rejections * 4) in
    let settled = settle (pressured && near_dominated) current_dmax c in
    if ltb c.decisions c.config.window then (current_dmax, c) else elim c.probe [
      | none ↦ settled
      | some probe ↦
          if regressed probe c.cost_ewma
          then (max_ℤ probe.previous_dmax c.config.floor, closed none c.config.holdoff_windows c)
          else settled
    ]
