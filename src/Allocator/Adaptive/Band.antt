-- ===== src/Allocator/Adaptive/Band.antt =====
-- src/allocator.rs: `Dmax` stays in the configured band, and the band below the hard ceiling.
use esbt_web.Base.{
  ℕ, Bool, ◌&&◌, Option, none, some, Bool-cases, Option-cases, subst, inl, inr, ltb, arith,
}
use esbt_web.Base.Int.{ℤ, pos, ◌≤ℤ◌, ◌*ℤ◌, ltb_ℤ, saturate, min_ℤ, max_ℤ, negsuc}
use esbt_web.Weight.{dmax_hard_ceiling}
use esbt_web.Allocator.Adaptive
use esbt_web.Allocator.Adaptive.{
  AdaptiveDmaxConfig, AdaptiveDmax, DmaxProbe, observe_cost, observe_decision, regressed, settle,
  adapt,
}

-- A value between the floor and the ceiling.
abbrev pub InBand : AdaptiveDmaxConfig → ℤ → Type 0
InBand config dmax = (config.floor ≤ℤ dmax) × (dmax ≤ℤ config.ceiling)

abbrev pub ProbeInBand : AdaptiveDmaxConfig → Option DmaxProbe → Type 0
ProbeInBand config none = Unit
ProbeInBand config (some probe) = InBand config probe.previous_dmax

-- The band is sound, and both the `Dmax` in force and the one to fall back to are within it.
pub record IsBanded (dmax : ℤ) (c : AdaptiveDmax) : Type 0 where
  pub at_least_two : pos 2 ≤ℤ c.config.floor
  pub below_hard_ceiling : c.config.ceiling ≤ℤ dmax_hard_ceiling
  pub current : InBand c.config dmax
  pub fallback : ProbeInBand c.config c.probe

-- The same band around another `Dmax`, with the window closed.
IsBanded-closed :
    (dmax next : ℤ) (c : AdaptiveDmax) (probe : Option DmaxProbe) (holdoff : ℕ)
    → IsBanded dmax c
    → InBand c.config next
    → ProbeInBand c.config probe
    → IsBanded next (Adaptive.closed probe holdoff c)
IsBanded-closed dmax next c probe holdoff h current fallback = record {
  at_least_two = h.at_least_two;
  below_hard_ceiling = h.below_hard_ceiling;
  current = current;
  fallback = fallback;
}

doubled-InBand :
    (dmax : ℤ) (c : AdaptiveDmax)
    → IsBanded dmax c
    → InBand c.config (min_ℤ (saturate (dmax *ℤ pos 2)) c.config.ceiling)
doubled-InBand (pos n) c h =
    ground (arith, h.at_least_two, h.below_hard_ceiling, h.current.0, h.current.1)
doubled-InBand (negsuc n) c h = absurd (ground (arith, h.at_least_two, h.current.0))

settle-IsBanded :
    (raises : Bool) (dmax : ℤ) (c : AdaptiveDmax)
    → IsBanded dmax c
    → IsBanded (settle raises dmax c).0 (settle raises dmax c).1
unfolding settle
settle-IsBanded raises dmax c h = elim (Bool-cases (ltb 0 c.holdoff)) [
  | inl holds ↦ rw holds (IsBanded-closed dmax dmax c none _ h h.current tt)
  | inr free ↦ elim (Bool-cases (raises && ltb_ℤ dmax c.config.ceiling)) [
    | inl raised ↦
        rw (free, raised) (IsBanded-closed dmax _ c _ 0 h (doubled-InBand dmax c h) h.current)
    | inr same ↦ rw (free, same) (IsBanded-closed dmax dmax c none 0 h h.current tt)
  ]
]

reverted-InBand :
    (dmax : ℤ) (c : AdaptiveDmax) (probe : DmaxProbe)
    → IsBanded dmax c
    → InBand c.config probe.previous_dmax
    → InBand c.config (max_ℤ probe.previous_dmax c.config.floor)
reverted-InBand dmax c probe h previous =
    ground (arith, h.current.0, h.current.1, previous.0, previous.1)

-- A window's end leaves `Dmax` in the configured band, whatever it observed.
pub adapt-IsBanded :
    (dmax : ℤ) (c : AdaptiveDmax) → IsBanded dmax c → IsBanded (adapt dmax c).0 (adapt dmax c).1
unfolding adapt
adapt-IsBanded dmax c h = elim (Bool-cases (ltb c.decisions c.config.window)) [
  | inl open_window ↦ rw open_window h
  | inr over ↦ elim (Option-cases c.probe) [
    | inl absent ↦ rw (over, absent) (settle-IsBanded _ dmax c h)
    | inr (probe, present) ↦
        let previous = subst (ProbeInBand c.config) present h.fallback in
        elim (Bool-cases (regressed probe c.cost_ewma)) [
          | inl worse ↦
              rw (over, present, worse)
                (IsBanded-closed dmax _ c none c.config.holdoff_windows h
                  (reverted-InBand dmax c probe h previous) tt)
          | inr fine ↦ rw (over, present, fine) (settle-IsBanded _ dmax c h)
        ]
  ]
]
