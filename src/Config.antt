-- ===== src/Config.antt =====
-- src/replica.rs, `ReplicaConfig`, and src/config.rs, `DocumentConfig`.
use esbt_web.Base.{
  ℕ, ◌<◌, ◌≤◌, ◌≡◌, ◌↔◌, refl, Bool, false, not, ◌&&◌, ◌||◌, Option, none, some, ltb, ◌==◌,
  if◌then◌else◌, inl, inr, arith,
}
use esbt_web.Base.Int.{ℤ, pos, ◌≤ℤ◌, ltb_ℤ}
use esbt_web.Error.{Result, ok, err, ◌>>◌, invalid_operation, Result-cases}
use esbt_web.Limits
use esbt_web.Limits.{ResourceLimits, IsCoherent, validate_limits_iff}
use esbt_web.Weight.{dmax_hard_ceiling}
use esbt_web.NewSeq.{AllocationStrategy}
use esbt_web.Allocator.Adaptive.{AdaptiveDmaxConfig}

pub record ReplicaConfig : Type 0 where
  pub dmax : ℤ
  pub base : ℕ
  pub depth : ℕ
  pub adaptive_dmax : Option AdaptiveDmaxConfig
  pub strategy : AllocationStrategy

-- `(2..=DMAX_HARD_CEILING).contains(&value)`.
abbrev pub in_range : ℤ → Bool
in_range value = not (ltb_ℤ value (pos 2)) && not (ltb_ℤ dmax_hard_ceiling value)

abbrev pub boundary : AllocationStrategy → Option ℕ
boundary AllocationStrategy.midpoint = none
boundary (AllocationStrategy.boundary_low value) = some value
boundary (AllocationStrategy.boundary_high value) = some value
boundary (AllocationStrategy.alternating_by_depth value) = some value

-- `boundary == Some(0)`.
abbrev pub is_zero : Option ℕ → Bool
is_zero none = false
is_zero (some value) = value == 0

-- What the controller's configuration is refused for.
abbrev pub outside : Option AdaptiveDmaxConfig → ℤ → Bool
outside none dmax = false
outside (some c) dmax =
    not (in_range c.floor)
    || ltb_ℤ c.ceiling c.floor
    || ltb_ℤ dmax_hard_ceiling c.ceiling
    || (c.window == 0)
    || ltb_ℤ dmax c.floor
    || ltb_ℤ c.ceiling dmax

-- `ReplicaConfig::validate`.
unfoldable pub validate_replica : ReplicaConfig → Result (Unit {0})
validate_replica c =
    if not (in_range c.dmax)
    then err invalid_operation
    else if ltb c.base 2 || (c.depth == 0)
    then err invalid_operation
    else if is_zero (boundary c.strategy)
    then err invalid_operation
    else if outside c.adaptive_dmax c.dmax
    then err invalid_operation
    else ok tt

pub record DocumentConfig : Type 0 where
  pub replica : ReplicaConfig
  pub limits : ResourceLimits

-- `DocumentConfig::validate`.
unfoldable pub validate : DocumentConfig → Result (Unit {0})
unfolding validate_replica
validate c = do validate_replica c.replica; Limits.validate c.limits

abbrev InBand : Option AdaptiveDmaxConfig → ℤ → Type 0
InBand none dmax = Unit
InBand (some c) dmax =
    (pos 2 ≤ℤ c.floor)
    × (c.floor ≤ℤ dmax)
    × (dmax ≤ℤ c.ceiling)
    × (c.ceiling ≤ℤ dmax_hard_ceiling)
    × (0 < c.window)

abbrev Nonzero : Option ℕ → Type 0
Nonzero none = Unit
Nonzero (some value) = 0 < value

-- A sound configuration: `Dmax` between 2 and the ceiling and in the controller's band, a base of at
-- least 2, a depth and a boundary other than 0, and a coherent resource policy.
pub record IsSound (c : DocumentConfig) : Type 0 where
  pub dmax_low : pos 2 ≤ℤ c.replica.dmax
  pub dmax_high : c.replica.dmax ≤ℤ dmax_hard_ceiling
  pub base_low : 2 ≤ c.replica.base
  pub depth_nonzero : 0 < c.replica.depth
  pub boundary_nonzero : Nonzero (boundary c.replica.strategy)
  pub band : InBand c.replica.adaptive_dmax c.replica.dmax
  pub policy : IsCoherent c.limits

Nonzero-iff : (o : Option ℕ) → (is_zero o ≡ false) ↔ Nonzero o
Nonzero-iff none = (λ h. tt, λ h. refl)
Nonzero-iff (some v) = (λ h. ground arith, λ h. ground arith)

band_ok : (o : Option AdaptiveDmaxConfig) (dmax : ℤ) → outside o dmax ≡ false → InBand o dmax
band_ok none dmax h = tt
band_ok (some c) dmax h = (ground arith, ground arith, ground arith, ground arith, ground arith)

ok_band : (o : Option AdaptiveDmaxConfig) (dmax : ℤ) → InBand o dmax → outside o dmax ≡ false
ok_band none dmax h = refl
ok_band (some c) dmax h = ground (arith, h.0, h.1, h.2, h.3, h.4)

validate-ok : (c : DocumentConfig) → validate c ≡ ok tt → IsSound c
unfolding validate validate_replica
validate-ok c h = elim (Result-cases (validate_replica c.replica)) [
  | inl (e, bad) ↦ absurd (ground (arith, bad, h))
  | inr (u, good) ↦
      let clear : (is_zero (boundary c.replica.strategy) ≡ false)
          × (outside c.replica.adaptive_dmax c.replica.dmax ≡ false) =
        (ground (arith, good), ground (arith, good)) in
      record {
        dmax_low = ground (arith, good);
        dmax_high = ground (arith, good);
        base_low = ground (arith, good);
        depth_nonzero = ground (arith, good);
        boundary_nonzero = (Nonzero-iff (boundary c.replica.strategy)).0 clear.0;
        band = band_ok c.replica.adaptive_dmax c.replica.dmax clear.1;
        policy = (validate_limits_iff c.limits).0 (ground (arith, good, h));
      }
]

ok-validate : (c : DocumentConfig) → IsSound c → validate c ≡ ok tt
unfolding validate validate_replica
ok-validate c h =
    let policy = (validate_limits_iff c.limits).1 h.policy in
    let some_boundary = (Nonzero-iff (boundary c.replica.strategy)).1 h.boundary_nonzero in
    let band = ok_band c.replica.adaptive_dmax c.replica.dmax h.band in
    ground
      (arith, policy, some_boundary, band, h.dmax_low, h.dmax_high, h.base_low, h.depth_nonzero)

-- `DocumentConfig::validate` accepts exactly the sound configurations.
pub validate_config_iff : (c : DocumentConfig) → (validate c ≡ ok tt) ↔ IsSound c
validate_config_iff c = (validate-ok c, ok-validate c)
