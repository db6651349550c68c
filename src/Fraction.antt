-- ===== src/Fraction.antt =====
-- src/fraction.rs: Stern–Brocot rationals. The fields are `i64` values; `cmp_rat` multiplies in
-- `i128`, which holds every product of two of them, so its products are exact.
pub mod Gcd
pub mod Order
pub mod Mediant
use esbt_web.Base.{
  ℕ, zero, suc, ◌+◌, ◌-◌, Ordering, ◌≡◌, refl, Bool, true, false, not, ◌&&◌, if◌then◌else◌,
}
use esbt_web.Base.Int.{
  ℤ, pos, negsuc, nat_abs, neg_ℤ, ◌*ℤ◌, tdiv, tmod, compare_ℤ, eqb_ℤ, ltb_ℤ, saturating_add,
}

pub record Fraction : Type 0 where
  pub p : ℤ
  pub q : ℤ

-- `Fraction::BEGIN`, `Fraction::END` and `Fraction::ONE`.
abbrev pub begin : Fraction
begin = record { p = pos 0; q = pos 1 }

abbrev pub end : Fraction
end = record { p = pos 1; q = pos 0 }

abbrev pub one : Fraction
one = record { p = pos 1; q = pos 1 }

-- The loop of `gcd`. The remainder is smaller than `b`, so `nat_abs b + 1` rounds are enough.
unfoldable pub gcd_loop : ℕ → ℤ → ℤ → ℤ
gcd_loop zero a b = a
gcd_loop (suc fuel) a b =
    let rest = gcd_loop fuel b (tmod a b) in if eqb_ℤ b (pos 0) then a else rest

unfoldable pub gcd : ℤ → ℤ → ℤ
unfolding gcd_loop
gcd a b =
    let g = gcd_loop (suc (nat_abs b)) a b in if eqb_ℤ g (pos 0) then pos 1 else pos (nat_abs g)

-- The quotients by the greatest common divisor.
unfoldable pub reduce : ℤ → ℤ → Fraction
reduce p q = let g = gcd (pos (nat_abs p)) q in record { p = tdiv p g; q = tdiv q g }

-- `Fraction::new`. Negation and the absolute value are exact here; in the source they overflow at the
-- smallest `i64`. Decoding and validation pass no negative number.
unfoldable pub new : ℤ → ℤ → Fraction
unfolding reduce
new p q =
    if eqb_ℤ q (pos 0)
    then end
    else if eqb_ℤ p (pos 0)
    then begin
    else if ltb_ℤ q (pos 0)
    then reduce (neg_ℤ p) (neg_ℤ q)
    else reduce p q

abbrev pub is_begin : Fraction → Bool
is_begin f = eqb_ℤ f.p (pos 0) && not (eqb_ℤ f.q (pos 0))

abbrev pub is_end : Fraction → Bool
is_end f = eqb_ℤ f.q (pos 0)

unfoldable pub mediant : Fraction → Fraction → Fraction
mediant f g = new (saturating_add f.p g.p) (saturating_add f.q g.q)

-- `self == other`, field by field.
abbrev pub eqb : Fraction → Fraction → Bool
eqb f g = eqb_ℤ f.p g.p && eqb_ℤ f.q g.q

-- `Fraction::cmp_rat`, which is `cmp` too.
unfoldable pub cmp_rat : Fraction → Fraction → Ordering
cmp_rat f g =
    if eqb f g
    then Ordering.eq
    else if is_begin f
    then Ordering.lt
    else if is_begin g
    then Ordering.gt
    else if is_end f
    then Ordering.gt
    else if is_end g
    then Ordering.lt
    else compare_ℤ (f.p *ℤ g.q) (g.p *ℤ f.q)
