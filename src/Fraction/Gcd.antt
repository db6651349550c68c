-- ===== src/Fraction/Gcd.antt =====
-- src/fraction.rs: `gcd` is the greatest common divisor, and `new` reduces a fraction by it.
use Prim.Native.Nat.{◌∣◌}
use native.Mathlib.Nat
use esbt_web.Base.{
  ℕ, zero, suc, ◌+◌, ◌*◌, ◌/◌, ◌%◌, ◌<◌, ◌≡◌, refl, ap, subst, Bool-cases, inl, inr, ◌⊎◌, arith,
}
use esbt_web.Base.Int.{ℤ, pos, negsuc, nat_abs, tmod, eqb_ℤ}
use esbt_web.Fraction.{gcd_loop, gcd}

nat_abs-tmod : (a b : ℤ) → nat_abs (tmod a b) ≡ nat_abs a % nat_abs b
nat_abs-tmod (pos m) b = refl
nat_abs-tmod (negsuc m) b = ground arith

-- One round keeps the common divisors of the two variables.
gcd_loop-dvd :
    (fuel : ℕ) (a b : ℤ)
    → nat_abs b < fuel
    → (nat_abs (gcd_loop fuel a b) ∣ nat_abs a) × (nat_abs (gcd_loop fuel a b) ∣ nat_abs b)
unfolding gcd_loop
gcd_loop-dvd zero a b h = absurd (omega arith)
gcd_loop-dvd (suc fuel) a b h = elim (Bool-cases (eqb_ℤ b (pos 0))) [
  | inl done ↦
      let z : nat_abs b ≡ 0 = ground (arith, done) in
      rw (done, z) (Nat.dvd_refl (nat_abs a), Nat.dvd-zero (nat_abs a))
  | inr more ↦
      let p : 0 < nat_abs b = ground (arith, more) in
      let (left, right) = gcd_loop-dvd fuel b (tmod a b) (rw nat_abs-tmod (omega arith)) in
      rw more ((Nat.dvd-mod_iff _ left).0 (rw nat_abs-tmod at right), left)
]

scaled_mod : (k a b c : ℕ) → k ∣ a * c → k ∣ b * c → k ∣ (a % b) * c
scaled_mod k a b c ha hb =
    let parts : a * c ≡ a / b * (b * c) + a % b * c =
      omega (arith, ap (λ (t : ℕ). t * c) (Nat.div-add-mod a b)) in
    (Nat.dvd-add_iff_right k (Nat.dvd-mul_left_of_dvd k hb (a / b))).1 (subst (λ t. k ∣ t) parts ha)

dvd-gcd_loop :
    (k c fuel : ℕ) (a b : ℤ)
    → k ∣ nat_abs a * c
    → k ∣ nat_abs b * c
    → k ∣ nat_abs (gcd_loop fuel a b) * c
unfolding gcd_loop
dvd-gcd_loop k c zero a b ha hb = ha
dvd-gcd_loop k c (suc fuel) a b ha hb = elim (Bool-cases (eqb_ℤ b (pos 0))) [
  | inl done ↦ rw done ha
  | inr more ↦ rw more (
      dvd-gcd_loop k c fuel b (tmod a b) hb
        (rw nat_abs-tmod (scaled_mod k (nat_abs a) (nat_abs b) c ha hb)))
]

pub zero_or_pos : (n : ℕ) → (0 < n) ⊎ (n ≡ 0)
zero_or_pos n = omega arith

module _ (a b : ℤ) (some_nonzero : 0 < nat_abs a + nat_abs b) where
  loop_pos : 0 < nat_abs (gcd_loop (suc (nat_abs b)) a b)
  loop_pos =
      let (left, right) = gcd_loop-dvd (suc (nat_abs b)) a b (omega arith) in
      elim (zero_or_pos (nat_abs (gcd_loop (suc (nat_abs b)) a b))) [
        | inl p ↦ p
        | inr z ↦ absurd (
            omega (
              arith,
              Nat.eq-zero_of_zero-dvd (subst (λ t. t ∣ nat_abs a) z left),
              Nat.eq-zero_of_zero-dvd (subst (λ t. t ∣ nat_abs b) z right),
            ))
      ]

  gcd-loop : gcd a b ≡ pos (nat_abs (gcd_loop (suc (nat_abs b)) a b))
  unfolding gcd
  gcd-loop = ground (arith, loop_pos)

  -- `gcd` divides both arguments, and is positive.
  pub gcd-dvd : (nat_abs (gcd a b) ∣ nat_abs a) × (nat_abs (gcd a b) ∣ nat_abs b)
  gcd-dvd = rw gcd-loop (gcd_loop-dvd (suc (nat_abs b)) a b (omega arith))

  pub gcd_pos : 0 < nat_abs (gcd a b)
  gcd_pos = rw gcd-loop loop_pos

  pub pos-gcd : gcd a b ≡ pos (nat_abs (gcd a b))
  pos-gcd = rw gcd-loop

  -- Whatever divides both multiples divides the same multiple of the divisor.
  pub dvd-gcd-mul : (k c : ℕ) → k ∣ nat_abs a * c → k ∣ nat_abs b * c → k ∣ nat_abs (gcd a b) * c
  dvd-gcd-mul k c ha hb = rw gcd-loop (dvd-gcd_loop k c (suc (nat_abs b)) a b ha hb)
