-- ===== src/Fraction/Mediant.antt =====
-- src/fraction.rs: `new` gives the reduced form, and the mediant lies strictly between.
use Prim.Native.Nat.{◌∣◌}
use native.Mathlib.Nat
use esbt_web.Base.{
  ℕ, zero, suc, ◌+◌, ◌*◌, ◌/◌, ◌<◌, ◌^◌, compare, Ordering, ◌≡◌, refl, ap, ap₂, sym, subst, ◌∙◌,
  inl, inr, arith,
}
use esbt_web.Base.Int.{pos, nat_abs, saturating_add}
use esbt_web.Fraction.{Fraction, gcd, reduce, new, mediant, cmp_rat}
use esbt_web.Fraction.Gcd.{zero_or_pos, gcd-dvd, gcd_pos, pos-gcd, dvd-gcd-mul}
use esbt_web.Fraction.Order.{IsFraction, frac, cmp_rat-cross}

-- The parts of a reduced pair of numbers.
record IsReduction (m n : ℕ) (f : Fraction) : Type 0 where
  factor : ℕ
  factor_pos : 0 < factor
  num_eq : m ≡ nat_abs f.p * factor
  den_eq : n ≡ nat_abs f.q * factor
  valid : IsFraction f

module _ (m n : ℕ) (hm : 0 < m) (hn : 0 < n) where
  abbrev divisor : ℕ
  divisor = nat_abs (gcd (pos m) (pos n))

  some_nonzero : 0 < nat_abs (pos m) + nat_abs (pos n)
  some_nonzero = omega arith

  new-reduced : new (pos m) (pos n) ≡ frac (m / divisor) (n / divisor)
  unfolding new reduce
  new-reduced = ground (arith, pos-gcd (pos m) (pos n) some_nonzero)

  num_exact : m / divisor * divisor ≡ m
  num_exact = Nat.div-mul_cancel divisor (gcd-dvd (pos m) (pos n) some_nonzero).0

  den_exact : n / divisor * divisor ≡ n
  den_exact = Nat.div-mul_cancel divisor (gcd-dvd (pos m) (pos n) some_nonzero).1

  quotients_nonzero : 0 < nat_abs (pos (m / divisor)) + nat_abs (pos (n / divisor))
  quotients_nonzero = elim (zero_or_pos (m / divisor)) [
    | inl p ↦ omega arith
    | inr z ↦ absurd (omega (arith, ap (λ (t : ℕ). t * divisor) z, num_exact))
  ]

  common : ℕ
  common = nat_abs (gcd (pos (m / divisor)) (pos (n / divisor)))

  common_scaled : (common * divisor ∣ m) × (common * divisor ∣ n)
  unfolding common
  common_scaled =
      let (left, right) = gcd-dvd (pos (m / divisor)) (pos (n / divisor)) quotients_nonzero in
      (
        subst (λ t. common * divisor ∣ t) num_exact (Nat.mul-dvd-mul_right common left divisor),
        subst (λ t. common * divisor ∣ t) den_exact (Nat.mul-dvd-mul_right common right divisor),
      )

  -- A common divisor of the quotients, times the divisor, divides the divisor.
  common_one : common ≡ 1
  common_one =
      let (left, right) = common_scaled in
      let whole : common * divisor ∣ divisor * 1 =
        dvd-gcd-mul (pos m) (pos n) some_nonzero (common * divisor) 1 (rw Nat.mul-one left)
          (rw Nat.mul-one right) in
      Nat.eq-one_of_dvd-one (
        Nat.dvd_of_mul-dvd-mul_right common (gcd_pos (pos m) (pos n) some_nonzero)
          (rw (Nat.mul_comm divisor 1) at whole))

  quotients-IsFraction : IsFraction (frac (m / divisor) (n / divisor))
  unfolding common
  quotients-IsFraction = record {
    num_nonneg = refl;
    den_nonneg = refl;
    nonzero = quotients_nonzero;
    coprime = pos-gcd _ _ quotients_nonzero ∙ ap pos common_one;
  }

  new-IsReduction : IsReduction m n (new (pos m) (pos n))
  new-IsReduction = rw new-reduced (record {
    factor = divisor;
    factor_pos = gcd_pos (pos m) (pos n) some_nonzero;
    num_eq = sym num_exact;
    den_eq = sym den_exact;
    valid = quotients-IsFraction;
  })

-- `new` of two positive numbers is a fraction in lowest terms with the same value.
pub new-IsFraction :
    (m n : ℕ)
    → 0 < m
    → 0 < n
    → IsFraction (new (pos m) (pos n))
      × (nat_abs (new (pos m) (pos n)).p * n ≡ m * nat_abs (new (pos m) (pos n)).q)
new-IsFraction m n hm hn =
    let r = new-IsReduction m n hm hn in
    let f = new (pos m) (pos n) in
    (
      r.valid,
      omega (
        arith,
        ap (λ (t : ℕ). nat_abs f.p * t) r.den_eq,
        ap (λ (t : ℕ). t * nat_abs f.q) r.num_eq,
      ),
    )

-- Reducing again changes nothing.
pub new_idem : (f : Fraction) → IsFraction f → 0 < nat_abs f.p → 0 < nat_abs f.q → new f.p f.q ≡ f
unfolding new reduce
new_idem f h hp hq = ground (arith, h.num_nonneg, h.den_nonneg, h.coprime)

-- Two fractions whose sums of numerators and of denominators `i64` holds, so that neither saturates.
abbrev pub IsAddable : Fraction → Fraction → Type 0
IsAddable f g = (nat_abs f.p + nat_abs g.p < 2 ^ 63) × (nat_abs f.q + nat_abs g.q < 2 ^ 63)

mediant-new :
    (f g : Fraction)
    → IsFraction f
    → IsFraction g
    → IsAddable f g
    → mediant f g ≡ new (pos (nat_abs f.p + nat_abs g.p)) (pos (nat_abs f.q + nat_abs g.q))
unfolding mediant
mediant-new f g a b fits =
    let ep : saturating_add f.p g.p ≡ pos (nat_abs f.p + nat_abs g.p) =
      rw (a.num_nonneg, b.num_nonneg) (ground arith) in
    let eq : saturating_add f.q g.q ≡ pos (nat_abs f.q + nat_abs g.q) =
      rw (a.den_nonneg, b.den_nonneg) (ground arith) in
    ap₂ new ep eq

-- Cross products of a fraction with a sum, and with its reduced form.
crossed :
    (a b c d r s g : ℕ)
    → a + c ≡ r * g
    → b + d ≡ s * g
    → a * d < c * b
    → (a * s < r * b) × (r * d < c * s)
crossed a b c d r s g num den h = (
  Nat.lt_of_mul-lt-mul_right g {m = a * s} {n = r * b}
      (omega (arith, ap (λ (t : ℕ). a * t) den, ap (λ (t : ℕ). t * b) num)),
  Nat.lt_of_mul-lt-mul_right g {m = r * d} {n = c * s}
      (omega (arith, ap (λ (t : ℕ). c * t) den, ap (λ (t : ℕ). t * d) num)),
)

num_pos : (a b c d : ℕ) → a * d < c * b → 0 < a + c
num_pos zero b zero d h = absurd (omega arith)
num_pos zero b (suc c) d h = omega arith
num_pos (suc a) b c d h = omega arith

den_pos : (a b c d : ℕ) → a * d < c * b → 0 < b + d
den_pos a zero c d h = absurd (omega arith)
den_pos a (suc b) c d h = omega arith

compare-lt : (a b : ℕ) → a < b → compare a b ≡ Ordering.lt
compare-lt a b h = ground arith

-- If two fractions in lowest terms are in order, and their numerators and their denominators have
-- sums that `i64` holds, then their mediant is a fraction in lowest terms strictly between them.
pub mediant_between :
    (f g : Fraction)
    → IsFraction f
    → IsFraction g
    → IsAddable f g
    → cmp_rat f g ≡ Ordering.lt
    → IsFraction (mediant f g)
      × (cmp_rat f (mediant f g) ≡ Ordering.lt)
      × (cmp_rat (mediant f g) g ≡ Ordering.lt)
mediant_between f g a b fits h =
    let a' = nat_abs f.p in
    let b' = nat_abs f.q in
    let c' = nat_abs g.p in
    let d' = nat_abs g.q in
    let lt : a' * d' < c' * b' = ground (arith, h, cmp_rat-cross f g a b) in
    let r = new-IsReduction (a' + c') (b' + d') (num_pos a' b' c' d' lt) (den_pos a' b' c' d' lt) in
    let x = new (pos (a' + c')) (pos (b' + d')) in
    let between = crossed a' b' c' d' (nat_abs x.p) (nat_abs x.q) r.factor r.num_eq r.den_eq lt in
    rw (mediant-new f g a b fits) (
      r.valid,
      cmp_rat-cross f x a r.valid ∙ compare-lt _ _ between.0,
      cmp_rat-cross x g r.valid b ∙ compare-lt _ _ between.1,
    )
