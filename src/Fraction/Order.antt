-- ===== src/Fraction/Order.antt =====
-- src/fraction.rs: on the fractions that the engine keeps, sentinels included, `cmp_rat` is the order
-- of cross products, and it is a total order.
use Prim.Native.Nat.{◌∣◌}
use native.Mathlib.Nat
use esbt_web.Base.{ℕ, zero, suc, ◌+◌, ◌*◌, ◌<◌, compare, Ordering, ◌≡◌, ap, sym, subst, ◌∙◌, arith}
use esbt_web.Base.Int.{pos, nat_abs}
use esbt_web.Base.Order.{IsPreorder}
use esbt_web.Fraction.{Fraction, gcd, cmp_rat}
use esbt_web.Fraction.Gcd.{dvd-gcd-mul}

-- Neither term is negative, not both are zero, and they are coprime. So 0/1 and 1/0 are the only
-- fractions with a zero.
pub record IsFraction (f : Fraction) : Type 0 where
  pub num_nonneg : f.p ≡ pos (nat_abs f.p)
  pub den_nonneg : f.q ≡ pos (nat_abs f.q)
  pub nonzero : 0 < nat_abs f.p + nat_abs f.q
  pub coprime : gcd f.p f.q ≡ pos 1

module _ (f : Fraction) (h : IsFraction f) where
  dvd_one : (k : ℕ) → k ∣ nat_abs f.p → k ∣ nat_abs f.q → k ∣ 1
  dvd_one k hp hq =
      rw (h.coprime, Nat.mul-one) at
        (dvd-gcd-mul f.p f.q h.nonzero k 1 (rw Nat.mul-one hp) (rw Nat.mul-one hq))

  pub zero_num : nat_abs f.p ≡ 0 → nat_abs f.q ≡ 1
  zero_num z =
      Nat.eq-one_of_dvd-one (dvd_one (nat_abs f.q) (rw z (Nat.dvd-zero _)) (Nat.dvd_refl _))

  pub zero_den : nat_abs f.q ≡ 0 → nat_abs f.p ≡ 1
  zero_den z =
      Nat.eq-one_of_dvd-one (dvd_one (nat_abs f.p) (Nat.dvd_refl _) (rw z (Nat.dvd-zero _)))

abbrev pub frac : ℕ → ℕ → Fraction
frac m n = record { p = pos m; q = pos n }

cmp_rat-frac :
    (m n m' n' : ℕ)
    → 0 < m + n
    → 0 < m' + n'
    → (m ≡ 0 → n ≡ 1)
    → (n ≡ 0 → m ≡ 1)
    → (m' ≡ 0 → n' ≡ 1)
    → (n' ≡ 0 → m' ≡ 1)
    → cmp_rat (frac m n) (frac m' n') ≡ compare (m * n') (m' * n)
unfolding cmp_rat
cmp_rat-frac zero zero zero zero s s' zn zd zn' zd' = ground arith
cmp_rat-frac zero zero zero (suc n') s s' zn zd zn' zd' = ground arith
cmp_rat-frac zero zero (suc m') zero s s' zn zd zn' zd' = ground arith
cmp_rat-frac zero zero (suc m') (suc n') s s' zn zd zn' zd' = ground arith
cmp_rat-frac zero (suc n) zero zero s s' zn zd zn' zd' = ground arith
cmp_rat-frac zero (suc n) zero (suc n') s s' zn zd zn' zd' = ground arith
cmp_rat-frac zero (suc n) (suc m') zero s s' zn zd zn' zd' = ground arith
cmp_rat-frac zero (suc n) (suc m') (suc n') s s' zn zd zn' zd' = ground arith
cmp_rat-frac (suc m) zero zero zero s s' zn zd zn' zd' = ground arith
cmp_rat-frac (suc m) zero zero (suc n') s s' zn zd zn' zd' = ground arith
cmp_rat-frac (suc m) zero (suc m') zero s s' zn zd zn' zd' = ground arith
cmp_rat-frac (suc m) zero (suc m') (suc n') s s' zn zd zn' zd' = ground arith
cmp_rat-frac (suc m) (suc n) zero zero s s' zn zd zn' zd' = ground arith
cmp_rat-frac (suc m) (suc n) zero (suc n') s s' zn zd zn' zd' = ground arith
cmp_rat-frac (suc m) (suc n) (suc m') zero s s' zn zd zn' zd' = ground arith
cmp_rat-frac (suc m) (suc n) (suc m') (suc n') s s' zn zd zn' zd' = ground arith

-- `cmp_rat` compares the cross products, also where it answers for a sentinel without multiplying.
pub cmp_rat-cross :
    (f g : Fraction)
    → IsFraction f
    → IsFraction g
    → cmp_rat f g ≡ compare (nat_abs f.p * nat_abs g.q) (nat_abs g.p * nat_abs f.q)
cmp_rat-cross f g a b =
    let ef : f ≡ frac (nat_abs f.p) (nat_abs f.q) =
      λ i. record { p = a.num_nonneg i; q = a.den_nonneg i } in
    let eg : g ≡ frac (nat_abs g.p) (nat_abs g.q) =
      λ i. record { p = b.num_nonneg i; q = b.den_nonneg i } in
    (λ i. cmp_rat (ef i) (eg i))
    ∙ cmp_rat-frac (nat_abs f.p) (nat_abs f.q) (nat_abs g.p) (nat_abs g.q) a.nonzero b.nonzero
        (zero_num f a) (zero_den f a) (zero_num g b) (zero_den g b)

cross_trans : (m n m' n' r s : ℕ) → m * n' < m' * n → m' * s < r * n' → m * s < r * n
cross_trans m zero m' n' r s h k = absurd (omega arith)
cross_trans m n m' zero r s h k = absurd (omega arith)
cross_trans m (suc n) m' (suc n') r s h k =
    Nat.lt_of_mul-lt-mul_right (suc n') {m = m * s} {n = r * suc n} (
      omega (
        arith,
        Nat.mul-le-mul_right {m = m * suc n'} {n = m' * suc n} s (omega arith),
        Nat.mul-lt-mul_of_pos_right {m = m' * s} {n = r * suc n'} {k = suc n} k (omega arith),
      ))

-- Equal cross products of coprime terms.
cross_eq :
    (f g : Fraction)
    → IsFraction f
    → IsFraction g
    → nat_abs f.p * nat_abs g.q ≡ nat_abs g.p * nat_abs f.q
    → nat_abs f.p ∣ nat_abs g.p
cross_eq f g a b e =
    rw (a.coprime, Nat.one-mul) at
      (dvd-gcd-mul f.p f.q a.nonzero (nat_abs f.p) (nat_abs g.p) (Nat.dvd-mul_right _ _) (
        subst (λ t. nat_abs f.p ∣ t) (e ∙ Nat.mul_comm (nat_abs g.p) (nat_abs f.q))
          (Nat.dvd-mul_right _ _)))

cross_eq_den :
    (f g : Fraction)
    → IsFraction f
    → IsFraction g
    → nat_abs f.p * nat_abs g.q ≡ nat_abs g.p * nat_abs f.q
    → nat_abs f.q ∣ nat_abs g.q
cross_eq_den f g a b e =
    rw (a.coprime, Nat.one-mul) at
      (dvd-gcd-mul f.p f.q a.nonzero (nat_abs f.q) (nat_abs g.q)
        (subst (λ t. nat_abs f.q ∣ t) (sym e) (Nat.dvd-mul_left _ _)) (Nat.dvd-mul_right _ _))

-- `cmp_rat` answers `Equal` only for the same fraction.
pub cmp_rat_eq : (f g : Fraction) → IsFraction f → IsFraction g → cmp_rat f g ≡ Ordering.eq → f ≡ g
cmp_rat_eq f g a b h =
    let e : nat_abs f.p * nat_abs g.q ≡ nat_abs g.p * nat_abs f.q =
      ground (arith, h, cmp_rat-cross f g a b) in
    let ep = Nat.dvd_antisymm (cross_eq f g a b e) (cross_eq g f b a (sym e)) in
    let eq = Nat.dvd_antisymm (cross_eq_den f g a b e) (cross_eq_den g f b a (sym e)) in
    let ep' = a.num_nonneg ∙ ap pos ep ∙ sym b.num_nonneg in
    let eq' = a.den_nonneg ∙ ap pos eq ∙ sym b.den_nonneg in λ i. record { p = ep' i; q = eq' i }

-- `cmp_rat` is a total order on these fractions.
pub cmp_rat-IsPreorder : IsPreorder IsFraction cmp_rat
cmp_rat-IsPreorder = record {
  diag = λ f a. ground (arith, cmp_rat-cross f f a a);
  flips = λ f g a b. ground (arith, cmp_rat-cross f g a b, cmp_rat-cross g f b a);
  lt_trans = λ f g h a b c p q. ground (
    arith,
    cmp_rat-cross f g a b,
    cmp_rat-cross g h b c,
    cmp_rat-cross f h a c,
    cross_trans (nat_abs f.p) (nat_abs f.q) (nat_abs g.p) (nat_abs g.q) (nat_abs h.p) (nat_abs h.q),
  );
  compat = λ f g h a b c e. ap (λ x. cmp_rat x h) (cmp_rat_eq f g a b e);
}
