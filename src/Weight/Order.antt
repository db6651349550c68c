-- ===== src/Weight/Order.antt =====
-- src/weight.rs: weights are totally ordered, and an admitted identifier is one of those for which
-- the order holds.
use esbt_web.Base.{ℕ, compare, Ordering, ◌≡◌, refl, ap, ap₂, List, [], ◌∷◌, arith}
use esbt_web.Base.Int.{compare_ℤ, eq_of_parts}
use esbt_web.Base.Order.{
  IsPreorder, Anything, flip, then_with-IsPreorder, on-IsPreorder, compare-IsPreorder,
  compare_ℤ-IsPreorder,
}
use esbt_web.Fraction.{cmp_rat}
use esbt_web.Fraction.Order.{IsFraction, cmp_rat_eq, cmp_rat-IsPreorder}
use esbt_web.Weight.{Weight, sc_cmp, cmp}

sc_cmp_refl : (a : List ℕ) → sc_cmp a a ≡ Ordering.eq
unfolding sc_cmp
sc_cmp_refl [] = refl
sc_cmp_refl (x ∷ a) = ground (arith, sc_cmp_refl a)

sc_cmp-flip : (a b : List ℕ) → sc_cmp b a ≡ flip (sc_cmp a b)
unfolding sc_cmp
sc_cmp-flip [] [] = refl
sc_cmp-flip [] (y ∷ b) = refl
sc_cmp-flip (x ∷ a) [] = refl
sc_cmp-flip (x ∷ a) (y ∷ b) = ground (arith, sc_cmp-flip a b)

pub sc_cmp_eq : (a b : List ℕ) → sc_cmp a b ≡ Ordering.eq → a ≡ b
unfolding sc_cmp
sc_cmp_eq [] [] h = refl
sc_cmp_eq [] (y ∷ b) h = cc
sc_cmp_eq (x ∷ a) [] h = cc
sc_cmp_eq (x ∷ a) (y ∷ b) h =
    let e : x ≡ y = ground arith in
    ap₂ (λ (d : ℕ) (ds : List ℕ). d ∷ ds) e (sc_cmp_eq a b (ground arith))

sc_cmp_trans :
    (a b c : List ℕ)
    → sc_cmp a b ≡ Ordering.lt
    → sc_cmp b c ≡ Ordering.lt
    → sc_cmp a c ≡ Ordering.lt
unfolding sc_cmp
sc_cmp_trans [] [] c h k = cc
sc_cmp_trans (x ∷ a) [] c h k = cc
sc_cmp_trans a (y ∷ b) [] h k = cc
sc_cmp_trans [] (y ∷ b) (z ∷ c) h k = refl
sc_cmp_trans (x ∷ a) (y ∷ b) (z ∷ c) h k = ground (arith, sc_cmp_trans a b c)

-- Paths are totally ordered, a proper prefix before its extensions.
pub sc_cmp-IsPreorder : IsPreorder Anything sc_cmp
sc_cmp-IsPreorder = record {
  diag = λ a _. sc_cmp_refl a;
  flips = λ a b _ _. sc_cmp-flip a b;
  lt_trans = λ a b c _ _ _. sc_cmp_trans a b c;
  compat = λ a b c _ _ _ e. ap (λ x. sc_cmp x c) (sc_cmp_eq a b e);
}

-- The identifiers that are compared: their fractions are in lowest terms, or sentinels.
abbrev pub IsOrdered : Weight → Type 0
IsOrdered w = IsFraction w.f

-- On weights in lowest terms `Weight::cmp` compares a weight with itself as equal, flips when its
-- arguments do, is transitive, and gives equal weights the same place.
pub cmp-IsPreorder : IsPreorder IsOrdered cmp
unfolding cmp
cmp-IsPreorder =
    then_with-IsPreorder IsOrdered _ _
      (on-IsPreorder IsOrdered IsFraction cmp_rat (λ w. w.f) (λ w h. h) cmp_rat-IsPreorder)
      (then_with-IsPreorder IsOrdered _ _
        (on-IsPreorder IsOrdered Anything compare_ℤ (λ w. w.sn) (λ w h. tt) compare_ℤ-IsPreorder)
        (then_with-IsPreorder IsOrdered _ _
          (on-IsPreorder IsOrdered Anything sc_cmp (λ w. w.sc) (λ w h. tt) sc_cmp-IsPreorder)
          (on-IsPreorder IsOrdered Anything compare (λ w. w.site) (λ w h. tt) compare-IsPreorder)))

-- Two identifiers that compare as equal are the same.
pub cmp_eq : (a b : Weight) → IsOrdered a → IsOrdered b → cmp a b ≡ Ordering.eq → a ≡ b
unfolding cmp
cmp_eq a b ha hb h =
    let ef = cmp_rat_eq a.f b.f ha hb (ground arith) in
    let es : a.sn ≡ b.sn = eq_of_parts a.sn b.sn (ground arith) in
    let ec = sc_cmp_eq a.sc b.sc (ground arith) in
    let ed : a.site ≡ b.site = ground arith in
    λ i. record { f = ef i; sn = es i; sc = ec i; site = ed i }
