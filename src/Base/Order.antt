-- ===== src/Base/Order.antt =====
-- Comparisons into `Ordering`, as Rust's `Ord::cmp`, and what makes one an order. A comparison may be
-- lawful only on the values that satisfy `P`.
use Prim.Native.Nat.{compare, Ordering}
use mathlib.Core.Path.{◌≡◌, refl}
use mathlib.Core.Logic.{◌⊎◌, inl, inr}
use mathlib.Core.Bool.{Bool, true, false}
use native.Mathlib.Omega.{arith}
use esbt_web.Base.Int.{compare_ℤ}

-- `Ordering::reverse`.
abbrev pub flip : Ordering → Ordering
flip Ordering.lt = Ordering.gt
flip Ordering.eq = Ordering.eq
flip Ordering.gt = Ordering.lt

-- `match first { Equal => {}, o => return o }`, and then the second comparison.
abbrev pub then_with : Ordering → Ordering → Ordering
then_with Ordering.lt o = Ordering.lt
then_with Ordering.eq o = o
then_with Ordering.gt o = Ordering.gt

abbrev pub is_lt : Ordering → Bool
is_lt Ordering.lt = true
is_lt Ordering.eq = false
is_lt Ordering.gt = false

-- A split on a computed comparison that keeps the equation.
pub Ordering-cases : (o : Ordering) → (o ≡ Ordering.lt) ⊎ ((o ≡ Ordering.eq) ⊎ (o ≡ Ordering.gt))
Ordering-cases Ordering.lt = inl refl
Ordering-cases Ordering.eq = inr (inl refl)
Ordering-cases Ordering.gt = inr (inr refl)

pub record IsPreorder {A : Type 0} (P : A → Type 0) (cmp : A → A → Ordering) : Type 0 where
  pub diag : (a : A) → P a → cmp a a ≡ Ordering.eq
  pub flips : (a b : A) → P a → P b → cmp b a ≡ flip (cmp a b)
  pub lt_trans :
      (a b c : A)
      → P a
      → P b
      → P c
      → cmp a b ≡ Ordering.lt
      → cmp b c ≡ Ordering.lt
      → cmp a c ≡ Ordering.lt
  pub compat : (a b c : A) → P a → P b → P c → cmp a b ≡ Ordering.eq → cmp a c ≡ cmp b c

module _ {A : Type 0} (P : A → Type 0) (cmp : A → A → Ordering) (o : IsPreorder P cmp) where
  pub compat_right : (a b c : A) → P a → P b → P c → cmp b c ≡ Ordering.eq → cmp a b ≡ cmp a c
  compat_right a b c pa pb pc e =
      ground (arith, o.flips b a pb pa, o.flips c a pc pa, o.compat b c a pb pc pa)

-- Two comparisons one after the other.
module _ {A : Type 0} (P : A → Type 0) (cmp next : A → A → Ordering) (o : IsPreorder P cmp)
    (n : IsPreorder P next) where
  then_with-lt_trans :
      (a b c : A)
      → P a
      → P b
      → P c
      → then_with (cmp a b) (next a b) ≡ Ordering.lt
      → then_with (cmp b c) (next b c) ≡ Ordering.lt
      → then_with (cmp a c) (next a c) ≡ Ordering.lt
  then_with-lt_trans a b c pa pb pc h k = ground (
    arith,
    o.lt_trans a b c pa pb pc,
    o.compat a b c pa pb pc,
    compat_right P cmp o a b c pa pb pc,
    n.lt_trans a b c pa pb pc,
  )

  pub then_with-IsPreorder : IsPreorder P (λ a b. then_with (cmp a b) (next a b))
  then_with-IsPreorder = record {
    diag = λ a pa. ground (arith, o.diag a pa, n.diag a pa);
    flips = λ a b pa pb. ground (arith, o.flips a b pa pb, n.flips a b pa pb);
    lt_trans = then_with-lt_trans;
    compat = λ a b c pa pb pc h. ground (arith, o.compat a b c pa pb pc, n.compat a b c pa pb pc);
  }

-- A comparison of a part.
pub on-IsPreorder :
    {A B : Type 0} (P : A → Type 0) (Q : B → Type 0) (cmp : B → B → Ordering) (part : A → B)
    → ((a : A) → P a → Q (part a))
    → IsPreorder Q cmp
    → IsPreorder P (λ a b. cmp (part a) (part b))
on-IsPreorder P Q cmp part h o = record {
  diag = λ a pa. o.diag (part a) (h a pa);
  flips = λ a b pa pb. o.flips (part a) (part b) (h a pa) (h b pb);
  lt_trans = λ a b c pa pb pc. o.lt_trans (part a) (part b) (part c) (h a pa) (h b pb) (h c pc);
  compat = λ a b c pa pb pc. o.compat (part a) (part b) (part c) (h a pa) (h b pb) (h c pc);
}

abbrev pub Anything : {A : Type 0} → A → Type 0
Anything a = Unit {0}

pub compare-IsPreorder : IsPreorder Anything compare
compare-IsPreorder = record {
  diag = λ a _. ground arith;
  flips = λ a b _ _. ground arith;
  lt_trans = λ a b c _ _ _ h k. ground arith;
  compat = λ a b c _ _ _ h. ground arith;
}

pub compare_ℤ-IsPreorder : IsPreorder Anything compare_ℤ
compare_ℤ-IsPreorder = record {
  diag = λ a _. ground arith;
  flips = λ a b _ _. ground arith;
  lt_trans = λ a b c _ _ _ h k. ground arith;
  compat = λ a b c _ _ _ h. ground arith;
}
