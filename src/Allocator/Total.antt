-- ===== src/Allocator/Total.antt =====
-- src/allocator.rs: gaps that always have room for a weight.
use esbt_web.Base.{
  ℕ, ◌≡◌, refl, sym, subst, ◌∙◌, Bool, true, false, not, ◌&&◌, none, some, [], ◌∷◌, ◌⊎◌, inl, inr,
  if◌then◌else◌, Ordering, arith,
}
use esbt_web.Base.Int.{
  ℤ, pos, negsuc, ◌<ℤ◌, ◌+ℤ◌, ◌-ℤ◌, ltb_ℤ, compare_ℤ, tdiv, i64_min, i64_max, saturating_add,
  saturating_sub, min_ℤ, max_ℤ, eqb_ℤ_refl,
}
use esbt_web.Fraction
use esbt_web.Fraction.{Fraction}
use esbt_web.Weight
use esbt_web.Weight.{Weight}
use esbt_web.Allocator.Tracker
use esbt_web.Allocator.Between.{allocated-inner}
use esbt_web.Allocator.{
  Allocator, Candidate, between, leaves, or_else, concluded, fallback, left_at_fb, right_sn,
  site_digit, at_mediant, at_right, at_left, at_interior, at_fallback, create_weight_inner,
  create_weight,
}

abbrev Found : Candidate → Type 0
Found c = (x : Weight × Tracker.Tracker) × (c ≡ some x)

cmp_rat_refl : (f : Fraction) → Fraction.cmp_rat f f ≡ Ordering.eq
unfolding Fraction.cmp_rat
cmp_rat_refl f = rw (eqb_ℤ_refl f.p, eqb_ℤ_refl f.q)

-- Weights that differ in the fraction, and ones that differ in the sequence number.
lt_of_fraction : (v w : Weight) → Fraction.cmp_rat v.f w.f ≡ Ordering.lt → Weight.lt v w ≡ true
unfolding Weight.cmp
lt_of_fraction v w h = rw h

lt_of_sn : (v w : Weight) → v.f ≡ w.f → v.sn <ℤ w.sn → Weight.lt v w ≡ true
unfolding Weight.cmp
lt_of_sn v w e h =
    let same : Fraction.cmp_rat v.f w.f ≡ Ordering.eq =
      subst (λ g. Fraction.cmp_rat v.f g ≡ Ordering.eq) e (cmp_rat_refl v.f) in
    let less : compare_ℤ v.sn w.sn ≡ Ordering.lt = ground arith in rw (same, less)

or_else-Found : (c d : Candidate) → Found c ⊎ Found d → Found (or_else c d)
or_else-Found none d (inl h) = absurd cc
or_else-Found none d (inr h) = h
or_else-Found (some x) d h = (x, refl)

guarded-Found : (b : Bool) (c : Candidate) → b ≡ true → Found c → Found (if b then c else none)
guarded-Found true c e h = h
guarded-Found false c e h = absurd cc

concluded-Found :
    (c d : Candidate) (t : Tracker.Tracker)
    → Found d
    → (w : Weight) × ((concluded c (concluded d (none, t))).0 ≡ some w)
unfolding concluded
concluded-Found (some (v, u)) d t h = (v, refl)
concluded-Found none (some (v, u)) t h = (v, refl)
concluded-Found none none t h = absurd cc

module _ (left right : Weight) where
  leaves-Found :
      (w : Weight) (t : Tracker.Tracker)
      → Weight.lt left w ≡ true
      → Weight.lt w right ≡ true
      → Found (leaves (between left right w) t)
  leaves-Found w t above below = rw (above, below) ((w, t), refl)

-- The gaps: behind an inner fraction, before an inner fraction behind the start of the tree, and
-- between two sequence numbers of one fraction that are not adjacent.
pub data HasRoom (left right : Weight) : Type 0 where
  after_left :
      Fraction.is_begin left.f ≡ false
      → Fraction.cmp_rat left.f right.f ≡ Ordering.lt
      → left.sn <ℤ i64_max
      → HasRoom left right
  before_right :
      Fraction.is_begin left.f ≡ true
      → Fraction.cmp_rat left.f right.f ≡ Ordering.lt
      → i64_min <ℤ right.sn
      → HasRoom left right
  numbers :
      left.f ≡ right.f
      → Fraction.is_begin left.f ≡ false
      → (left.sn +ℤ pos 1) <ℤ right.sn
      → HasRoom left right

and_true : (a b : Bool) → a ≡ true → b ≡ true → (a && b) ≡ true
and_true a b h k = rw (h, k)

sn_above : (a b : ℤ) → a <ℤ i64_max → a <ℤ saturating_add (max_ℤ b a) (pos 1)
sn_above a b h = ground arith

sn_below : (a b : ℤ) → i64_min <ℤ b → saturating_sub (min_ℤ a b) (pos 1) <ℤ b
sn_below a b h = ground arith

sn_inside :
    (a b : ℤ)
    → (a +ℤ pos 1) <ℤ b
    → (a <ℤ (a +ℤ tdiv (b -ℤ a) (pos 2))) × ((a +ℤ tdiv (b -ℤ a) (pos 2)) <ℤ b)
sn_inside (pos m) (pos n) h = ground arith
sn_inside (pos m) (negsuc n) h = ground arith
sn_inside (negsuc m) (pos n) h = ground arith
sn_inside (negsuc m) (negsuc n) h = ground arith

module _ (left right : Weight) (site : ℕ) (sn_l sn_r : ℤ) (t : Tracker.Tracker) where
  right-Found :
      Fraction.is_begin left.f ≡ false
      → Fraction.cmp_rat left.f right.f ≡ Ordering.lt
      → left.sn <ℤ i64_max
      → Found (at_right left right site sn_l sn_r t)
  unfolding at_right
  right-Found inner h room =
      let fb : fallback left right ≡ left.f = rw inner in
      let less : Fraction.cmp_rat (fallback left right) right.f ≡ Ordering.lt = rw fb h in
      let above : left.sn <ℤ right_sn left right sn_r =
        rw (inner, eqb_ℤ_refl left.f.p, eqb_ℤ_refl left.f.q) (sn_above left.sn sn_r room) in
      let w = Weight.new (fallback left right) (right_sn left right sn_r) left.sc site in
      guarded-Found _ _ (rw less)
        (leaves-Found left right w _ (lt_of_sn left w (sym fb) above) (lt_of_fraction w right less))

  left-Found :
      Fraction.is_begin left.f ≡ true
      → Fraction.cmp_rat left.f right.f ≡ Ordering.lt
      → i64_min <ℤ right.sn
      → Found (at_left left right site sn_l sn_r t)
  unfolding at_left
  left-Found outer h room =
      let sn = saturating_sub (min_ℤ sn_l right.sn) (pos 1) in
      let w = Weight.new right.f sn left.sc site in
      rw (outer, eqb_ℤ_refl right.f.p, eqb_ℤ_refl right.f.q)
        (leaves-Found left right w _ (lt_of_fraction left w h)
          (lt_of_sn w right refl (sn_below sn_l right.sn room)))

  interior-Found :
      (base : ℕ)
      → left.f ≡ right.f
      → Fraction.is_begin left.f ≡ false
      → (left.sn +ℤ pos 1) <ℤ right.sn
      → Found (at_interior base left right site t)
  unfolding at_interior
  interior-Found base e inner gap =
      let fb : fallback left right ≡ left.f = rw inner in
      let sn = left.sn +ℤ tdiv (right.sn -ℤ left.sn) (pos 2) in
      let w = Weight.new (fallback left right) sn (site_digit base site ∷ []) site in
      let (above, below) = sn_inside left.sn right.sn gap in
      let wide : ltb_ℤ (pos 1) (right.sn -ℤ left.sn) ≡ true = ground arith in
      let self : Fraction.eqb left.f left.f ≡ true =
        ground (arith, eqb_ℤ_refl left.f.p, eqb_ℤ_refl left.f.q) in
      let at_left_fraction : Fraction.eqb left.f (fallback left right) ≡ true =
        subst (λ g. Fraction.eqb left.f g ≡ true) (sym fb) self in
      let at_right_fraction : Fraction.eqb (fallback left right) right.f ≡ true =
        subst (λ g. Fraction.eqb g right.f ≡ true) (sym fb)
          (subst (λ g. Fraction.eqb left.f g ≡ true) e self) in
      guarded-Found
        (left_at_fb left right
          && Fraction.eqb (fallback left right) right.f
          && ltb_ℤ (pos 1) (right.sn -ℤ left.sn))
        _
        (and_true (left_at_fb left right && Fraction.eqb (fallback left right) right.f) _
          (and_true (left_at_fb left right) _
            (and_true (not (Fraction.is_begin left.f)) _ (rw inner) at_left_fraction)
            at_right_fraction)
          wide)
        (leaves-Found left right w t (lt_of_sn left w (sym fb) above)
          (lt_of_sn w right (fb ∙ e) below))

room-Found :
    (a : Allocator) (left right : Weight) (site : ℕ) (sn_l sn_r : ℤ) (t : Tracker.Tracker)
    → HasRoom left right
    → Found (at_fallback a left right site sn_l sn_r t)
unfolding at_fallback
room-Found a left right site sn_l sn_r t (after_left inner h above) =
    or_else-Found _ _ (inl (right-Found left right site sn_l sn_r t inner h above))
room-Found a left right site sn_l sn_r t (before_right outer h below) =
    or_else-Found _ _
      (inr (or_else-Found _ _ (inl (left-Found left right site sn_l sn_r t outer h below))))
room-Found a left right site sn_l sn_r t (numbers e inner gap) =
    let found = interior-Found left right site sn_l sn_r t a.base e inner gap in
    or_else-Found _ _ (inr (or_else-Found _ _ (inr (or_else-Found _ _ (inl found)))))

-- `create_weight` finds a weight in each of three cases: the fractions of the neighbours ascend, the
-- left one is not 0/1, and the left sequence number is below the largest `i64`; the fractions ascend,
-- the left one is 0/1, and the right sequence number is above the smallest `i64`; the fractions are
-- the same and not 0/1, and there is a number between the sequence numbers.
pub create_weight-HasRoom :
    (a : Allocator) (left right : Weight) (site : ℕ)
    → HasRoom left right
    → (w : Weight) × ((create_weight left right site a).0 ≡ some w)
unfolding create_weight_inner
create_weight-HasRoom a left right site room =
    let tracked = Tracker.pair (fallback left right) a.tracker in
    let found = at_fallback a left right site tracked.0.0 tracked.0.1 tracked.1 in
    let (w, e) =
      concluded-Found (at_mediant a left right site) found tracked.1
        (room-Found a left right site tracked.0.0 tracked.0.1 tracked.1 room) in
    (w, allocated-inner a left right site ∙ e)
