-- ===== src/Allocator/Between.antt =====
-- src/allocator.rs: an allocated weight lies in the gap it was asked for.
use esbt_web.Base.{
  ℕ, ◌≡◌, refl, sym, subst, ◌∙◌, Bool, true, false, ◌&&◌, Option, none, some, Bool-cases,
  Option-cases, inl, inr, if◌then◌else◌, arith,
}
use esbt_web.Base.Int.{ℤ}
use esbt_web.Weight
use esbt_web.Weight.{Weight}
use esbt_web.Allocator.Tracker
use esbt_web.Allocator.{
  Allocator, Candidate, between, leaves, or_else, concluded, fallback, at_mediant, at_right,
  at_left, at_interior, at_path, at_fallback, create_weight_inner, create_weight,
}

-- Strictly between the neighbours, and owned by the site.
abbrev pub IsWithin : Weight → Weight → ℕ → Weight → Type 0
IsWithin left right site w =
    (Weight.lt left w ≡ true) × (Weight.lt w right ≡ true) × (w.site ≡ site)

abbrev Lies : Weight → Weight → ℕ → Candidate → Type 0
Lies left right site none = Unit
Lies left right site (some (w, t)) = IsWithin left right site w

some-injective : (a b : Weight) → ◌≡◌ {A = Option Weight} (some a) (some b) → a ≡ b
some-injective a b h = cc

module _ (left right : Weight) (site : ℕ) where
  if-Lies :
      (b : Bool) (c : Candidate)
      → Lies left right site c
      → Lies left right site (if b then c else none)
  if-Lies true c h = h
  if-Lies false c h = tt

  or_else-Lies :
      (c d : Candidate)
      → Lies left right site c
      → Lies left right site d
      → Lies left right site (or_else c d)
  or_else-Lies none d h k = k
  or_else-Lies (some found) d h k = h

  leaves-Lies :
      (w : Weight) (t : Tracker.Tracker)
      → w.site ≡ site
      → Lies left right site (leaves (between left right w) t)
  leaves-Lies w t owned = elim (Bool-cases (Weight.lt left w && Weight.lt w right)) [
    | inl inside ↦ rw inside (ground arith, ground arith, owned)
    | inr outside ↦ rw outside tt
  ]

  at_path-Lies :
      (a : Allocator) (t : Tracker.Tracker) → Lies left right site (at_path a left right site t)
  unfolding at_path
  at_path-Lies a t =
      or_else-Lies _ _ (leaves-Lies _ t refl)
        (or_else-Lies _ _ (leaves-Lies _ t refl) (leaves-Lies _ t refl))

  at_right-Lies :
      (sn_l sn_r : ℤ) (t : Tracker.Tracker)
      → Lies left right site (at_right left right site sn_l sn_r t)
  unfolding at_right
  at_right-Lies sn_l sn_r t = if-Lies _ _ (leaves-Lies _ _ refl)

  at_left-Lies :
      (sn_l sn_r : ℤ) (t : Tracker.Tracker)
      → Lies left right site (at_left left right site sn_l sn_r t)
  unfolding at_left
  at_left-Lies sn_l sn_r t = if-Lies _ _ (leaves-Lies _ _ refl)

  at_interior-Lies :
      (base : ℕ) (t : Tracker.Tracker) → Lies left right site (at_interior base left right site t)
  unfolding at_interior
  at_interior-Lies base t = if-Lies _ _ (leaves-Lies _ _ refl)

  at_fallback-Lies :
      (a : Allocator) (sn_l sn_r : ℤ) (t : Tracker.Tracker)
      → Lies left right site (at_fallback a left right site sn_l sn_r t)
  unfolding at_fallback
  at_fallback-Lies a sn_l sn_r t =
      let r = at_right left right site sn_l sn_r t in
      let l = at_left left right site sn_l sn_r t in
      let i = at_interior a.base left right site t in
      let p = at_path a left right site t in
      or_else-Lies r (or_else l (or_else i p)) (at_right-Lies sn_l sn_r t) (
        or_else-Lies l (or_else i p) (at_left-Lies sn_l sn_r t)
          (or_else-Lies i p (at_interior-Lies a.base t) (at_path-Lies a t)))

  at_mediant-Lies : (a : Allocator) → Lies left right site (at_mediant a left right site)
  unfolding at_mediant
  at_mediant-Lies a = if-Lies _ _ (leaves-Lies _ _ refl)

  concluded-Lies :
      (c : Candidate) (next : Option Weight × Tracker.Tracker) (w : Weight)
      → Lies left right site c
      → (next.0 ≡ some w → IsWithin left right site w)
      → (concluded c next).0 ≡ some w
      → IsWithin left right site w
  unfolding concluded
  concluded-Lies none next w h k e = k e
  concluded-Lies (some (v, u)) next w h k e =
      subst (IsWithin left right site) (some-injective v w e) h

  inner-IsWithin :
      (a : Allocator) (w : Weight)
      → (create_weight_inner a left right site).0 ≡ some w
      → IsWithin left right site w
  unfolding create_weight_inner
  inner-IsWithin a w =
      let tracked = Tracker.pair (fallback left right) a.tracker in
      let found = at_fallback a left right site tracked.0.0 tracked.0.1 tracked.1 in
      concluded-Lies (at_mediant a left right site) (concluded found (none, tracked.1)) w
        (at_mediant-Lies a)
        (concluded-Lies found (none, tracked.1) w
          (at_fallback-Lies a tracked.0.0 tracked.0.1 tracked.1) (λ e. absurd cc))

pub allocated-inner :
    (a : Allocator) (left right : Weight) (site : ℕ)
    → (create_weight left right site a).0 ≡ (create_weight_inner a left right site).0
unfolding create_weight
allocated-inner a left right site = elim (Option-cases a.adaptive) [
  | inl absent ↦ rw absent
  | inr (c, present) ↦ rw present
]

-- A weight that `create_weight` gives is strictly between the two neighbours and owned by the
-- site, with or without the adaptive controller, and whatever the tracker holds.
pub create_weight-IsWithin :
    (a : Allocator) (left right w : Weight) (site : ℕ)
    → (create_weight left right site a).0 ≡ some w
    → (Weight.lt left w ≡ true) × (Weight.lt w right ≡ true) × (w.site ≡ site)
create_weight-IsWithin a left right w site e =
    inner-IsWithin left right site a w (sym (allocated-inner a left right site) ∙ e)
