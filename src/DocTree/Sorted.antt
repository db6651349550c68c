-- ===== src/DocTree/Sorted.antt =====
-- src/rbtree.rs: what the tree stands for, the list of its atoms in the order of their weights, and the
-- operations of such a list.
use esbt_web.Base.{
  ℕ, suc, ◌+◌, Ordering, ◌≡◌, refl, ap, sym, subst, ◌⊎◌, inl, inr, Option, none, some, List, [],
  ◌∷◌, ◌++◌, length, All, if◌then◌else◌, arith,
}
use esbt_web.Base.Order.{Ordering-cases}
use esbt_web.Weight
use esbt_web.Weight.{Weight}
use esbt_web.Weight.Order.{IsOrdered, cmp-IsPreorder, cmp_eq}
use esbt_web.DocTree.{Atom}

abbrev pub Before : Weight → Atom → Type 0
Before w a = Weight.cmp w a.weight ≡ Ordering.lt

abbrev pub After : Weight → Atom → Type 0
After w a = Weight.cmp a.weight w ≡ Ordering.lt

-- The weights ascend strictly, and are ones for which the order of weights holds.
abbrev pub IsSorted : List Atom → Type 0
IsSorted [] = Unit
IsSorted (a ∷ l) = IsOrdered a.weight × All (Before a.weight) l × IsSorted l

-- The unit and the counter under a weight.
unfoldable pub lookup : Weight → List Atom → Option (ℕ × ℕ)
lookup w [] = none
lookup w (a ∷ l) = elim (Weight.cmp w a.weight) [
  | Ordering.lt ↦ lookup w l
  | Ordering.gt ↦ lookup w l
  | Ordering.eq ↦ some (a.unit, a.counter)
]

-- The number of atoms before a weight.
unfoldable pub rank : Weight → List Atom → ℕ
rank w [] = 0
rank w (a ∷ l) = if Weight.lt a.weight w then suc (rank w l) else 0

-- The atom is put before the first that is above it.
unfoldable pub insert : Atom → List Atom → List Atom
insert a [] = a ∷ []
insert a (b ∷ l) = if Weight.lt a.weight b.weight then a ∷ b ∷ l else b ∷ insert a l

unfoldable pub remove : Weight → List Atom → List Atom
remove w [] = []
remove w (a ∷ l) = elim (Weight.cmp w a.weight) [
  | Ordering.lt ↦ a ∷ remove w l
  | Ordering.gt ↦ a ∷ remove w l
  | Ordering.eq ↦ l
]

-- A sorted list around one of its atoms.
pub record IsSplit (l : List Atom) (a : Atom) (r : List Atom) : Type 0 where
  pub left : IsSorted l
  pub pivot : IsOrdered a.weight
  pub right : IsSorted r
  pub below : All (After a.weight) l
  pub above : All (Before a.weight) r

All-append : (P : Atom → Type 0) (l r : List Atom) → All P (l ++ r) → All P l × All P r
All-append P [] r h = (tt, h)
All-append P (x ∷ l) r h = let rest = All-append P l r h.1 in ((h.0, rest.0), rest.1)

pub IsSorted-IsSplit :
    (l : List Atom) (a : Atom) (r : List Atom) → IsSorted (l ++ (a ∷ r)) → IsSplit l a r
IsSorted-IsSplit [] a r h = record { left = tt; pivot = h.0; right = h.2; below = tt; above = h.1 }
IsSorted-IsSplit (x ∷ l) a r h =
    let rest = IsSorted-IsSplit l a r h.2 in
    let heads = All-append (Before x.weight) l (a ∷ r) h.1 in
    record {
      left = (h.0, heads.0, rest.left);
      pivot = rest.pivot;
      right = rest.right;
      below = (heads.1.0, rest.below);
      above = rest.above;
    }

-- The order of weights, as lemmas that name what they need.
pub before_trans :
    (u v w : Weight)
    → IsOrdered u
    → IsOrdered v
    → IsOrdered w
    → Weight.cmp u v ≡ Ordering.lt
    → Weight.cmp v w ≡ Ordering.lt
    → Weight.cmp u w ≡ Ordering.lt
before_trans u v w hu hv hw = cmp-IsPreorder.lt_trans u v w hu hv hw

pub gt_of_lt :
    (u v : Weight)
    → IsOrdered u
    → IsOrdered v
    → Weight.cmp u v ≡ Ordering.lt
    → Weight.cmp v u ≡ Ordering.gt
gt_of_lt u v hu hv h = ground (arith, cmp-IsPreorder.flips u v hu hv)

pub lt_of_gt :
    (u v : Weight)
    → IsOrdered u
    → IsOrdered v
    → Weight.cmp u v ≡ Ordering.gt
    → Weight.cmp v u ≡ Ordering.lt
lt_of_gt u v hu hv h = ground (arith, cmp-IsPreorder.flips u v hu hv)

-- Every weight of `l` is above `w`, if `w` is not above `a` and `a` is below all of `l`.
pub Before-All :
    (w : Weight) (a : Atom) (l : List Atom)
    → IsOrdered w
    → IsOrdered a.weight
    → IsSorted l
    → Weight.cmp w a.weight ≡ Ordering.lt
    → All (Before a.weight) l
    → All (Before w) l
Before-All w a [] hw ha s h k = tt
Before-All w a (b ∷ l) hw ha s h k =
    (before_trans w a.weight b.weight hw ha s.0 h k.0, Before-All w a l hw ha s.2 h k.1)

pub After-All :
    (w : Weight) (a : Atom) (l : List Atom)
    → IsOrdered w
    → IsOrdered a.weight
    → IsSorted l
    → Weight.cmp a.weight w ≡ Ordering.lt
    → All (After a.weight) l
    → All (After w) l
After-All w a [] hw ha s h k = tt
After-All w a (b ∷ l) hw ha s h k =
    (before_trans b.weight a.weight w s.0 ha hw k.0 h, After-All w a l hw ha s.2 h k.1)

-- What the operations do past and before the atoms that the order rules out.
module _ (w : Weight) (hw : IsOrdered w) where
  pub lookup-After :
      (l r : List Atom) → IsSorted l → All (After w) l → lookup w (l ++ r) ≡ lookup w r
  unfolding lookup
  lookup-After [] r s h = refl
  lookup-After (a ∷ l) r s h =
      rw (gt_of_lt a.weight w s.0 hw h.0, lookup) (lookup-After l r s.2 h.1)

  pub lookup-Before : (l : List Atom) → All (Before w) l → lookup w l ≡ none
  unfolding lookup
  lookup-Before [] h = refl
  lookup-Before (a ∷ l) h = rw (h.0, lookup) (lookup-Before l h.1)

  pub rank-After : (l r : List Atom) → All (After w) l → rank w (l ++ r) ≡ length l + rank w r
  unfolding rank
  rank-After [] r h = omega arith
  rank-After (a ∷ l) r h = rw h.0 (omega (arith, rank-After l r h.1))

  pub rank_all : (l : List Atom) → All (After w) l → rank w l ≡ length l
  unfolding rank
  rank_all [] h = refl
  rank_all (a ∷ l) h = rw h.0 (ap suc (rank_all l h.1))

  pub rank-Before : (l : List Atom) → IsSorted l → All (Before w) l → rank w l ≡ 0
  unfolding rank
  rank-Before [] s h = refl
  rank-Before (a ∷ l) s h = rw (gt_of_lt w a.weight hw s.0 h.0) refl

  pub remove-After :
      (l r : List Atom) → IsSorted l → All (After w) l → remove w (l ++ r) ≡ l ++ remove w r
  unfolding remove
  remove-After [] r s h = refl
  remove-After (a ∷ l) r s h =
      rw (gt_of_lt a.weight w s.0 hw h.0, remove) (ap (λ k. a ∷ k) (remove-After l r s.2 h.1))

  pub remove-Before : (l : List Atom) → All (Before w) l → remove w l ≡ l
  unfolding remove
  remove-Before [] h = refl
  remove-Before (a ∷ l) h = rw (h.0, remove) (ap (λ k. a ∷ k) (remove-Before l h.1))

  -- Up to an atom above `w`, the rest of the list does not matter.
  pub lookup-Until :
      (l : List Atom) (a : Atom) (r : List Atom)
      → Before w a
      → All (Before w) r
      → lookup w (l ++ (a ∷ r)) ≡ lookup w l
  unfolding lookup
  lookup-Until [] a r h k = rw (h, lookup) (lookup-Before r k)
  lookup-Until (b ∷ l) a r h k = ground (arith, lookup-Until l a r h k)

  pub rank-Until :
      (l : List Atom) (a : Atom) (r : List Atom)
      → IsOrdered a.weight
      → Before w a
      → rank w (l ++ (a ∷ r)) ≡ rank w l
  unfolding rank
  rank-Until [] a r ha h = rw (gt_of_lt w a.weight hw ha h) refl
  rank-Until (b ∷ l) a r ha h = ground (arith, rank-Until l a r ha h)

  pub remove-Until :
      (l : List Atom) (a : Atom) (r : List Atom)
      → Before w a
      → All (Before w) r
      → remove w (l ++ (a ∷ r)) ≡ remove w l ++ (a ∷ r)
  unfolding remove
  remove-Until [] a r h k = rw (h, remove) (ap (λ t. a ∷ t) (remove-Before r k))
  remove-Until (b ∷ l) a r h k = ground (arith, remove-Until l a r h k)

  -- Where the weight lies in a sorted list that is split at an atom.
  pub place :
      (l : List Atom) (a : Atom) (r : List Atom)
      → IsSplit l a r
      → (Before w a × All (Before w) r)
        ⊎ (((w ≡ a.weight) × All (After w) l × All (Before w) r)
            ⊎ ((Weight.cmp w a.weight ≡ Ordering.gt) × After w a × All (After w) l))
  place l a r p = elim (Ordering-cases (Weight.cmp w a.weight)) [
    | inl lt ↦ inl (lt, Before-All w a r hw p.pivot p.right lt p.above)
    | inr (inl eq) ↦
        let e = cmp_eq w a.weight hw p.pivot eq in
        inr (
          inl (
            e,
            subst (λ v. All (After v) l) (sym e) p.below,
            subst (λ v. All (Before v) r) (sym e) p.above,
          ))
    | inr (inr gt) ↦
        let lt = lt_of_gt w a.weight hw p.pivot gt in
        inr (inr (gt, lt, After-All w a l hw p.pivot p.left lt p.below))
  ]

pub cmp_same : (v w : Weight) → IsOrdered v → w ≡ v → Weight.cmp w v ≡ Ordering.eq
cmp_same v w h e = subst (λ u. Weight.cmp u v ≡ Ordering.eq) (sym e) (cmp-IsPreorder.diag v h)
