-- ===== src/Anchor/Resolve.antt =====
-- src/anchor.rs: where anchors resolve.
use esbt_web.Base.{
  ℕ, zero, suc, ◌+◌, ◌-◌, ◌<◌, ◌≤◌, min, ◌≡◌, refl, ap, ap₂, sym, subst, ◌∙◌, true, false,
  Bool-cases, inl, inr, Option-cases, none, some, List, [], ◌∷◌, length, get_elem?, All, leb, ltb,
  ◌==◌, arith,
}
use esbt_web.Weight
use esbt_web.Weight.{Weight}
use esbt_web.Weight.Order.{IsOrdered}
use esbt_web.DocTree
use esbt_web.DocTree.{Atom, DocTree, atoms, size}
use esbt_web.DocTree.Invariant.{IsDoc}
use esbt_web.DocTree.Search.{
  size-atoms, find-atoms, get_at-atoms, index_of-atoms, lower_bound-atoms, ranked,
}
use esbt_web.DocTree.Sorted
use esbt_web.DocTree.Sorted.{Before, IsSorted, gt_of_lt, cmp_same}
use esbt_web.Replica.{Replica, len}
use esbt_web.Anchor.{
  Affinity, AnchorTarget, Anchor, AnchorRange, anchored, at_index, resolve, resolve_target,
  resolve_range, is_live, offset, start_anchor, end_anchor,
}

All-get_elem? :
    (P : Atom → Type 0) (l : List Atom) (i : ℕ) (a : Atom) → All P l → get_elem? l i ≡ some a → P a
All-get_elem? P [] i a h e = absurd (ground (arith, e))
All-get_elem? P (b ∷ l) zero a h e = subst P (ap (λ o. elim o [ none ↦ b | some x ↦ x ]) e) h.0
All-get_elem? P (b ∷ l) (suc i) a h e = All-get_elem? P l i a h.1 e

-- The atom at an index is under its weight, and its rank is the index.
ranked_at :
    (l : List Atom) (i : ℕ) (a : Atom)
    → IsSorted l
    → get_elem? l i ≡ some a
    → IsOrdered a.weight
      × (Sorted.lookup a.weight l ≡ some (a.unit, a.counter))
      × (Sorted.rank a.weight l ≡ i)
unfolding Sorted.lookup Sorted.rank
ranked_at [] i a s e = absurd (ground (arith, e))
ranked_at (b ∷ l) zero a s e =
    let same : b ≡ a = ap (λ o. elim o [ none ↦ b | some x ↦ x ]) e in
    subst
      (λ (x : Atom).
        IsOrdered x.weight
        × (Sorted.lookup x.weight (b ∷ l) ≡ some (x.unit, x.counter))
        × (Sorted.rank x.weight (b ∷ l) ≡ 0))
      same
      (
        s.0,
        rw (cmp_same b.weight b.weight s.0 refl, Sorted.lookup) refl,
        rw (cmp_same b.weight b.weight s.0 refl, Sorted.rank) refl,
      )
ranked_at (b ∷ l) (suc i) a s e =
    let rest = ranked_at l i a s.2 e in
    let lt = All-get_elem? (Before b.weight) l i a s.1 e in
    (
      rest.0,
      rw (gt_of_lt b.weight a.weight s.0 rest.0 lt, Sorted.lookup) rest.1,
      rw (lt, Sorted.rank) (ap suc rest.2),
    )

-- An anchor at the atom of an index resolves to the index, or behind it.
resolve_anchored :
    (r : Replica) (i : ℕ) (a : Atom) (affinity : Affinity)
    → IsDoc r.doc
    → DocTree.get_at i r.doc ≡ some a
    → resolve_target (AnchorTarget.item a.weight a.counter) affinity r ≡ i + offset affinity
unfolding resolve_target
resolve_anchored r i a affinity d e =
    let at = ranked_at (atoms r.doc) i a d.1 (sym (get_at-atoms i r.doc d.0) ∙ e) in
    let found = find-atoms a.weight r.doc at.0 d.1 ∙ at.1 in
    let index = index_of-atoms a.weight r.doc at.0 d.0 d.1 ∙ ap₂ ranked at.1 at.2 in
    let live : is_live (DocTree.find a.weight r.doc) a.counter ≡ true =
      ap (λ o. is_live o a.counter) found ∙ ground arith in
    rw (live, index) refl

some_at : (l : List Atom) (i : ℕ) → i < length l → (a : Atom) × (get_elem? l i ≡ some a)
some_at [] i h = absurd (omega (arith, h))
some_at (a ∷ l) zero h = (a, refl)
some_at (a ∷ l) (suc i) h = some_at l i (omega (arith, h))

none_at : (l : List Atom) (i : ℕ) → length l ≤ i → get_elem? l i ≡ none
none_at [] i h = refl
none_at (a ∷ l) zero h = absurd (omega (arith, h))
none_at (a ∷ l) (suc i) h = none_at l i (omega (arith, h))

resolve_at :
    (r : Replica) (i k : ℕ) (affinity : Affinity) (sentinel : Anchor)
    → IsDoc r.doc
    → i < len r
    → i + offset affinity ≡ k
    → resolve (anchored affinity sentinel (DocTree.get_at i r.doc)) r ≡ k
unfolding resolve anchored
resolve_at r i k affinity sentinel d h e =
    let size = size-atoms r.doc d.0 in
    let (a, at) = some_at (atoms r.doc) i (omega (arith, h, size)) in
    let got = get_at-atoms i r.doc d.0 ∙ (some_at (atoms r.doc) i (omega (arith, h, size))).1 in
    rw got
      (resolve_anchored r i (some_at (atoms r.doc) i (omega (arith, h, size))).0 affinity d got ∙ e)

-- If every node of the document stores its size and the atoms ascend by weights in lowest terms,
-- then an anchor made at an index resolves to that index in the same document, or to the end where
-- the index is past it.
pub resolve-at_index :
    (r : Replica) (index : ℕ) (affinity : Affinity)
    → IsDoc r.doc
    → resolve (at_index r index affinity) r ≡ min index (len r)
unfolding resolve at_index resolve_target anchored
resolve-at_index r index Affinity.before d = elim (Bool-cases (ltb index (len r))) [
  | inl within ↦
      resolve_at r (min index (len r)) (min index (len r)) Affinity.before end_anchor d
        (ground (arith, within)) (omega arith)
  | inr past ↦
      let size = size-atoms r.doc d.0 in
      let nothing =
        get_at-atoms (min index (len r)) r.doc d.0
        ∙ none_at (atoms r.doc) (min index (len r)) (ground (arith, past, size)) in
      rw nothing (ground (arith, past))
]
resolve-at_index r index Affinity.after d = elim (Bool-cases (min index (len r) == 0)) [
  | inl first ↦ rw first (ground (arith, first))
  | inr later ↦ rw later (
      resolve_at r (min index (len r) - 1) (min index (len r)) Affinity.after start_anchor d
        (ground (arith, later)) (ground (arith, later)))
]

rank-le : (w : Weight) (l : List Atom) → Sorted.rank w l ≤ length l
unfolding Sorted.rank
rank-le w [] = omega arith
rank-le w (a ∷ l) = ground (arith, rank-le w l)

rank-lt :
    (w : Weight) (l : List Atom) (f : ℕ × ℕ)
    → IsOrdered w
    → IsSorted l
    → Sorted.lookup w l ≡ some f
    → Sorted.rank w l < length l
unfolding Sorted.rank Sorted.lookup
rank-lt w [] f hw s e = absurd (ground (arith, e))
rank-lt w (a ∷ l) f hw s e = elim (Bool-cases (Weight.lt a.weight w)) [
  | inl below ↦ ground (arith, below, rank-lt w l f hw s.2, gt_of_lt a.weight w s.0 hw)
  | inr above ↦ rw (above, Sorted.rank) (omega arith)
]

-- The weight of an item is one for which the order of weights holds.
abbrev pub OnOrdered : AnchorTarget → Type 0
OnOrdered AnchorTarget.start = Unit
OnOrdered AnchorTarget.end = Unit
OnOrdered (AnchorTarget.item w counter) = IsOrdered w

resolve_target-le :
    (t : AnchorTarget) (affinity : Affinity) (r : Replica)
    → OnOrdered t
    → IsDoc r.doc
    → resolve_target t affinity r ≤ len r
unfolding resolve_target
resolve_target-le AnchorTarget.start affinity r h d = omega arith
resolve_target-le AnchorTarget.end affinity r h d = omega arith
resolve_target-le (AnchorTarget.item w counter) affinity r h d =
    let size = size-atoms r.doc d.0 in
    let bound = lower_bound-atoms w r.doc h d.0 d.1 in
    let le = rank-le w (atoms r.doc) in
    elim (Option-cases (Sorted.lookup w (atoms r.doc))) [
      | inl absent ↦
          let found = find-atoms w r.doc h d.1 ∙ absent in
          let dead : is_live (DocTree.find w r.doc) counter ≡ false = rw found refl in
          rw dead (omega (arith, size, bound, le))
      | inr (f, e) ↦
          let index =
            index_of-atoms w r.doc h d.0 d.1 ∙ ap (λ o. ranked o (Sorted.rank w (atoms r.doc))) e in
          let lt = rank-lt w (atoms r.doc) f h d.1 e in
          elim (Bool-cases (is_live (DocTree.find w r.doc) counter)) [
            | inl live ↦ rw (live, index) (ground (arith, size, lt))
            | inr other ↦ rw other (omega (arith, size, bound, le))
          ]
    ]

-- If every node of the document stores its size, the atoms ascend by weights in lowest terms and
-- the anchors of a range are at sentinels or at such weights, then the range resolves to two
-- indices in ascending order within the document.
pub resolve_range-le :
    (range : AnchorRange) (r : Replica)
    → OnOrdered range.start.target
    → OnOrdered range.end.target
    → IsDoc r.doc
    → ((resolve_range range r).0 ≤ (resolve_range range r).1) × ((resolve_range range r).1 ≤ len r)
unfolding resolve_range resolve
resolve_range-le range r hs he d =
    let from = resolve_target-le range.start.target range.start.affinity r hs d in
    let to = resolve_target-le range.end.target range.end.affinity r he d in
    elim (Bool-cases (leb (resolve range.start r) (resolve range.end r))) [
      | inl ordered ↦ rw ordered (ground (arith, ordered), to)
      | inr crossed ↦ rw crossed (omega arith, to)
    ]
