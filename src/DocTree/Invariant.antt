-- ===== src/DocTree/Invariant.antt =====
-- src/rbtree.rs: the invariant of the tree, and what a search finds after an insertion or a deletion.
use esbt_web.Base.{
  Ordering, ◌≡◌, ◌≢◌, refl, ap, sym, subst, ◌∙◌, Bool, true, false, Bool-cases, inl, inr, none,
  some, List, [], ◌∷◌, All, if◌then◌else◌, arith,
}
use esbt_web.Base.Order.{Ordering-cases}
use esbt_web.Weight
use esbt_web.Weight.{Weight}
use esbt_web.Weight.Order.{IsOrdered, cmp_eq}
use esbt_web.DocTree.{Atom, DocTree, find, contains, insert, atoms}
use esbt_web.DocTree.Delete.{delete}
use esbt_web.DocTree.Inorder.{is_found, insert_new, insert-insert_new, viewed}
use esbt_web.DocTree.Removal.{remove_found, delete-remove_found}
use esbt_web.DocTree.Search.{IsSized, find-atoms}
use esbt_web.DocTree.Sizes.{insert-IsSized}
use esbt_web.DocTree.Sizes.Removal.{delete-IsSized}
use esbt_web.DocTree.Sorted
use esbt_web.DocTree.Sorted.{Before, IsSorted, lt_of_gt, lookup-Before, Before-All}

-- Every node stores its size, and the atoms ascend by their weights.
abbrev pub IsDoc : DocTree → Type 0
IsDoc t = IsSized t × IsSorted (atoms t)

module _ (P : Atom → Type 0) where
  insert-All : (a : Atom) (l : List Atom) → P a → All P l → All P (Sorted.insert a l)
  unfolding Sorted.insert
  insert-All a [] pa h = (pa, tt)
  insert-All a (b ∷ l) pa h = elim (Bool-cases (Weight.lt a.weight b.weight)) [
    | inl lt ↦ rw (lt, Sorted.insert) (pa, h)
    | inr ge ↦ rw (ge, Sorted.insert) (h.0, insert-All a l pa h.1)
  ]

  remove-All : (w : Weight) (l : List Atom) → All P l → All P (Sorted.remove w l)
  unfolding Sorted.remove
  remove-All w [] h = tt
  remove-All w (a ∷ l) h = elim (Ordering-cases (Weight.cmp w a.weight)) [
    | inl lt ↦ rw (lt, Sorted.remove) (h.0, remove-All w l h.1)
    | inr (inl eq) ↦ rw (eq, Sorted.remove) h.1
    | inr (inr gt) ↦ rw (gt, Sorted.remove) (h.0, remove-All w l h.1)
  ]

insert-IsSorted :
    (a : Atom) (l : List Atom)
    → IsOrdered a.weight
    → IsSorted l
    → is_found (Sorted.lookup a.weight l) ≡ false
    → IsSorted (Sorted.insert a l)
unfolding Sorted.insert Sorted.lookup
insert-IsSorted a [] ha s new = (ha, tt, tt)
insert-IsSorted a (b ∷ l) ha s new = elim (Ordering-cases (Weight.cmp a.weight b.weight)) [
  | inl lt ↦ rw (lt, Sorted.insert) (ha, (lt, Before-All a.weight b l ha s.0 s.2 lt s.1), s)
  | inr (inl eq) ↦ absurd (ground (arith, eq))
  | inr (inr gt) ↦
      rw (gt, Sorted.insert)
        (
          s.0,
          insert-All (Before b.weight) a l (lt_of_gt a.weight b.weight ha s.0 gt) s.1,
          insert-IsSorted a l ha s.2 (ground (arith, gt)),
        )
]

remove-IsSorted : (w : Weight) (l : List Atom) → IsSorted l → IsSorted (Sorted.remove w l)
unfolding Sorted.remove
remove-IsSorted w [] s = tt
remove-IsSorted w (a ∷ l) s = elim (Ordering-cases (Weight.cmp w a.weight)) [
  | inl lt ↦
      rw (lt, Sorted.remove) (s.0, remove-All (Before a.weight) w l s.1, remove-IsSorted w l s.2)
  | inr (inl eq) ↦ rw (eq, Sorted.remove) s.2
  | inr (inr gt) ↦
      rw (gt, Sorted.remove) (s.0, remove-All (Before a.weight) w l s.1, remove-IsSorted w l s.2)
]

-- If every node stores its size and the atoms ascend by weights in lowest terms, then `insert` of
-- an atom whose weight is in lowest terms keeps both.
pub insert-IsDoc : (a : Atom) (t : DocTree) → IsOrdered a.weight → IsDoc t → IsDoc (insert a t).1
unfolding insert_new
insert-IsDoc a t ha d =
    let view = insert-insert_new a t ha d.1 in
    (
      insert-IsSized a t d.0,
      subst IsSorted (sym (ap (λ (v : Bool × List Atom). v.1) view))
          (elim (Bool-cases (is_found (Sorted.lookup a.weight (atoms t)))) [
            | inl there ↦ rw (there, insert_new) d.1
            | inr new ↦ rw (new, insert_new) (insert-IsSorted a (atoms t) ha d.1 new)
          ]),
    )

-- If every node stores its size and the atoms ascend by weights in lowest terms, then `delete` of
-- a weight in lowest terms keeps both.
pub delete-IsDoc : (w : Weight) (t : DocTree) → IsOrdered w → IsDoc t → IsDoc (delete w t).1
unfolding remove_found
delete-IsDoc w t hw d =
    let view = delete-remove_found w t hw d.1 in
    (
      delete-IsSized w t d.0,
      subst IsSorted (sym (ap (λ (v : Bool × List Atom). v.1) view))
          (elim (Bool-cases (is_found (Sorted.lookup w (atoms t)))) [
            | inl there ↦ rw (there, remove_found) (remove-IsSorted w (atoms t) d.1)
            | inr absent ↦ rw (absent, remove_found) d.1
          ]),
    )

pub lookup-insert_self :
    (a : Atom) (l : List Atom)
    → IsOrdered a.weight
    → is_found (Sorted.lookup a.weight l) ≡ false
    → Sorted.lookup a.weight (Sorted.insert a l) ≡ some (a.unit, a.counter)
unfolding Sorted.lookup Sorted.insert
lookup-insert_self a [] ha new = rw (Sorted.cmp_same a.weight a.weight ha refl, Sorted.lookup) refl
lookup-insert_self a (b ∷ l) ha new =
    ground (arith, lookup-insert_self a l ha, Sorted.cmp_same a.weight a.weight ha refl)

lookup-insert_other :
    (w : Weight) (a : Atom) (l : List Atom)
    → Weight.cmp w a.weight ≢ Ordering.eq
    → Sorted.lookup w (Sorted.insert a l) ≡ Sorted.lookup w l
unfolding Sorted.lookup Sorted.insert
lookup-insert_other w a [] h = ground arith
lookup-insert_other w a (b ∷ l) h = ground (arith, lookup-insert_other w a l h)

lookup-remove_self :
    (w : Weight) (l : List Atom)
    → IsOrdered w
    → IsSorted l
    → Sorted.lookup w (Sorted.remove w l) ≡ none
unfolding Sorted.lookup Sorted.remove
lookup-remove_self w [] hw s = refl
lookup-remove_self w (a ∷ l) hw s = elim (Ordering-cases (Weight.cmp w a.weight)) [
  | inl lt ↦ ground (arith, lt, lookup-remove_self w l hw s.2)
  | inr (inl eq) ↦
      rw (eq, Sorted.remove)
        (lookup-Before w hw l
          (subst (λ v. All (Before v) l) (sym (cmp_eq w a.weight hw s.0 eq)) s.1))
  | inr (inr gt) ↦ ground (arith, gt, lookup-remove_self w l hw s.2)
]

lookup-remove_other :
    (w v : Weight) (l : List Atom)
    → IsOrdered v
    → IsSorted l
    → Weight.cmp w v ≢ Ordering.eq
    → Sorted.lookup w (Sorted.remove v l) ≡ Sorted.lookup w l
unfolding Sorted.lookup Sorted.remove
lookup-remove_other w v [] hv s h = refl
lookup-remove_other w v (a ∷ l) hv s h = elim (Ordering-cases (Weight.cmp v a.weight)) [
  | inl lt ↦ rw (lt, Sorted.remove) (ground (arith, lookup-remove_other w v l hv s.2 h))
  | inr (inl eq) ↦
      let e = cmp_eq v a.weight hv s.0 eq in
      let h' : Weight.cmp w a.weight ≢ Ordering.eq =
        subst (λ u. Weight.cmp w u ≢ Ordering.eq) e h in
      rw (eq, Sorted.remove) (ground arith)
  | inr (inr gt) ↦ rw (gt, Sorted.remove) (ground (arith, lookup-remove_other w v l hv s.2 h))
]

pub found-contains :
    (w : Weight) (t : DocTree)
    → IsOrdered w
    → IsDoc t
    → is_found (Sorted.lookup w (atoms t)) ≡ contains w t
unfolding contains
found-contains w t hw d = ap is_found (sym (find-atoms w t hw d.1))

-- An insertion of a new weight, and a deletion, on the list of the atoms.
pub viewed-insert :
    (a : Atom) (t : DocTree)
    → IsOrdered a.weight
    → IsDoc t
    → contains a.weight t ≡ false
    → viewed (insert a t) ≡ (true, Sorted.insert a (atoms t))
unfolding insert_new
viewed-insert a t ha d new =
    insert-insert_new a t ha d.1
    ∙ ap (λ b. if b then (false, atoms t) else (true, Sorted.insert a (atoms t)))
        (found-contains a.weight t ha d ∙ new)

pub viewed-delete :
    (w : Weight) (t : DocTree)
    → IsOrdered w
    → IsDoc t
    → contains w t ≡ true
    → viewed (delete w t) ≡ (true, Sorted.remove w (atoms t))
unfolding remove_found
viewed-delete w t hw d there =
    delete-remove_found w t hw d.1
    ∙ ap (λ b. if b then (true, Sorted.remove w (atoms t)) else (false, atoms t))
        (found-contains w t hw d ∙ there)

pub viewed-delete_absent :
    (w : Weight) (t : DocTree)
    → IsOrdered w
    → IsDoc t
    → contains w t ≡ false
    → viewed (delete w t) ≡ (false, atoms t)
unfolding remove_found
viewed-delete_absent w t hw d absent =
    delete-remove_found w t hw d.1
    ∙ ap (λ b. if b then (true, Sorted.remove w (atoms t)) else (false, atoms t))
        (found-contains w t hw d ∙ absent)

pub first : {A B : Type 0} {x y : A × B} → x ≡ y → x.0 ≡ y.0
first {A} {B} h = ap (λ (v : A × B). v.0) h

pub second : {A B : Type 0} {x y : A × B} → x ≡ y → x.1 ≡ y.1
second {A} {B} h = ap (λ (v : A × B). v.1) h

pub find-insert_self :
    (a : Atom) (t : DocTree)
    → IsOrdered a.weight
    → IsDoc t
    → contains a.weight t ≡ false
    → find a.weight (insert a t).1 ≡ some (a.unit, a.counter)
find-insert_self a t ha d new =
    find-atoms a.weight (insert a t).1 ha (insert-IsDoc a t ha d).1
    ∙ ap (Sorted.lookup a.weight) (second (viewed-insert a t ha d new))
    ∙ lookup-insert_self a (atoms t) ha (found-contains a.weight t ha d ∙ new)

pub find-insert_other :
    (w : Weight) (a : Atom) (t : DocTree)
    → IsOrdered w
    → IsOrdered a.weight
    → IsDoc t
    → contains a.weight t ≡ false
    → w ≢ a.weight
    → find w (insert a t).1 ≡ find w t
find-insert_other w a t hw ha d new h =
    find-atoms w (insert a t).1 hw (insert-IsDoc a t ha d).1
    ∙ ap (Sorted.lookup w) (second (viewed-insert a t ha d new))
    ∙ lookup-insert_other w a (atoms t) (λ e. h (cmp_eq w a.weight hw ha e))
    ∙ sym (find-atoms w t hw d.1)

pub find-delete_self :
    (w : Weight) (t : DocTree)
    → IsOrdered w
    → IsDoc t
    → contains w t ≡ true
    → find w (delete w t).1 ≡ none
find-delete_self w t hw d there =
    find-atoms w (delete w t).1 hw (delete-IsDoc w t hw d).1
    ∙ ap (Sorted.lookup w) (second (viewed-delete w t hw d there))
    ∙ lookup-remove_self w (atoms t) hw d.1

pub find-delete_other :
    (w v : Weight) (t : DocTree)
    → IsOrdered w
    → IsOrdered v
    → IsDoc t
    → contains v t ≡ true
    → w ≢ v
    → find w (delete v t).1 ≡ find w t
find-delete_other w v t hw hv d there h =
    find-atoms w (delete v t).1 hw (delete-IsDoc v t hv d).1
    ∙ ap (Sorted.lookup w) (second (viewed-delete v t hv d there))
    ∙ lookup-remove_other w v (atoms t) hv d.1 (λ e. h (cmp_eq w v hw hv e))
    ∙ sym (find-atoms w t hw d.1)
