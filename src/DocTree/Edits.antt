-- ===== src/DocTree/Edits.antt =====
-- src/rbtree.rs: the text of a document before and after an insertion or a deletion.
use esbt_web.Base.{
  ℕ, suc, ◌+◌, ◌<◌, ◌≤◌, ◌≡◌, refl, ap, ap₂, sym, subst, ◌∙◌, true, false, inl, inr, Option, none,
  some, List, [], ◌∷◌, ◌++◌, length, take, drop, arith,
}
use esbt_web.Base.Order.{Ordering-cases}
use esbt_web.Weight
use esbt_web.Weight.{Weight}
use esbt_web.Weight.Order.{IsOrdered, cmp_eq}
use esbt_web.DocTree.{Atom, DocTree, contains, index_of, insert, atoms, units}
use esbt_web.DocTree.Delete.{delete}
use esbt_web.DocTree.Inorder.{is_found}
use esbt_web.DocTree.Invariant.{
  IsDoc, insert-IsDoc, found-contains, viewed-insert, viewed-delete, second, lookup-insert_self,
}
use esbt_web.DocTree.Search.{index_of-atoms, ranked}
use esbt_web.DocTree.Sorted
use esbt_web.DocTree.Sorted.{IsSorted, gt_of_lt, lt_of_gt, cmp_same, lookup-Before, Before-All}
use esbt_web.Update.VisibleEdit.{VisibleEdit}
use esbt_web.Update.VisibleEdit.Replay.{edited}

-- The units of the atoms.
unfoldable pub units_of : List Atom → List ℕ
units_of [] = []
units_of (a ∷ l) = a.unit ∷ units_of l

units_of-append : (l r : List Atom) → units_of (l ++ r) ≡ units_of l ++ units_of r
unfolding units_of
units_of-append [] r = refl
units_of-append (a ∷ l) r = ap (λ us. a.unit ∷ us) (units_of-append l r)

-- The text is that of the atoms in their order.
pub units-atoms : (t : DocTree) → units t ≡ units_of (atoms t)
unfolding units atoms units_of
units-atoms DocTree.leaf = refl
units-atoms (DocTree.node c l a r n) =
    ap₂ (λ us vs. us ++ (a.unit ∷ vs)) (units-atoms l) (units-atoms r)
    ∙ sym (units_of-append (atoms l) (a ∷ atoms r))

units_of-insert :
    (a : Atom) (l : List Atom)
    → IsOrdered a.weight
    → IsSorted l
    → is_found (Sorted.lookup a.weight l) ≡ false
    → units_of (Sorted.insert a l)
      ≡ take (Sorted.rank a.weight l) (units_of l)
        ++ (a.unit ∷ drop (Sorted.rank a.weight l) (units_of l))
unfolding units_of Sorted.insert Sorted.rank Sorted.lookup
units_of-insert a [] ha s new = refl
units_of-insert a (b ∷ l) ha s new = elim (Ordering-cases (Weight.cmp a.weight b.weight)) [
  | inl lt ↦ rw (lt, gt_of_lt a.weight b.weight ha s.0 lt, Sorted.insert, Sorted.rank) refl
  | inr (inl eq) ↦ absurd (ground (arith, eq))
  | inr (inr gt) ↦
      rw (gt, lt_of_gt a.weight b.weight ha s.0 gt, Sorted.insert, Sorted.rank)
        (ap (λ us. b.unit ∷ us) (units_of-insert a l ha s.2 (ground (arith, gt))))
]

rank-insert :
    (a : Atom) (l : List Atom)
    → IsOrdered a.weight
    → IsSorted l
    → is_found (Sorted.lookup a.weight l) ≡ false
    → Sorted.rank a.weight (Sorted.insert a l) ≡ Sorted.rank a.weight l
unfolding Sorted.insert Sorted.rank Sorted.lookup
rank-insert a [] ha s new = rw (cmp_same a.weight a.weight ha refl, Sorted.rank) refl
rank-insert a (b ∷ l) ha s new = elim (Ordering-cases (Weight.cmp a.weight b.weight)) [
  | inl lt ↦
      rw (lt, gt_of_lt a.weight b.weight ha s.0 lt, Sorted.insert, Sorted.rank)
        (rw (cmp_same a.weight a.weight ha refl) refl)
  | inr (inl eq) ↦ absurd (ground (arith, eq))
  | inr (inr gt) ↦
      rw (gt, lt_of_gt a.weight b.weight ha s.0 gt, Sorted.insert, Sorted.rank)
        (ap suc (rank-insert a l ha s.2 (ground (arith, gt))))
]

units_of-remove :
    (w : Weight) (l : List Atom)
    → IsOrdered w
    → IsSorted l
    → is_found (Sorted.lookup w l) ≡ true
    → (units_of (Sorted.remove w l)
        ≡ take (Sorted.rank w l) (units_of l) ++ drop (suc (Sorted.rank w l)) (units_of l))
      × (Sorted.rank w l < length (units_of l))
unfolding units_of Sorted.remove Sorted.rank Sorted.lookup
units_of-remove w [] hw s there = absurd (ground arith)
units_of-remove w (a ∷ l) hw s there = elim (Ordering-cases (Weight.cmp w a.weight)) [
  | inl lt ↦
      let none_left = lookup-Before w hw l (Before-All w a l hw s.0 s.2 lt s.1) in
      absurd (ground (arith, lt, none_left))
  | inr (inl eq) ↦
      let e = cmp_eq w a.weight hw s.0 eq in
      rw (eq, cmp_same w a.weight hw (sym e), Sorted.remove, Sorted.rank) (refl, omega arith)
  | inr (inr gt) ↦
      let rest = units_of-remove w l hw s.2 (ground (arith, gt)) in
      rw (gt, lt_of_gt w a.weight hw s.0 gt, Sorted.remove, Sorted.rank)
        (ap (λ us. a.unit ∷ us) rest.0, omega (arith, rest))
]

ranked_found : (o : Option (ℕ × ℕ)) (k : ℕ) → is_found o ≡ true → ranked o k ≡ some k
ranked_found none k h = absurd (ground arith)
ranked_found (some found) k h = refl

-- What an edit of one point comes to: the new text, and the edit within the old one.
abbrev pub Makes : VisibleEdit → List ℕ → List ℕ → Type 0
Makes e old new = (new ≡ edited e old) × (e.from ≤ e.to) × (e.to ≤ length old)

length-units_of : (l : List Atom) → length (units_of l) ≡ length l
unfolding units_of
length-units_of [] = refl
length-units_of (a ∷ l) = ap suc (length-units_of l)

rank-le : (w : Weight) (l : List Atom) → Sorted.rank w l ≤ length (units_of l)
unfolding Sorted.rank units_of
rank-le w [] = omega arith
rank-le w (a ∷ l) = ground (arith, rank-le w l)

-- An insertion of a new weight is an insertion of its unit at the index that the weight then has.
pub insert-Makes :
    (a : Atom) (t : DocTree)
    → IsOrdered a.weight
    → IsDoc t
    → contains a.weight t ≡ false
    → (k : ℕ) × (index_of a.weight 0 (insert a t).1 ≡ some k)
      × Makes (record { from = k; to = k; inserted = a.unit ∷ [] }) (units t) (units (insert a t).1)
unfolding edited
insert-Makes a t ha d new =
    let after = insert-IsDoc a t ha d in
    let view = second (viewed-insert a t ha d new) in
    let absent = found-contains a.weight t ha d ∙ new in
    let k = Sorted.rank a.weight (atoms t) in
    let rank : Sorted.rank a.weight (atoms (insert a t).1) ≡ k =
      ap (Sorted.rank a.weight) view ∙ rank-insert a (atoms t) ha d.1 absent in
    (
      k,
      (index_of-atoms a.weight (insert a t).1 ha after.0 after.1
          ∙ ap₂ ranked (ap (Sorted.lookup a.weight) view ∙ lookup-insert_self a (atoms t) ha absent)
              rank),
      (
        units-atoms (insert a t).1
            ∙ ap units_of view
            ∙ units_of-insert a (atoms t) ha d.1 absent
            ∙ ap (λ us. take k us ++ (a.unit ∷ drop k us)) (sym (units-atoms t)),
        omega arith,
        subst (λ us. k ≤ length us) (sym (units-atoms t)) (rank-le a.weight (atoms t)),
      ),
    )

-- A deletion of a weight takes out the unit at the index that the weight has.
pub delete-Makes :
    (w : Weight) (t : DocTree)
    → IsOrdered w
    → IsDoc t
    → contains w t ≡ true
    → (k : ℕ) × (index_of w 0 t ≡ some k)
      × Makes (record { from = k; to = k + 1; inserted = [] }) (units t) (units (delete w t).1)
unfolding edited
delete-Makes w t hw d there =
    let found = found-contains w t hw d ∙ there in
    let removed = units_of-remove w (atoms t) hw d.1 found in
    let k = Sorted.rank w (atoms t) in
    let one : suc k ≡ k + 1 = omega arith in
    (
      k,
      (index_of-atoms w t hw d.0 d.1 ∙ ranked_found (Sorted.lookup w (atoms t)) k found),
      (
        units-atoms (delete w t).1
            ∙ ap units_of (second (viewed-delete w t hw d there))
            ∙ removed.0
            ∙ ap₂ (λ n us. take k us ++ drop n us) one (sym (units-atoms t)),
        omega arith,
        subst (λ us. k + 1 ≤ length us) (sym (units-atoms t)) (omega (arith, removed)),
      ),
    )
