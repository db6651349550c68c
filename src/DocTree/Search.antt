-- ===== src/DocTree/Search.antt =====
-- src/rbtree.rs: the searches find what is in the list of atoms.
use esbt_web.Base.{
  ℕ, zero, suc, ◌+◌, ◌-◌, ◌≡◌, refl, ap, sym, ◌∙◌, Option, none, some, List, [], ◌∷◌, ◌++◌, length,
  get_elem?, length-append, ltb, ◌==◌, if◌then◌else◌, inl, inr, arith,
}
use esbt_web.Weight.{Weight}
use esbt_web.Weight.Order.{IsOrdered}
use esbt_web.DocTree.{
  Atom, DocTree, size, find, get_at, index_of, lower_bound, lower_bound_from, atoms,
}
use esbt_web.DocTree.Sorted
use esbt_web.DocTree.Sorted.{
  Before, After, IsSorted, IsSplit, IsSorted-IsSplit, gt_of_lt, lt_of_gt, lookup-After,
  lookup-Until, rank_all, rank-After, rank-Until, rank-Before, place, cmp_same,
}

-- Every node stores the number of the nodes below it, itself included.
abbrev pub IsSized : DocTree → Type 0
IsSized DocTree.leaf = Unit
IsSized (DocTree.node c l a r n) = (n ≡ 1 + size l + size r) × IsSized l × IsSized r

pub size-atoms : (t : DocTree) → IsSized t → size t ≡ length (atoms t)
unfolding size atoms
size-atoms DocTree.leaf h = refl
size-atoms (DocTree.node c l a r n) h =
    omega (arith, h, size-atoms l h.1, size-atoms r h.2, length-append (atoms l) (a ∷ atoms r))

pub get_elem?-append :
    (l : List Atom) (a : Atom) (r : List Atom) (i : ℕ)
    → get_elem? (l ++ (a ∷ r)) i ≡ (
        if ltb i (length l)
        then get_elem? l i
        else if i == length l
        then some a
        else get_elem? r (i - (length l + 1)))
get_elem?-append [] a r zero = refl
get_elem?-append [] a r (suc i) = ground arith
get_elem?-append (x ∷ l) a r zero = ground arith
get_elem?-append (x ∷ l) a r (suc i) = ground (arith, get_elem?-append l a r i)

-- If every node stores its size, then `get_at` is the atom at the index in the order of the atoms.
pub get_at-atoms : (i : ℕ) (t : DocTree) → IsSized t → get_at i t ≡ get_elem? (atoms t) i
unfolding get_at atoms
get_at-atoms i DocTree.leaf h = refl
get_at-atoms i (DocTree.node c l a r n) h =
    rw (get_elem?-append (atoms l) a (atoms r) i) (
      ground (arith, size-atoms l h.1, get_at-atoms i l h.1, get_at-atoms (i - (size l + 1)) r h.2))

-- `find` gives the unit and the counter that the sorted list of the atoms has under the weight, and
-- nothing where the list does not have it.
pub find-atoms :
    (w : Weight) (t : DocTree)
    → IsOrdered w
    → IsSorted (atoms t)
    → find w t ≡ Sorted.lookup w (atoms t)
unfolding find atoms Sorted.lookup
find-atoms w DocTree.leaf hw s = refl
find-atoms w (DocTree.node c l a r n) hw s =
    let p = IsSorted-IsSplit (atoms l) a (atoms r) s in
    elim (place w hw (atoms l) a (atoms r) p) [
      | inl (lt, all) ↦
          rw (lt, find)
            (find-atoms w l hw p.left ∙ sym (lookup-Until w hw (atoms l) a (atoms r) lt all))
      | inr (inl (e, below, above)) ↦
          rw
            (
              lookup-After w hw (atoms l) (a ∷ atoms r) p.left below,
              cmp_same a.weight w p.pivot e,
              Sorted.lookup,
              find,
            )
            refl
      | inr (inr (gt, lt, below)) ↦
          rw (lookup-After w hw (atoms l) (a ∷ atoms r) p.left below, gt, Sorted.lookup, find)
            (find-atoms w r hw p.right)
    ]

-- `lower_bound`, between the count of what lies to the left and the result so far.
lower_bound_from-rank :
    (w : Weight) (before result : ℕ) (t : DocTree)
    → IsOrdered w
    → IsSized t
    → IsSorted (atoms t)
    → result ≡ before + size t
    → lower_bound_from w before result t ≡ before + Sorted.rank w (atoms t)
unfolding lower_bound_from atoms Sorted.rank size
lower_bound_from-rank w before result DocTree.leaf hw z s e = ground arith
lower_bound_from-rank w before result (DocTree.node c l a r n) hw z s e =
    let p = IsSorted-IsSplit (atoms l) a (atoms r) s in
    let len = size-atoms l z.1 in
    elim (place w hw (atoms l) a (atoms r) p) [
      | inl (lt, all) ↦
          rw (rank-Until w hw (atoms l) a (atoms r) p.pivot lt, gt_of_lt w a.weight hw p.pivot lt)
            (lower_bound_from-rank w before (before + size l) l hw z.1 p.left refl)
      | inr (inl (e, below, above)) ↦
          let same = cmp_same a.weight w p.pivot e in
          rw
            (
              rank-After w hw (atoms l) (a ∷ atoms r) below,
              cmp_same w a.weight hw (sym e),
              Sorted.rank,
            )
            (omega (
              arith,
              size-atoms l z.1,
              rank_all w hw (atoms l) below,
              lower_bound_from-rank w before (before + size l) l hw z.1 p.left refl,
            ))
      | inr (inr (gt, lt, below)) ↦
          rw (rank-After w hw (atoms l) (a ∷ atoms r) below, lt, Sorted.rank)
            (omega (
              arith,
              lower_bound_from-rank w (before + size l + 1) result r hw z.2 p.right
                  (omega (arith, z, e)),
            ))
    ]

-- If the weight is in lowest terms, the atoms ascend by weights in lowest terms and every node
-- stores its size, then `lower_bound` is the number of atoms before the weight, which need not be
-- in the tree.
pub lower_bound-atoms :
    (w : Weight) (t : DocTree)
    → IsOrdered w
    → IsSized t
    → IsSorted (atoms t)
    → lower_bound w t ≡ Sorted.rank w (atoms t)
unfolding lower_bound
lower_bound-atoms w t hw z s =
    lower_bound_from-rank w 0 (size t) t hw z s (omega arith) ∙ omega arith

-- The rank, where the search found something.
abbrev pub ranked : Option (ℕ × ℕ) → ℕ → Option ℕ
ranked none k = none
ranked (some found) k = some k

index_of-from :
    (w : Weight) (before : ℕ) (t : DocTree)
    → IsOrdered w
    → IsSized t
    → IsSorted (atoms t)
    → index_of w before t ≡ ranked (find w t) (before + Sorted.rank w (atoms t))
unfolding index_of find atoms Sorted.rank
index_of-from w before DocTree.leaf hw z s = refl
index_of-from w before (DocTree.node c l a r n) hw z s =
    let p = IsSorted-IsSplit (atoms l) a (atoms r) s in
    let len = size-atoms l z.1 in
    elim (place w hw (atoms l) a (atoms r) p) [
      | inl (lt, all) ↦
          rw (rank-Until w hw (atoms l) a (atoms r) p.pivot lt, lt, index_of, find)
            (index_of-from w before l hw z.1 p.left)
      | inr (inl (e, below, above)) ↦
          let k : before + size l ≡ before + Sorted.rank w (atoms l ++ (a ∷ atoms r)) =
            rw
              (
                rank-After w hw (atoms l) (a ∷ atoms r) below,
                cmp_same w a.weight hw (sym e),
                Sorted.rank,
              )
              (omega (arith, len)) in
          rw (cmp_same a.weight w p.pivot e, index_of, find) (ap some k)
      | inr (inr (gt, lt, below)) ↦
          let k : before + size l + 1 + Sorted.rank w (atoms r)
              ≡ before + Sorted.rank w (atoms l ++ (a ∷ atoms r)) =
            rw (rank-After w hw (atoms l) (a ∷ atoms r) below, lt, Sorted.rank)
              (omega (arith, len)) in
          rw (gt, index_of, find)
            (index_of-from w (before + size l + 1) r hw z.2 p.right ∙ ap (ranked (find w r)) k)
    ]

-- If the weight is in lowest terms, the atoms ascend by weights in lowest terms and every node
-- stores its size, then `index_of` is the number of atoms before the weight where the tree has the
-- weight, and nothing where it does not.
pub index_of-atoms :
    (w : Weight) (t : DocTree)
    → IsOrdered w
    → IsSized t
    → IsSorted (atoms t)
    → index_of w 0 t ≡ ranked (Sorted.lookup w (atoms t)) (Sorted.rank w (atoms t))
index_of-atoms w t hw z s =
    index_of-from w 0 t hw z s
    ∙ ap (λ o. ranked o (0 + Sorted.rank w (atoms t))) (find-atoms w t hw s)
    ∙ ap (ranked (Sorted.lookup w (atoms t))) (omega arith)
