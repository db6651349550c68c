-- ===== src/DocTree/Inorder.antt =====
-- src/rbtree.rs: insertion, as an insertion into the list of atoms.
use mathlib.Core.List.{append_assoc}
use esbt_web.Base.{
  ℕ, ◌+◌, ◌≡◌, refl, ap, sym, ◌∙◌, Bool, true, false, Bool-cases, inl, inr, Option, none, some,
  List, [], ◌∷◌, ◌++◌, All, if◌then◌else◌, arith,
}
use esbt_web.Weight
use esbt_web.Weight.{Weight}
use esbt_web.Weight.Order.{IsOrdered}
use esbt_web.DocTree.{
  Atom, Color, DocTree, Step, is_red, colored, pulled, rotate_left, rotate_right, put_back, plug,
  descend, rotate_under_left, rotate_under_right, step_is_red, insert_fix, insert, contains, find,
  atoms,
}
use esbt_web.DocTree.Search.{find-atoms}
use esbt_web.DocTree.Sorted
use esbt_web.DocTree.Sorted.{
  Before, After, IsSorted, IsSplit, IsSorted-IsSplit, gt_of_lt, place, cmp_same,
}

-- The list of atoms that a list makes in the place of a subtree.
unfoldable pub fill : List Atom → List Step → List Atom
fill xs [] = xs
fill xs (Step.from_left c a r n ∷ path) = fill (xs ++ (a ∷ atoms r)) path
fill xs (Step.from_right c l a n ∷ path) = fill (atoms l ++ (a ∷ xs)) path

pub atoms-plug : (t : DocTree) (path : List Step) → atoms (plug t path) ≡ fill (atoms t) path
unfolding atoms plug put_back fill
atoms-plug t [] = refl
atoms-plug t (Step.from_left c a r n ∷ path) = atoms-plug (DocTree.node c t a r n) path
atoms-plug t (Step.from_right c l a n ∷ path) = atoms-plug (DocTree.node c l a t n) path

pub atoms-colored : (c : Color) (t : DocTree) → atoms (colored c t) ≡ atoms t
unfolding atoms colored
atoms-colored c DocTree.leaf = refl
atoms-colored c (DocTree.node d l a r n) = refl

pub atoms-rotate_left : (t : DocTree) → atoms (rotate_left t) ≡ atoms t
unfolding atoms rotate_left pulled
atoms-rotate_left DocTree.leaf = refl
atoms-rotate_left (DocTree.node c l a DocTree.leaf n) = refl
atoms-rotate_left (DocTree.node c l a (DocTree.node d m b r k) n) =
    append_assoc (atoms l) (a ∷ atoms m) (b ∷ atoms r)

pub atoms-rotate_right : (t : DocTree) → atoms (rotate_right t) ≡ atoms t
unfolding atoms rotate_right pulled
atoms-rotate_right DocTree.leaf = refl
atoms-rotate_right (DocTree.node c DocTree.leaf a r n) = refl
atoms-rotate_right (DocTree.node c (DocTree.node d l b m k) a r n) =
    sym (append_assoc (atoms l) (b ∷ atoms m) (a ∷ atoms r))

-- The atoms of a node, with one child replaced by one of the same atoms.
pub same_left :
    (l m : DocTree) (a : Atom) (r : DocTree)
    → atoms l ≡ atoms m
    → atoms l ++ (a ∷ atoms r) ≡ atoms m ++ (a ∷ atoms r)
same_left l m a r e = ap (λ xs. xs ++ (a ∷ atoms r)) e

pub same_right :
    (l : DocTree) (a : Atom) (r s : DocTree)
    → atoms r ≡ atoms s
    → atoms l ++ (a ∷ atoms r) ≡ atoms l ++ (a ∷ atoms s)
same_right l a r s e = ap (λ xs. atoms l ++ (a ∷ xs)) e

atoms-rotate_under_left :
    (z : DocTree) (p : Step) (d : Color) (b : Atom) (u : DocTree) (m : ℕ)
    → atoms (rotate_under_left z p d b u m) ≡ atoms (put_back z p) ++ (b ∷ atoms u)
unfolding rotate_under_left put_back atoms
atoms-rotate_under_left z (Step.from_left c a r n) d b u m =
    atoms-rotate_right (DocTree.node Color.red (DocTree.node Color.black z a r n) b u m)
atoms-rotate_under_left z (Step.from_right c l a n) d b u m =
    let turned = rotate_left (DocTree.node c l a z n) in
    atoms-rotate_right (DocTree.node Color.red (colored Color.black turned) b u m)
    ∙ same_left (colored Color.black turned) (DocTree.node c l a z n) b u
        (atoms-colored Color.black turned ∙ atoms-rotate_left (DocTree.node c l a z n))

atoms-rotate_under_right :
    (z : DocTree) (p : Step) (d : Color) (u : DocTree) (b : Atom) (m : ℕ)
    → atoms (rotate_under_right z p d u b m) ≡ atoms u ++ (b ∷ atoms (put_back z p))
unfolding rotate_under_right put_back atoms
atoms-rotate_under_right z (Step.from_right c l a n) d u b m =
    atoms-rotate_left (DocTree.node Color.red u b (DocTree.node Color.black l a z n) m)
atoms-rotate_under_right z (Step.from_left c a r n) d u b m =
    let turned = rotate_right (DocTree.node c z a r n) in
    atoms-rotate_left (DocTree.node Color.red u b (colored Color.black turned) m)
    ∙ same_right u b (colored Color.black turned) (DocTree.node c z a r n)
        (atoms-colored Color.black turned ∙ atoms-rotate_right (DocTree.node c z a r n))

-- A subtree of the same atoms, blackened at the root in the end.
pub atoms-settled :
    (t : DocTree) (path : List Step) (xs : List Atom)
    → atoms t ≡ xs
    → atoms (colored Color.black (plug t path)) ≡ fill xs path
atoms-settled t path xs e =
    atoms-colored Color.black (plug t path) ∙ atoms-plug t path ∙ ap (λ l. fill l path) e

-- The fix-up keeps the atoms in their order.
atoms-insert_fix :
    (z : DocTree) (path : List Step) → atoms (insert_fix z path) ≡ fill (atoms z) path
unfolding insert_fix fill atoms put_back plug
atoms-insert_fix z [] = atoms-colored Color.black z
atoms-insert_fix z (p ∷ []) = atoms-settled z (p ∷ []) (atoms z) refl
atoms-insert_fix z (p ∷ Step.from_left d b u m ∷ path) =
    let parent = colored Color.black (put_back z p) in
    let whole : fill (atoms (put_back z p) ++ (b ∷ atoms u)) path
        ≡ fill (atoms z) (p ∷ Step.from_left d b u m ∷ path) =
      sym (atoms-plug (put_back z p) (Step.from_left d b u m ∷ path))
      ∙ atoms-plug z (p ∷ Step.from_left d b u m ∷ path) in
    elim (Bool-cases (step_is_red p)) [
      | inl red ↦ elim (Bool-cases (is_red u)) [
        | inl uncle ↦
            rw (red, uncle, insert_fix)
              (atoms-insert_fix (DocTree.node Color.red parent b (colored Color.black u) m) path
                ∙ ap (λ l. fill l path)
                    (same_left parent (put_back z p) b (colored Color.black u)
                        (atoms-colored Color.black (put_back z p))
                      ∙ same_right (put_back z p) b (colored Color.black u) u
                          (atoms-colored Color.black u))
                ∙ whole)
        | inr other ↦
            rw (red, other, insert_fix)
              (atoms-settled (rotate_under_left z p d b u m) path
                  (atoms (put_back z p) ++ (b ∷ atoms u)) (atoms-rotate_under_left z p d b u m)
                ∙ whole)
      ]
      | inr not_red ↦
          rw (not_red, insert_fix)
            (atoms-settled z (p ∷ Step.from_left d b u m ∷ path) (atoms z) refl)
    ]
atoms-insert_fix z (p ∷ Step.from_right d u b m ∷ path) =
    let parent = colored Color.black (put_back z p) in
    let whole : fill (atoms u ++ (b ∷ atoms (put_back z p))) path
        ≡ fill (atoms z) (p ∷ Step.from_right d u b m ∷ path) =
      sym (atoms-plug (put_back z p) (Step.from_right d u b m ∷ path))
      ∙ atoms-plug z (p ∷ Step.from_right d u b m ∷ path) in
    elim (Bool-cases (step_is_red p)) [
      | inl red ↦ elim (Bool-cases (is_red u)) [
        | inl uncle ↦
            rw (red, uncle, insert_fix)
              (atoms-insert_fix (DocTree.node Color.red (colored Color.black u) b parent m) path
                ∙ ap (λ l. fill l path)
                    (same_left (colored Color.black u) u b parent (atoms-colored Color.black u)
                      ∙ same_right u b parent (put_back z p)
                          (atoms-colored Color.black (put_back z p)))
                ∙ whole)
        | inr other ↦
            rw (red, other, insert_fix)
              (atoms-settled (rotate_under_right z p d u b m) path
                  (atoms u ++ (b ∷ atoms (put_back z p))) (atoms-rotate_under_right z p d u b m)
                ∙ whole)
      ]
      | inr not_red ↦
          rw (not_red, insert_fix)
            (atoms-settled z (p ∷ Step.from_right d u b m ∷ path) (atoms z) refl)
    ]

insert-Until :
    (x : Atom) (l : List Atom) (a : Atom) (r : List Atom)
    → Weight.lt x.weight a.weight ≡ true
    → Sorted.insert x (l ++ (a ∷ r)) ≡ Sorted.insert x l ++ (a ∷ r)
unfolding Sorted.insert
insert-Until x [] a r h = rw (h, Sorted.insert) refl
insert-Until x (b ∷ l) a r h = ground (arith, insert-Until x l a r h)

pub insert-After :
    (x : Atom) (l r : List Atom)
    → IsOrdered x.weight
    → IsSorted l
    → All (After x.weight) l
    → Sorted.insert x (l ++ r) ≡ l ++ Sorted.insert x r
unfolding Sorted.insert
insert-After x [] r hx s h = refl
insert-After x (a ∷ l) r hx s h =
    rw (gt_of_lt a.weight x.weight s.0 hx h.0, Sorted.insert)
      (ap (λ k. a ∷ k) (insert-After x l r hx s.2 h.1))

-- The way down ends where the sorted list takes the atom.
fill-descend :
    (x : Atom) (t : DocTree) (path : List Step)
    → IsOrdered x.weight
    → IsSorted (atoms t)
    → contains x.weight t ≡ false
    → fill (x ∷ []) (descend x.weight t path) ≡ fill (Sorted.insert x (atoms t)) path
unfolding descend fill Sorted.insert atoms contains find
fill-descend x DocTree.leaf path hx s new = refl
fill-descend x (DocTree.node c l a r n) path hx s new =
    let p = IsSorted-IsSplit (atoms l) a (atoms r) s in
    elim (place x.weight hx (atoms l) a (atoms r) p) [
      | inl (lt, all) ↦
          rw (lt, descend)
            (fill-descend x l (Step.from_left c a r (n + 1) ∷ path) hx p.left (ground (arith, lt))
              ∙ ap (λ k. fill k path) (sym (insert-Until x (atoms l) a (atoms r) (rw lt refl))))
      | inr (inl (e, below, above)) ↦ absurd (ground (arith, cmp_same a.weight x.weight p.pivot e))
      | inr (inr (gt, lt, below)) ↦
          rw (gt, descend)
            (fill-descend x r (Step.from_right c l a (n + 1) ∷ path) hx p.right (ground (arith, gt))
              ∙ ap (λ k. fill k path)
                  (ap (λ k. atoms l ++ k) (rw gt refl)
                    ∙ sym (insert-After x (atoms l) (a ∷ atoms r) hx p.left below)))
    ]

-- Whether a search found something.
abbrev pub is_found : Option (ℕ × ℕ) → Bool
is_found none = false
is_found (some found) = true

-- What insertion promises of the list of atoms, with whether they changed it.
unfoldable pub insert_new : Atom → List Atom → Bool × List Atom
insert_new a l =
    if is_found (Sorted.lookup a.weight l) then (false, l) else (true, Sorted.insert a l)

contains-lookup :
    (w : Weight) (t : DocTree)
    → IsOrdered w
    → IsSorted (atoms t)
    → contains w t ≡ is_found (Sorted.lookup w (atoms t))
unfolding contains
contains-lookup w t hw s = ap is_found (find-atoms w t hw s)

-- The flag of an operation and the list of the atoms that it leaves.
abbrev pub viewed : Bool × DocTree → Bool × List Atom
viewed (changed, t) = (changed, atoms t)

-- If the new weight is in lowest terms and the atoms ascend by weights in lowest terms, then
-- `insert` changes the tree exactly where the weight is not there yet, and then puts the atom
-- before the first one of a larger weight.
pub insert-insert_new :
    (a : Atom) (t : DocTree)
    → IsOrdered a.weight
    → IsSorted (atoms t)
    → viewed (insert a t) ≡ insert_new a (atoms t)
unfolding insert insert_new atoms fill
insert-insert_new a t ha s =
    let z = DocTree.node Color.red DocTree.leaf a DocTree.leaf 1 in
    rw (sym (contains-lookup a.weight t ha s)) (elim (Bool-cases (contains a.weight t)) [
      | inl there ↦ rw there refl
      | inr new ↦ rw new (
          ap (λ l. (true, l))
            (atoms-insert_fix z (descend a.weight t []) ∙ fill-descend a t [] ha s new))
    ])
