-- ===== src/DocTree/Removal.antt =====
-- src/rbtree.rs: deletion, as a removal from the list of atoms.
use mathlib.Core.List.{append_assoc, append-nil}
use esbt_web.Base.{
  ℕ, ◌+◌, Ordering, ◌≡◌, refl, ap, sym, ◌∙◌, Bool, true, false, not, ◌&&◌, Bool-cases, inl, inr,
  Option, none, some, List, [], ◌∷◌, ◌++◌, All, if◌then◌else◌,
}
use esbt_web.Weight
use esbt_web.Weight.{Weight}
use esbt_web.Weight.Order.{IsOrdered}
use esbt_web.DocTree.{
  Atom, Color, DocTree, Step, size, is_red, colored, rotate_left, rotate_right, plug, atoms,
}
use esbt_web.DocTree.Delete.{
  pull_upward, right_of, left_of, colored_left, colored_right, Round, round_left, round_right,
  last_round, red_left, red_right, delete_fix, minimum, spliced, delete_idx, delete_at, delete,
}
use esbt_web.DocTree.Inorder.{
  fill, atoms-plug, atoms-colored, atoms-rotate_left, atoms-rotate_right, atoms-settled, same_left,
  same_right, is_found, viewed,
}
use esbt_web.DocTree.Sorted
use esbt_web.DocTree.Sorted.{
  Before, After, IsSorted, IsSplit, IsSorted-IsSplit, gt_of_lt, place, cmp_same, remove-After,
  remove-Before, remove-Until, lookup-After, lookup-Until,
}

fill-pull_upward :
    (xs : List Atom) (k : ℕ) (path : List Step) → fill xs (pull_upward k path) ≡ fill xs path
unfolding fill pull_upward
fill-pull_upward xs k [] = refl
fill-pull_upward xs k (Step.from_left c a r n ∷ path) =
    fill-pull_upward (xs ++ (a ∷ atoms r)) (1 + k + size r) path
fill-pull_upward xs k (Step.from_right c l a n ∷ path) =
    fill-pull_upward (atoms l ++ (a ∷ xs)) (1 + size l + k) path

atoms-colored_left : (t : DocTree) → atoms (colored_left t) ≡ atoms t
unfolding atoms colored_left
atoms-colored_left DocTree.leaf = refl
atoms-colored_left (DocTree.node c l a r n) =
    same_left (colored Color.black l) l a r (atoms-colored Color.black l)

atoms-colored_right : (t : DocTree) → atoms (colored_right t) ≡ atoms t
unfolding atoms colored_right
atoms-colored_right DocTree.leaf = refl
atoms-colored_right (DocTree.node c l a r n) =
    same_right l a (colored Color.black r) r (atoms-colored Color.black r)

-- The subtree that a round has dealt with.
abbrev round_tree : Round → DocTree
round_tree (Round.ascend t) = t
round_tree (Round.settle t) = t

-- A round keeps the atoms in their order.
atoms-round_left :
    (x : DocTree) (c : Color) (a : Atom) (w : DocTree) (n : ℕ)
    → atoms (round_tree (round_left x c a w n)) ≡ atoms x ++ (a ∷ atoms w)
unfolding round_left atoms
atoms-round_left x c a w n =
    elim (Bool-cases (not (is_red (left_of w)) && not (is_red (right_of w)))) [
      | inl both ↦
          rw (both, round_left) (same_right x a (colored Color.red w) w (atoms-colored Color.red w))
      | inr one ↦
          let put = λ (v : DocTree) (e : atoms v ≡ atoms w).
            atoms-rotate_left (DocTree.node Color.black x a (colored c (colored_right v)) n)
            ∙ same_right x a (colored c (colored_right v)) w
                (atoms-colored c (colored_right v) ∙ atoms-colored_right v ∙ e) in
          elim (Bool-cases (is_red (right_of w))) [
            | inl far ↦ rw (one, far, round_left) (put w refl)
            | inr near ↦
                rw (one, near, round_left)
                  (put (rotate_right (colored Color.red (colored_left w))) (
                    atoms-rotate_right (colored Color.red (colored_left w))
                    ∙ atoms-colored Color.red (colored_left w)
                    ∙ atoms-colored_left w))
          ]
    ]

atoms-round_right :
    (x : DocTree) (c : Color) (w : DocTree) (a : Atom) (n : ℕ)
    → atoms (round_tree (round_right x c w a n)) ≡ atoms w ++ (a ∷ atoms x)
unfolding round_right atoms
atoms-round_right x c w a n =
    elim (Bool-cases (not (is_red (left_of w)) && not (is_red (right_of w)))) [
      | inl both ↦
          rw (both, round_right) (same_left (colored Color.red w) w a x (atoms-colored Color.red w))
      | inr one ↦
          let put = λ (v : DocTree) (e : atoms v ≡ atoms w).
            atoms-rotate_right (DocTree.node Color.black (colored c (colored_left v)) a x n)
            ∙ same_left (colored c (colored_left v)) w a x
                (atoms-colored c (colored_left v) ∙ atoms-colored_left v ∙ e) in
          elim (Bool-cases (is_red (left_of w))) [
            | inl far ↦ rw (one, far, round_right) (put w refl)
            | inr near ↦
                rw (one, near, round_right)
                  (put (rotate_left (colored Color.red (colored_right w))) (
                    atoms-rotate_left (colored Color.red (colored_right w))
                    ∙ atoms-colored Color.red (colored_right w)
                    ∙ atoms-colored_right w))
          ]
    ]

atoms-last_round :
    (r : Round) (path : List Step) → atoms (last_round r path) ≡ fill (atoms (round_tree r)) path
unfolding last_round
atoms-last_round (Round.ascend t) path =
    atoms-plug (colored Color.black t) path ∙ ap (λ xs. fill xs path) (atoms-colored Color.black t)
atoms-last_round (Round.settle t) path = atoms-settled t path (atoms t) refl

atoms-red_left :
    (x : DocTree) (a : Atom) (w : DocTree) (n : ℕ) (path : List Step)
    → atoms (red_left x a w n path) ≡ fill (atoms x ++ (a ∷ atoms w)) path
unfolding red_left fill atoms
atoms-red_left x a DocTree.leaf n path =
    atoms-plug (DocTree.node Color.black x a DocTree.leaf n) path
atoms-red_left x a (DocTree.node d wl b wr k) n path =
    let m = 1 + size x + size wl in
    let s = Step.from_left Color.black b wr (1 + m + size wr) in
    let r = round_left x Color.red a wl m in
    atoms-last_round r (s ∷ path)
    ∙ ap (λ xs. fill xs (s ∷ path)) (atoms-round_left x Color.red a wl m)
    ∙ ap (λ xs. fill xs path) (append_assoc (atoms x) (a ∷ atoms wl) (b ∷ atoms wr))

atoms-red_right :
    (x w : DocTree) (a : Atom) (n : ℕ) (path : List Step)
    → atoms (red_right x w a n path) ≡ fill (atoms w ++ (a ∷ atoms x)) path
unfolding red_right fill atoms
atoms-red_right x DocTree.leaf a n path =
    atoms-plug (DocTree.node Color.black DocTree.leaf a x n) path
atoms-red_right x (DocTree.node d wl b wr k) a n path =
    let m = 1 + size wr + size x in
    let s = Step.from_right Color.black wl b (1 + size wl + m) in
    let r = round_right x Color.red wr a m in
    atoms-last_round r (s ∷ path)
    ∙ ap (λ xs. fill xs (s ∷ path)) (atoms-round_right x Color.red wr a m)
    ∙ ap (λ xs. fill xs path) (sym (append_assoc (atoms wl) (b ∷ atoms wr) (a ∷ atoms x)))

-- A round that goes on at the parent, or to the root.
atoms-next :
    (r : Round) (path : List Step) (go : DocTree → DocTree)
    → ((p : DocTree) → atoms (go p) ≡ fill (atoms p) path)
    → atoms (elim r [ Round.ascend p ↦ go p | Round.settle t ↦ colored Color.black (plug t path) ])
      ≡ fill (atoms (round_tree r)) path
atoms-next (Round.ascend p) path go h = h p
atoms-next (Round.settle t) path go h = atoms-settled t path (atoms t) refl

-- The fix-up keeps the atoms in their order.
atoms-delete_fix :
    (x : DocTree) (path : List Step) → atoms (delete_fix x path) ≡ fill (atoms x) path
unfolding delete_fix fill round_left round_right
atoms-delete_fix x [] = atoms-colored Color.black x
atoms-delete_fix x (Step.from_left c a w n ∷ path) = elim (Bool-cases (is_red x)) [
  | inl red ↦
      rw (red, delete_fix) (atoms-last_round (Round.ascend x) (Step.from_left c a w n ∷ path))
  | inr black ↦ elim (Bool-cases (is_red w)) [
    | inl sibling ↦ rw (black, sibling, delete_fix) (atoms-red_left x a w n path)
    | inr other ↦
        rw (black, other, delete_fix)
          (atoms-next (round_left x c a w n) path (λ p. delete_fix p path)
              (λ p. atoms-delete_fix p path)
            ∙ ap (λ xs. fill xs path) (atoms-round_left x c a w n))
  ]
]
atoms-delete_fix x (Step.from_right c w a n ∷ path) = elim (Bool-cases (is_red x)) [
  | inl red ↦
      rw (red, delete_fix) (atoms-last_round (Round.ascend x) (Step.from_right c w a n ∷ path))
  | inr black ↦ elim (Bool-cases (is_red w)) [
    | inl sibling ↦ rw (black, sibling, delete_fix) (atoms-red_right x w a n path)
    | inr other ↦
        rw (black, other, delete_fix)
          (atoms-next (round_right x c w a n) path (λ p. delete_fix p path)
              (λ p. atoms-delete_fix p path)
            ∙ ap (λ xs. fill xs path) (atoms-round_right x c w a n))
  ]
]

atoms-spliced :
    (c : Color) (x : DocTree) (path : List Step) → atoms (spliced c x path) ≡ fill (atoms x) path
unfolding spliced
atoms-spliced Color.red x path =
    atoms-plug x (pull_upward (size x) path) ∙ fill-pull_upward (atoms x) (size x) path
atoms-spliced Color.black x path =
    atoms-delete_fix x (pull_upward (size x) path) ∙ fill-pull_upward (atoms x) (size x) path

fill-append :
    (xs : List Atom) (inner outer : List Step)
    → fill xs (inner ++ outer) ≡ fill (fill xs inner) outer
unfolding fill
fill-append xs [] outer = refl
fill-append xs (Step.from_left c a r n ∷ inner) outer =
    fill-append (xs ++ (a ∷ atoms r)) inner outer
fill-append xs (Step.from_right c l a n ∷ inner) outer =
    fill-append (atoms l ++ (a ∷ xs)) inner outer

-- The leftmost atom, and what the tree is without it.
minimum-atoms :
    (c : Color) (l : DocTree) (a : Atom) (r : DocTree) (n : ℕ)
    → (minimum c l a r n).atom ∷ fill (atoms (minimum c l a r n).right) (minimum c l a r n).path
      ≡ atoms l ++ (a ∷ atoms r)
unfolding minimum fill atoms
minimum-atoms c DocTree.leaf a r n = refl
minimum-atoms c (DocTree.node d l b m k) a r n =
    let y = minimum d l b m k in
    ap (λ xs. y.atom ∷ xs) (fill-append (atoms y.right) y.path (Step.from_left c a r n ∷ []))
    ∙ ap (λ xs. xs ++ (a ∷ atoms r)) (minimum-atoms d l b m k)

-- What goes into the place of a removed node.
atoms-delete_idx :
    (c : Color) (l : DocTree) (a : Atom) (r : DocTree) (n : ℕ) (path : List Step)
    → atoms (delete_idx c l a r n path) ≡ fill (atoms l ++ atoms r) path
unfolding delete_idx fill atoms
atoms-delete_idx c DocTree.leaf a r n path = atoms-spliced c r path
atoms-delete_idx c (DocTree.node d l b m k) a DocTree.leaf n path =
    atoms-spliced c (DocTree.node d l b m k) path
    ∙ ap (λ xs. fill xs path) (sym (append-nil (atoms l ++ (b ∷ atoms m))))
atoms-delete_idx c (DocTree.node d l b m k) a (DocTree.node e u v t j) n path =
    let y = minimum e u v t j in
    let left = DocTree.node d l b m k in
    atoms-spliced y.color y.right (y.path ++ (Step.from_right c left y.atom n ∷ path))
    ∙ fill-append (atoms y.right) y.path (Step.from_right c left y.atom n ∷ path)
    ∙ ap (λ xs. fill (atoms left ++ xs) path) (minimum-atoms e u v t j)

-- Where the weight is in the tree, the tree after has the other atoms, and otherwise there is none.
abbrev Deletes : Weight → DocTree → List Step → Option DocTree → Type 0
Deletes w t path none = is_found (Sorted.lookup w (atoms t)) ≡ false
Deletes w t path (some rest) =
    (is_found (Sorted.lookup w (atoms t)) ≡ true)
    × (atoms rest ≡ fill (Sorted.remove w (atoms t)) path)

deleted_left :
    (w : Weight) (c : Color) (l : DocTree) (a : Atom) (r : DocTree) (n : ℕ) (path : List Step)
    → IsOrdered w
    → Before w a
    → All (Before w) (atoms r)
    → (o : Option DocTree) → Deletes w l (Step.from_left c a r n ∷ path) o
    → Deletes w (DocTree.node c l a r n) path o
unfolding atoms fill
deleted_left w c l a r n path hw h all none k = rw (lookup-Until w hw (atoms l) a (atoms r) h all) k
deleted_left w c l a r n path hw h all (some rest) k =
    rw (lookup-Until w hw (atoms l) a (atoms r) h all)
      (k.0, rw (remove-Until w hw (atoms l) a (atoms r) h all) k.1)

deleted_right :
    (w : Weight) (c : Color) (l : DocTree) (a : Atom) (r : DocTree) (n : ℕ) (path : List Step)
    → IsOrdered w
    → Weight.cmp w a.weight ≡ Ordering.gt
    → IsSorted (atoms l)
    → All (After w) (atoms l)
    → (o : Option DocTree) → Deletes w r (Step.from_right c l a n ∷ path) o
    → Deletes w (DocTree.node c l a r n) path o
unfolding atoms fill Sorted.lookup Sorted.remove
deleted_right w c l a r n path hw h s below none k =
    rw (lookup-After w hw (atoms l) (a ∷ atoms r) s below, h, Sorted.lookup) k
deleted_right w c l a r n path hw h s below (some rest) k =
    rw (lookup-After w hw (atoms l) (a ∷ atoms r) s below, h, Sorted.lookup)
      (k.0, rw (remove-After w hw (atoms l) (a ∷ atoms r) s below, h, Sorted.remove) k.1)

delete_at-Deletes :
    (w : Weight) (t : DocTree) (path : List Step)
    → IsOrdered w
    → IsSorted (atoms t)
    → Deletes w t path (delete_at w t path)
unfolding delete_at atoms Sorted.lookup Sorted.remove
delete_at-Deletes w DocTree.leaf path hw s = refl
delete_at-Deletes w (DocTree.node c l a r n) path hw s =
    let p = IsSorted-IsSplit (atoms l) a (atoms r) s in
    elim (place w hw (atoms l) a (atoms r) p) [
      | inl (lt, all) ↦
          let s' = Step.from_left c a r n in
          rw (lt, delete_at)
            (deleted_left w c l a r n path hw lt all (delete_at w l (s' ∷ path))
              (delete_at-Deletes w l (s' ∷ path) hw p.left))
      | inr (inl (e, below, above)) ↦
          let same = cmp_same a.weight w p.pivot e in
          rw (same, delete_at)
            (
              rw (lookup-After w hw (atoms l) (a ∷ atoms r) p.left below, same, Sorted.lookup) refl,
              rw (remove-After w hw (atoms l) (a ∷ atoms r) p.left below, same, Sorted.remove)
                  (atoms-delete_idx c l a r n path),
            )
      | inr (inr (gt, lt, below)) ↦
          let s' = Step.from_right c l a n in
          rw (gt, delete_at)
            (deleted_right w c l a r n path hw gt p.left below (delete_at w r (s' ∷ path))
              (delete_at-Deletes w r (s' ∷ path) hw p.right))
    ]

-- What deletion promises of the list of atoms, with whether it changed it.
unfoldable pub remove_found : Weight → List Atom → Bool × List Atom
remove_found w l = if is_found (Sorted.lookup w l) then (true, Sorted.remove w l) else (false, l)

viewed-Deletes :
    (w : Weight) (t : DocTree) (o : Option DocTree)
    → Deletes w t [] o
    → viewed (elim o [ none ↦ (false, t) | some rest ↦ (true, rest) ]) ≡ remove_found w (atoms t)
unfolding remove_found fill
viewed-Deletes w t none h = rw h refl
viewed-Deletes w t (some rest) h = rw h.0 (ap (λ l. (true, l)) h.1)

-- If the weight is in lowest terms and the atoms ascend by weights in lowest terms, then `delete`
-- changes the tree exactly where the weight is there, and then takes its atom out of the list of
-- the atoms.
pub delete-remove_found :
    (w : Weight) (t : DocTree)
    → IsOrdered w
    → IsSorted (atoms t)
    → viewed (delete w t) ≡ remove_found w (atoms t)
unfolding delete
delete-remove_found w t hw s = viewed-Deletes w t (delete_at w t []) (delete_at-Deletes w t [] hw s)
