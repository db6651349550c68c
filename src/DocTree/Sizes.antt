-- ===== src/DocTree/Sizes.antt =====
-- src/rbtree.rs: insertion and deletion keep the stored sizes right.
pub mod Removal
use esbt_web.Base.{
  ℕ, ◌+◌, Ordering, ◌≡◌, refl, ap, sym, subst, ◌∙◌, Bool, true, false, not, ◌&&◌, Bool-cases, inl,
  inr, Option, Option-cases, none, some, List, [], ◌∷◌, ◌++◌, if◌then◌else◌, arith,
}
use esbt_web.Base.Order.{Ordering-cases}
use esbt_web.Weight
use esbt_web.Weight.{Weight}
use esbt_web.DocTree.{
  Atom, Color, DocTree, Step, size, is_red, is_red_color, colored, pulled, rotate_left,
  rotate_right, put_back, plug, descend, rotate_under_left, rotate_under_right, step_is_red,
  insert_fix, insert, contains,
}
use esbt_web.DocTree.Delete.{
  pull_upward, right_of, left_of, colored_left, colored_right, Round, round_left, round_right,
  last_round, red_left, red_right, delete_fix, Leftmost, minimum, spliced, delete_idx, delete_at,
  delete,
}
use esbt_web.DocTree.Search.{IsSized}

-- The sizes on the way up are right over a subtree of size `k`, and those of the subtrees beside it.
abbrev pub IsSizedPath : ℕ → List Step → Type 0
IsSizedPath k [] = Unit
IsSizedPath k (Step.from_left c a r n ∷ path) =
    (n ≡ 1 + k + size r) × IsSized r × IsSizedPath n path
IsSizedPath k (Step.from_right c l a n ∷ path) =
    (n ≡ 1 + size l + k) × IsSized l × IsSizedPath n path

-- A tree with the right sizes, and `k` nodes.
abbrev pub Sized : ℕ → DocTree → Type 0
Sized k t = (size t ≡ k) × IsSized t

pub plug-IsSized :
    (k : ℕ) (t : DocTree) (path : List Step)
    → Sized k t
    → IsSizedPath k path
    → IsSized (plug t path)
unfolding plug put_back size
plug-IsSized k t [] h p = h.1
plug-IsSized k t (Step.from_left c a r n ∷ path) h p =
    plug-IsSized n (DocTree.node c t a r n) path (refl, (omega (arith, p, h), h.1, p.1)) p.2
plug-IsSized k t (Step.from_right c l a n ∷ path) h p =
    plug-IsSized n (DocTree.node c l a t n) path (refl, (omega (arith, p, h), p.1, h.1)) p.2

pub colored-Sized : (k : ℕ) (c : Color) (t : DocTree) → Sized k t → Sized k (colored c t)
unfolding colored size
colored-Sized k c DocTree.leaf h = h
colored-Sized k c (DocTree.node d l a r n) h = h

pub rotate_left-Sized : (k : ℕ) (t : DocTree) → Sized k t → Sized k (rotate_left t)
unfolding rotate_left pulled size
rotate_left-Sized k DocTree.leaf h = h
rotate_left-Sized k (DocTree.node c l a DocTree.leaf n) h = h
rotate_left-Sized k (DocTree.node c l a (DocTree.node d m b r j) n) h =
    (omega (arith, h), (refl, (refl, h.1.1, h.1.2.1), h.1.2.2))

pub rotate_right-Sized : (k : ℕ) (t : DocTree) → Sized k t → Sized k (rotate_right t)
unfolding rotate_right pulled size
rotate_right-Sized k DocTree.leaf h = h
rotate_right-Sized k (DocTree.node c DocTree.leaf a r n) h = h
rotate_right-Sized k (DocTree.node c (DocTree.node d l b m j) a r n) h =
    (omega (arith, h), (refl, h.1.1.1, (refl, h.1.1.2, h.1.2)))

-- A node with one child replaced by one of the same size.
pub with_left :
    (k : ℕ) (c d : Color) (l m : DocTree) (a : Atom) (r : DocTree) (n : ℕ)
    → Sized k (DocTree.node c l a r n)
    → Sized (size l) m
    → Sized k (DocTree.node d m a r n)
unfolding size
with_left k c d l m a r n h e = (h.0, (omega (arith, h, e), e.1, h.1.2))

pub with_right :
    (k : ℕ) (c d : Color) (l : DocTree) (a : Atom) (r s : DocTree) (n : ℕ)
    → Sized k (DocTree.node c l a r n)
    → Sized (size r) s
    → Sized k (DocTree.node d l a s n)
unfolding size
with_right k c d l a r s n h e = (h.0, (omega (arith, h, e), h.1.1, e.1))

rotate_under_left-Sized :
    (k : ℕ) (z : DocTree) (p : Step) (d : Color) (b : Atom) (u : DocTree) (m : ℕ)
    → Sized k (DocTree.node d (put_back z p) b u m)
    → Sized k (rotate_under_left z p d b u m)
unfolding rotate_under_left put_back size
rotate_under_left-Sized k z (Step.from_left c a r n) d b u m h =
    rotate_right-Sized k (DocTree.node Color.red (DocTree.node Color.black z a r n) b u m) h
rotate_under_left-Sized k z (Step.from_right c l a n) d b u m h =
    let p = DocTree.node c l a z n in
    let t = colored Color.black (rotate_left p) in
    rotate_right-Sized k (DocTree.node Color.red t b u m) (
      with_left k d Color.red p t b u m h
        (colored-Sized n Color.black (rotate_left p) (rotate_left-Sized n p (refl, h.1.1))))

rotate_under_right-Sized :
    (k : ℕ) (z : DocTree) (p : Step) (d : Color) (u : DocTree) (b : Atom) (m : ℕ)
    → Sized k (DocTree.node d u b (put_back z p) m)
    → Sized k (rotate_under_right z p d u b m)
unfolding rotate_under_right put_back size
rotate_under_right-Sized k z (Step.from_right c l a n) d u b m h =
    rotate_left-Sized k (DocTree.node Color.red u b (DocTree.node Color.black l a z n) m) h
rotate_under_right-Sized k z (Step.from_left c a r n) d u b m h =
    let p = DocTree.node c z a r n in
    let t = colored Color.black (rotate_right p) in
    rotate_left-Sized k (DocTree.node Color.red u b t m) (
      with_right k d Color.red u b p t m h
        (colored-Sized n Color.black (rotate_right p) (rotate_right-Sized n p (refl, h.1.2))))

pub settled-IsSized :
    (k : ℕ) (t : DocTree) (path : List Step)
    → Sized k t
    → IsSizedPath k path
    → IsSized (colored Color.black (plug t path))
settled-IsSized k t path h p =
    (colored-Sized (size (plug t path)) Color.black (plug t path)
      (refl, plug-IsSized k t path h p)).1

-- The parent, put back.
pub put_back-Sized :
    (k : ℕ) (t : DocTree) (s : Step) (path : List Step)
    → Sized k t
    → IsSizedPath k (s ∷ path)
    → Sized (size (put_back t s)) (put_back t s) × IsSizedPath (size (put_back t s)) path
unfolding put_back size
put_back-Sized k t (Step.from_left c a r n) path h p =
    ((refl, (omega (arith, p, h), h.1, p.1)), p.2)
put_back-Sized k t (Step.from_right c l a n) path h p =
    ((refl, (omega (arith, p, h), p.1, h.1)), p.2)

-- The fix-up of an insertion keeps the sizes right.
insert_fix-IsSized :
    (k : ℕ) (z : DocTree) (path : List Step)
    → Sized k z
    → IsSizedPath k path
    → IsSized (insert_fix z path)
unfolding insert_fix plug
insert_fix-IsSized k z [] h p = (colored-Sized k Color.black z h).1
insert_fix-IsSized k z (s ∷ []) h p = settled-IsSized k z (s ∷ []) h p
insert_fix-IsSized k z (s ∷ Step.from_left d b u m ∷ path) h p =
    let parent = put_back-Sized k z s (Step.from_left d b u m ∷ path) h p in
    let n = size (put_back z s) in
    let grand = put_back-Sized n (put_back z s) (Step.from_left d b u m) path parent.0 parent.1 in
    elim (Bool-cases (step_is_red s)) [
      | inl red ↦ elim (Bool-cases (is_red u)) [
        | inl uncle ↦
            let parent' = colored Color.black (put_back z s) in
            let uncle' = colored Color.black u in
            let left =
              with_left m d d (put_back z s) parent' b u m grand.0
                (colored-Sized n Color.black (put_back z s) (refl, grand.0.1.1)) in
            rw (red, uncle, insert_fix)
              (insert_fix-IsSized m (DocTree.node Color.red parent' b uncle' m) path
                (with_right m d Color.red parent' b u uncle' m left
                  (colored-Sized (size u) Color.black u (refl, grand.0.1.2)))
                grand.1)
        | inr other ↦
            rw (red, other, insert_fix)
              (settled-IsSized m (rotate_under_left z s d b u m) path
                (rotate_under_left-Sized m z s d b u m grand.0) grand.1)
      ]
      | inr not_red ↦
          rw (not_red, insert_fix) (settled-IsSized k z (s ∷ Step.from_left d b u m ∷ path) h p)
    ]
insert_fix-IsSized k z (s ∷ Step.from_right d u b m ∷ path) h p =
    let parent = put_back-Sized k z s (Step.from_right d u b m ∷ path) h p in
    let n = size (put_back z s) in
    let grand = put_back-Sized n (put_back z s) (Step.from_right d u b m) path parent.0 parent.1 in
    elim (Bool-cases (step_is_red s)) [
      | inl red ↦ elim (Bool-cases (is_red u)) [
        | inl uncle ↦
            let parent' = colored Color.black (put_back z s) in
            let uncle' = colored Color.black u in
            let left =
              with_left m d d u uncle' b (put_back z s) m grand.0
                (colored-Sized (size u) Color.black u (refl, grand.0.1.1)) in
            rw (red, uncle, insert_fix)
              (insert_fix-IsSized m (DocTree.node Color.red uncle' b parent' m) path
                (with_right m d Color.red uncle' b (put_back z s) parent' m left
                  (colored-Sized n Color.black (put_back z s) (refl, grand.0.1.2)))
                grand.1)
        | inr other ↦
            rw (red, other, insert_fix)
              (settled-IsSized m (rotate_under_right z s d u b m) path
                (rotate_under_right-Sized m z s d u b m grand.0) grand.1)
      ]
      | inr not_red ↦
          rw (not_red, insert_fix) (settled-IsSized k z (s ∷ Step.from_right d u b m ∷ path) h p)
    ]

-- The way down has counted the new node.
descend-IsSizedPath :
    (w : Weight) (t : DocTree) (path : List Step)
    → IsSized t
    → IsSizedPath (size t + 1) path
    → IsSizedPath 1 (descend w t path)
unfolding descend size
descend-IsSizedPath w DocTree.leaf path h p = p
descend-IsSizedPath w (DocTree.node c l a r n) path h p = elim (Bool-cases (Weight.lt w a.weight)) [
  | inl lt ↦
      rw (lt, descend)
        (descend-IsSizedPath w l (Step.from_left c a r (n + 1) ∷ path) h.1
          (omega (arith, h), h.2, p))
  | inr ge ↦
      rw (ge, descend)
        (descend-IsSizedPath w r (Step.from_right c l a (n + 1) ∷ path) h.2
          (omega (arith, h), h.1, p))
]

-- If every node stores the number of the nodes below it, itself included, then the nodes do so too
-- after `insert`.
pub insert-IsSized : (a : Atom) (t : DocTree) → IsSized t → IsSized (insert a t).1
unfolding insert
insert-IsSized a t h = elim (Bool-cases (contains a.weight t)) [
  | inl there ↦ rw there h
  | inr new ↦ rw new (
      insert_fix-IsSized 1 (DocTree.node Color.red DocTree.leaf a DocTree.leaf 1)
        (descend a.weight t []) (refl, (refl, tt, tt)) (descend-IsSizedPath a.weight t [] h tt))
]
