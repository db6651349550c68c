-- ===== src/DocTree.antt =====
-- src/rbtree.rs: the order-statistic red-black tree of the document. The source keeps its nodes in an
-- array and links them by index; here a subtree stands where a link does, and the parent links from
-- a node to the root are a list of steps.
pub mod Delete
pub mod Sorted
pub mod Search
pub mod Inorder
pub mod Removal
pub mod Sizes
pub mod Invariant
pub mod Edits
use esbt_web.Base.{
  ℕ, ◌+◌, ◌-◌, Ordering, ◌≡◌, refl, Bool, true, false, Option, none, some, List, [], ◌∷◌, ◌++◌, map,
  ltb, ◌==◌, if◌then◌else◌,
}
use esbt_web.Weight
use esbt_web.Weight.{Weight}

-- `Atom` of src/snapshot.rs: a live unit under its weight, with its insertion counter.
pub record Atom : Type 0 where
  pub weight : Weight
  pub unit : ℕ
  pub counter : ℕ

pub data Color : Type 0 where
  red black : Color

-- A node has its color, its left subtree, its atom, its right subtree and the stored size.
pub data DocTree : Type 0 where
  leaf : DocTree
  node : Color → DocTree → Atom → DocTree → ℕ → DocTree

-- A parent link: the parent without the child that the link comes from.
pub data Step : Type 0 where
  from_left : Color → Atom → DocTree → ℕ → Step
  from_right : Color → DocTree → Atom → ℕ → Step

-- `sz` of a link, and `len` of the root.
unfoldable pub size : DocTree → ℕ
size DocTree.leaf = 0
size (DocTree.node c l a r n) = n

unfoldable pub is_red_color : Color → Bool
is_red_color Color.red = true
is_red_color Color.black = false

-- `self.color(i) == Color::Red`; a missing node is black.
unfoldable pub is_red : DocTree → Bool
unfolding is_red_color
is_red DocTree.leaf = false
is_red (DocTree.node c l a r n) = is_red_color c

unfoldable pub colored : Color → DocTree → DocTree
colored c DocTree.leaf = DocTree.leaf
colored c (DocTree.node d l a r n) = DocTree.node c l a r n

-- A node whose size is pulled from its children.
unfoldable pub pulled : Color → DocTree → Atom → DocTree → DocTree
unfolding size
pulled c l a r = DocTree.node c l a r (1 + size l + size r)

-- `rotate_left` of the subtree at `x`. Where the right child is missing the source panics; every
-- call has one.
unfoldable pub rotate_left : DocTree → DocTree
unfolding pulled
rotate_left DocTree.leaf = DocTree.leaf
rotate_left (DocTree.node c l a DocTree.leaf n) = DocTree.node c l a DocTree.leaf n
rotate_left (DocTree.node c l a (DocTree.node d m b r k) n) = pulled d (pulled c l a m) b r

unfoldable pub rotate_right : DocTree → DocTree
unfolding pulled
rotate_right DocTree.leaf = DocTree.leaf
rotate_right (DocTree.node c DocTree.leaf a r n) = DocTree.node c DocTree.leaf a r n
rotate_right (DocTree.node c (DocTree.node d l b m k) a r n) = pulled d l b (pulled c m a r)

-- The parent, with a subtree put back.
unfoldable pub put_back : DocTree → Step → DocTree
put_back t (Step.from_left c a r n) = DocTree.node c t a r n
put_back t (Step.from_right c l a n) = DocTree.node c l a t n

-- The whole tree, from a subtree and its parent links.
unfoldable pub plug : DocTree → List Step → DocTree
unfolding put_back
plug t [] = t
plug t (s ∷ path) = plug (put_back t s) path

unfoldable pub find : Weight → DocTree → Option (ℕ × ℕ)
find w DocTree.leaf = none
find w (DocTree.node c l a r n) = elim (Weight.cmp w a.weight) [
  | Ordering.lt ↦ find w l
  | Ordering.gt ↦ find w r
  | Ordering.eq ↦ some (a.unit, a.counter)
]

unfoldable pub contains : Weight → DocTree → Bool
contains w t = elim (find w t) [ none ↦ false | some found ↦ true ]

unfoldable pub get_at : ℕ → DocTree → Option Atom
unfolding size
get_at i DocTree.leaf = none
get_at i (DocTree.node c l a r n) =
    let before = get_at i l in
    let after = get_at (i - (size l + 1)) r in
    if ltb i (size l) then before else if i == size l then some a else after

-- `index_of`, with the count `before` of what lies to the left. It adds without the saturation of
-- `usize`, which the number of nodes in memory cannot reach.
unfoldable pub index_of : Weight → ℕ → DocTree → Option ℕ
unfolding size
index_of w before DocTree.leaf = none
index_of w before (DocTree.node c l a r n) = elim (Weight.cmp w a.weight) [
  | Ordering.lt ↦ index_of w before l
  | Ordering.gt ↦ index_of w (before + size l + 1) r
  | Ordering.eq ↦ some (before + size l)
]

-- The loop of `lower_bound`, with its `result`.
unfoldable pub lower_bound_from : Weight → ℕ → ℕ → DocTree → ℕ
unfolding size
lower_bound_from w before result DocTree.leaf = result
lower_bound_from w before result (DocTree.node c l a r n) =
    let right = lower_bound_from w (before + size l + 1) result r in
    let left = lower_bound_from w before (before + size l) l in
    if Weight.lt a.weight w then right else left

unfoldable pub lower_bound : Weight → DocTree → ℕ
unfolding lower_bound_from size
lower_bound w t = lower_bound_from w 0 (size t) t

-- The way down of `insert`, which counts the new node in every size that it passes.
unfoldable pub descend : Weight → DocTree → List Step → List Step
descend w DocTree.leaf path = path
descend w (DocTree.node c l a r n) path =
    let left = descend w l (Step.from_left c a r (n + 1) ∷ path) in
    let right = descend w r (Step.from_right c l a (n + 1) ∷ path) in
    if Weight.lt w a.weight then left else right

-- A red node under a red parent that is the left child of its grandparent, where the uncle is black.
unfoldable pub rotate_under_left : DocTree → Step → Color → Atom → DocTree → ℕ → DocTree
unfolding rotate_left rotate_right put_back
rotate_under_left z (Step.from_left c a r n) d b u m =
    rotate_right (DocTree.node Color.red (DocTree.node Color.black z a r n) b u m)
rotate_under_left z (Step.from_right c l a n) d b u m =
    rotate_right
      (DocTree.node Color.red (colored Color.black (rotate_left (DocTree.node c l a z n))) b u m)

-- The mirror image.
unfoldable pub rotate_under_right : DocTree → Step → Color → DocTree → Atom → ℕ → DocTree
unfolding rotate_left rotate_right
rotate_under_right z (Step.from_right c l a n) d u b m =
    rotate_left (DocTree.node Color.red u b (DocTree.node Color.black l a z n) m)
rotate_under_right z (Step.from_left c a r n) d u b m =
    rotate_left
      (DocTree.node Color.red u b (colored Color.black (rotate_right (DocTree.node c z a r n))) m)

unfoldable pub step_is_red : Step → Bool
unfolding is_red_color
step_is_red (Step.from_left c a r n) = is_red_color c
step_is_red (Step.from_right c l a n) = is_red_color c

-- `insert_fix` from the red node `z` up: a red uncle is colored black with the parent and the loop
-- goes on at the grandparent; otherwise rotations end it. The root becomes black.
unfoldable pub insert_fix : DocTree → List Step → DocTree
unfolding is_red colored put_back plug step_is_red rotate_under_left rotate_under_right
insert_fix z [] = colored Color.black z
insert_fix z (p ∷ []) = colored Color.black (put_back z p)
insert_fix z (p ∷ Step.from_left d b u m ∷ path) =
    let parent = colored Color.black (put_back z p) in
    let above = insert_fix (DocTree.node Color.red parent b (colored Color.black u) m) path in
    if step_is_red p
    then if is_red u then above else colored Color.black (plug (rotate_under_left z p d b u m) path)
    else colored Color.black (plug z (p ∷ Step.from_left d b u m ∷ path))
insert_fix z (p ∷ Step.from_right d u b m ∷ path) =
    let parent = colored Color.black (put_back z p) in
    let above = insert_fix (DocTree.node Color.red (colored Color.black u) b parent m) path in
    if step_is_red p
    then if is_red u
      then above
      else colored Color.black (plug (rotate_under_right z p d u b m) path)
    else colored Color.black (plug z (p ∷ Step.from_right d u b m ∷ path))

-- `DocTree::insert`: whether the weight was new, and the tree after.
unfoldable pub insert : Atom → DocTree → Bool × DocTree
unfolding contains descend insert_fix
insert a t = if contains a.weight t then (false, t) else (
  true,
  insert_fix (DocTree.node Color.red DocTree.leaf a DocTree.leaf 1) (descend a.weight t []),
)

-- `DocTree::atoms`, by an in-order walk, and `DocTree::units`.
unfoldable pub atoms : DocTree → List Atom
atoms DocTree.leaf = []
atoms (DocTree.node c l a r n) = atoms l ++ (a ∷ atoms r)

unfoldable pub units : DocTree → List ℕ
units DocTree.leaf = []
units (DocTree.node c l a r n) = units l ++ (a.unit ∷ units r)
