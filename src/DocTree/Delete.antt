-- ===== src/DocTree/Delete.antt =====
-- src/rbtree.rs: deletion from the red-black tree.
use esbt_web.Base.{
  ℕ, ◌+◌, Ordering, Bool, true, false, not, ◌&&◌, Option, none, some, List, [], ◌∷◌, ◌++◌,
  if◌then◌else◌,
}
use esbt_web.Weight
use esbt_web.Weight.{Weight}
use esbt_web.DocTree.{
  Atom, Color, DocTree, Step, size, is_red_color, is_red, colored, rotate_left, rotate_right, plug,
}

-- `pull_upward`: the sizes on the way to the root, from the size of the subtree below.
unfoldable pub pull_upward : ℕ → List Step → List Step
unfolding size
pull_upward k [] = []
pull_upward k (Step.from_left c a r n ∷ path) =
    let n = 1 + k + size r in Step.from_left c a r n ∷ pull_upward n path
pull_upward k (Step.from_right c l a n ∷ path) =
    let n = 1 + size l + k in Step.from_right c l a n ∷ pull_upward n path

unfoldable pub right_of : DocTree → DocTree
right_of DocTree.leaf = DocTree.leaf
right_of (DocTree.node c l a r n) = r

unfoldable pub left_of : DocTree → DocTree
left_of DocTree.leaf = DocTree.leaf
left_of (DocTree.node c l a r n) = l

unfoldable pub colored_left : DocTree → DocTree
unfolding colored
colored_left DocTree.leaf = DocTree.leaf
colored_left (DocTree.node c l a r n) = DocTree.node c (colored Color.black l) a r n

unfoldable pub colored_right : DocTree → DocTree
unfolding colored
colored_right DocTree.leaf = DocTree.leaf
colored_right (DocTree.node c l a r n) = DocTree.node c l a (colored Color.black r) n

-- What one round of `delete_fix` comes to once the sibling is black: the loop goes on at the parent
-- (`ascend`), or it has put the subtree right and goes to the root (`settle`).
pub data Round : Type 0 where
  ascend settle : DocTree → Round

-- The node `x` is the left child of `p`, which has color `c`, and `w` is its sibling.
unfoldable pub round_left : DocTree → Color → Atom → DocTree → ℕ → Round
unfolding is_red colored rotate_left rotate_right right_of left_of colored_left colored_right
round_left x c a w n =
    if not (is_red (left_of w)) && not (is_red (right_of w))
    then Round.ascend (DocTree.node c x a (colored Color.red w) n)
    else (let turned =
          if is_red (right_of w) then w else rotate_right (colored Color.red (colored_left w)) in
        Round.settle
          (rotate_left (DocTree.node Color.black x a (colored c (colored_right turned)) n)))

-- The mirror image: `x` is the right child.
unfoldable pub round_right : DocTree → Color → DocTree → Atom → ℕ → Round
unfolding is_red colored rotate_left rotate_right right_of left_of colored_left colored_right
round_right x c w a n =
    if not (is_red (left_of w)) && not (is_red (right_of w))
    then Round.ascend (DocTree.node c (colored Color.red w) a x n)
    else (let turned =
          if is_red (left_of w) then w else rotate_left (colored Color.red (colored_right w)) in
        Round.settle
          (rotate_right (DocTree.node Color.black (colored c (colored_left turned)) a x n)))

-- The rest of a round whose sibling was red: the parent is red by now, so the loop ends either way,
-- at the parent, which becomes black, or at the root.
unfoldable pub last_round : Round → List Step → DocTree
unfolding colored plug
last_round (Round.ascend p) path = plug (colored Color.black p) path
last_round (Round.settle t) path = colored Color.black (plug t path)

-- A red sibling `w` of the left child `x` is rotated above the parent.
unfoldable pub red_left : DocTree → Atom → DocTree → ℕ → List Step → DocTree
unfolding size round_left last_round
red_left x a DocTree.leaf n path = plug (DocTree.node Color.black x a DocTree.leaf n) path
red_left x a (DocTree.node d wl b wr k) n path =
    let m = 1 + size x + size wl in
    last_round (round_left x Color.red a wl m)
      (Step.from_left Color.black b wr (1 + m + size wr) ∷ path)

unfoldable pub red_right : DocTree → DocTree → Atom → ℕ → List Step → DocTree
unfolding size round_right last_round
red_right x DocTree.leaf a n path = plug (DocTree.node Color.black DocTree.leaf a x n) path
red_right x (DocTree.node d wl b wr k) a n path =
    let m = 1 + size wr + size x in
    last_round (round_right x Color.red wr a m)
      (Step.from_right Color.black wl b (1 + size wl + m) ∷ path)

-- `delete_fix` from the node `x` (a leaf where it is missing) up.
unfoldable pub delete_fix : DocTree → List Step → DocTree
unfolding is_red colored plug red_left red_right round_left round_right
delete_fix x [] = colored Color.black x
delete_fix x (Step.from_left c a w n ∷ path) =
    if is_red x
    then plug (colored Color.black x) (Step.from_left c a w n ∷ path)
    else if is_red w
    then red_left x a w n path
    else elim (round_left x c a w n) [
      | Round.ascend p ↦ delete_fix p path
      | Round.settle t ↦ colored Color.black (plug t path)
    ]
delete_fix x (Step.from_right c w a n ∷ path) =
    if is_red x
    then plug (colored Color.black x) (Step.from_right c w a n ∷ path)
    else if is_red w
    then red_right x w a n path
    else elim (round_right x c w a n) [
      | Round.ascend p ↦ delete_fix p path
      | Round.settle t ↦ colored Color.black (plug t path)
    ]

-- The leftmost node of the tree with the given root: its color, its atom, its right subtree, and its
-- parent links up to that root.
pub record Leftmost : Type 0 where
  pub color : Color
  pub atom : Atom
  pub right : DocTree
  pub path : List Step

unfoldable pub minimum : Color → DocTree → Atom → DocTree → ℕ → Leftmost
minimum c DocTree.leaf a r n = record { color = c; atom = a; right = r; path = [] }
minimum c (DocTree.node d l b m k) a r n =
    let found = minimum d l b m k in
    record found { path = found.path ++ (Step.from_left c a r n ∷ []) }

-- What is left of a removed node of color `c`: its child, with the sizes above pulled, and the
-- colors fixed where a black node went.
unfoldable pub spliced : Color → DocTree → List Step → DocTree
unfolding size is_red_color pull_upward plug delete_fix
spliced c x path =
    if is_red_color c
    then plug x (pull_upward (size x) path)
    else delete_fix x (pull_upward (size x) path)

-- `delete_idx` of a node: with two children, its successor takes its place and its color.
unfoldable pub delete_idx : Color → DocTree → Atom → DocTree → ℕ → List Step → DocTree
unfolding spliced minimum
delete_idx c DocTree.leaf a r n path = spliced c r path
delete_idx c (DocTree.node d l b m k) a DocTree.leaf n path =
    spliced c (DocTree.node d l b m k) path
delete_idx c (DocTree.node d l b m k) a (DocTree.node e u v t j) n path =
    let y = minimum e u v t j in
    spliced y.color y.right (y.path ++ (Step.from_right c (DocTree.node d l b m k) y.atom n ∷ path))

-- The search of `delete`, and the tree after where the weight is there.
unfoldable pub delete_at : Weight → DocTree → List Step → Option DocTree
unfolding delete_idx
delete_at w DocTree.leaf path = none
delete_at w (DocTree.node c l a r n) path = elim (Weight.cmp w a.weight) [
  | Ordering.lt ↦ delete_at w l (Step.from_left c a r n ∷ path)
  | Ordering.gt ↦ delete_at w r (Step.from_right c l a n ∷ path)
  | Ordering.eq ↦ some (delete_idx c l a r n path)
]

-- `DocTree::delete`: whether the weight was there, and the tree after.
unfoldable pub delete : Weight → DocTree → Bool × DocTree
unfolding delete_at
delete w t = elim (delete_at w t []) [ none ↦ (false, t) | some rest ↦ (true, rest) ]
