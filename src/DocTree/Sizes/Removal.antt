-- ===== src/DocTree/Sizes/Removal.antt =====
-- src/rbtree.rs: deletion keeps the stored sizes right.
use esbt_web.Base.{
  ℕ, ◌+◌, ◌≡◌, refl, subst, Bool, true, false, not, ◌&&◌, Bool-cases, inl, inr, Option, none, some,
  List, [], ◌∷◌, ◌++◌, arith,
}
use esbt_web.Base.Order.{Ordering-cases}
use esbt_web.Weight
use esbt_web.Weight.{Weight}
use esbt_web.DocTree.{
  Atom, Color, DocTree, Step, size, is_red, colored, rotate_left, rotate_right, plug,
}
use esbt_web.DocTree.Delete.{
  pull_upward, right_of, left_of, colored_left, colored_right, Round, round_left, round_right,
  last_round, red_left, red_right, delete_fix, minimum, spliced, delete_idx, delete_at, delete,
}
use esbt_web.DocTree.Search.{IsSized}
use esbt_web.DocTree.Sizes.{
  IsSizedPath, Sized, plug-IsSized, colored-Sized, rotate_left-Sized, rotate_right-Sized, with_left,
  with_right, settled-IsSized,
}

-- The subtrees beside the way up have the right sizes.
abbrev AreSized : List Step → Type 0
AreSized [] = Unit
AreSized (Step.from_left c a r n ∷ path) = IsSized r × AreSized path
AreSized (Step.from_right c l a n ∷ path) = IsSized l × AreSized path

AreSized-append : (p q : List Step) → AreSized p → AreSized q → AreSized (p ++ q)
AreSized-append [] q h k = k
AreSized-append (Step.from_left c a r n ∷ p) q h k = (h.0, AreSized-append p q h.1 k)
AreSized-append (Step.from_right c l a n ∷ p) q h k = (h.0, AreSized-append p q h.1 k)

pull_upward-IsSizedPath :
    (k : ℕ) (path : List Step) → AreSized path → IsSizedPath k (pull_upward k path)
unfolding pull_upward
pull_upward-IsSizedPath k [] h = tt
pull_upward-IsSizedPath k (Step.from_left c a r n ∷ path) h =
    (refl, h.0, pull_upward-IsSizedPath (1 + k + size r) path h.1)
pull_upward-IsSizedPath k (Step.from_right c l a n ∷ path) h =
    (refl, h.0, pull_upward-IsSizedPath (1 + size l + k) path h.1)

colored_left-Sized : (k : ℕ) (t : DocTree) → Sized k t → Sized k (colored_left t)
unfolding colored_left size
colored_left-Sized k DocTree.leaf h = h
colored_left-Sized k (DocTree.node c l a r n) h =
    with_left k c c l (colored Color.black l) a r n h
      (colored-Sized (size l) Color.black l (refl, h.1.1))

colored_right-Sized : (k : ℕ) (t : DocTree) → Sized k t → Sized k (colored_right t)
unfolding colored_right size
colored_right-Sized k DocTree.leaf h = h
colored_right-Sized k (DocTree.node c l a r n) h =
    with_right k c c l a r (colored Color.black r) n h
      (colored-Sized (size r) Color.black r (refl, h.1.2))

abbrev RoundSized : ℕ → Round → Type 0
RoundSized k (Round.ascend t) = Sized k t
RoundSized k (Round.settle t) = Sized k t

round_left-Sized :
    (k : ℕ) (x : DocTree) (c : Color) (a : Atom) (w : DocTree) (n : ℕ)
    → Sized k (DocTree.node c x a w n)
    → RoundSized k (round_left x c a w n)
unfolding round_left size
round_left-Sized k x c a w n h =
    elim (Bool-cases (not (is_red (left_of w)) && not (is_red (right_of w)))) [
      | inl both ↦
          rw (both, round_left)
            (with_right k c c x a w (colored Color.red w) n h
              (colored-Sized (size w) Color.red w (refl, h.1.2)))
      | inr one ↦
          let put = λ (v : DocTree) (e : Sized (size w) v).
            rotate_left-Sized k (DocTree.node Color.black x a (colored c (colored_right v)) n) (
              with_right k c Color.black x a w (colored c (colored_right v)) n h
                (colored-Sized (size w) c (colored_right v) (colored_right-Sized (size w) v e))) in
          let u = colored Color.red (colored_left w) in
          elim (Bool-cases (is_red (right_of w))) [
            | inl far ↦ rw (one, far, round_left) (put w (refl, h.1.2))
            | inr near ↦
                rw (one, near, round_left)
                  (put (rotate_right u) (
                    rotate_right-Sized (size w) u (
                      colored-Sized (size w) Color.red (colored_left w)
                        (colored_left-Sized (size w) w (refl, h.1.2)))))
          ]
    ]

round_right-Sized :
    (k : ℕ) (x : DocTree) (c : Color) (w : DocTree) (a : Atom) (n : ℕ)
    → Sized k (DocTree.node c w a x n)
    → RoundSized k (round_right x c w a n)
unfolding round_right size
round_right-Sized k x c w a n h =
    elim (Bool-cases (not (is_red (left_of w)) && not (is_red (right_of w)))) [
      | inl both ↦
          rw (both, round_right)
            (with_left k c c w (colored Color.red w) a x n h
              (colored-Sized (size w) Color.red w (refl, h.1.1)))
      | inr one ↦
          let put = λ (v : DocTree) (e : Sized (size w) v).
            rotate_right-Sized k (DocTree.node Color.black (colored c (colored_left v)) a x n) (
              with_left k c Color.black w (colored c (colored_left v)) a x n h
                (colored-Sized (size w) c (colored_left v) (colored_left-Sized (size w) v e))) in
          let u = colored Color.red (colored_right w) in
          elim (Bool-cases (is_red (left_of w))) [
            | inl far ↦ rw (one, far, round_right) (put w (refl, h.1.1))
            | inr near ↦
                rw (one, near, round_right)
                  (put (rotate_left u) (
                    rotate_left-Sized (size w) u (
                      colored-Sized (size w) Color.red (colored_right w)
                        (colored_right-Sized (size w) w (refl, h.1.1)))))
          ]
    ]

last_round-IsSized :
    (k : ℕ) (r : Round) (path : List Step)
    → RoundSized k r
    → IsSizedPath k path
    → IsSized (last_round r path)
unfolding last_round
last_round-IsSized k (Round.ascend t) path h p =
    plug-IsSized k (colored Color.black t) path (colored-Sized k Color.black t h) p
last_round-IsSized k (Round.settle t) path h p = settled-IsSized k t path h p

red_left-IsSized :
    (x : DocTree) (a : Atom) (w : DocTree) (n : ℕ) (path : List Step)
    → Sized n (DocTree.node Color.black x a w n)
    → IsSizedPath n path
    → IsSized (red_left x a w n path)
unfolding red_left size
red_left-IsSized x a DocTree.leaf n path h p =
    plug-IsSized n (DocTree.node Color.black x a DocTree.leaf n) path h p
red_left-IsSized x a (DocTree.node d wl b wr k) n path h p =
    let m = 1 + size x + size wl in
    let e : n ≡ 1 + m + size wr = omega (arith, h) in
    last_round-IsSized m (round_left x Color.red a wl m)
      (Step.from_left Color.black b wr (1 + m + size wr) ∷ path)
      (round_left-Sized m x Color.red a wl m (refl, (refl, h.1.1, h.1.2.1)))
      (refl, h.1.2.2, subst (λ j. IsSizedPath j path) e p)

red_right-IsSized :
    (x w : DocTree) (a : Atom) (n : ℕ) (path : List Step)
    → Sized n (DocTree.node Color.black w a x n)
    → IsSizedPath n path
    → IsSized (red_right x w a n path)
unfolding red_right size
red_right-IsSized x DocTree.leaf a n path h p =
    plug-IsSized n (DocTree.node Color.black DocTree.leaf a x n) path h p
red_right-IsSized x (DocTree.node d wl b wr k) a n path h p =
    let m = 1 + size wr + size x in
    let e : n ≡ 1 + size wl + m = omega (arith, h) in
    last_round-IsSized m (round_right x Color.red wr a m)
      (Step.from_right Color.black wl b (1 + size wl + m) ∷ path)
      (round_right-Sized m x Color.red wr a m (refl, (refl, h.1.1.2, h.1.2)))
      (refl, h.1.1.1, subst (λ j. IsSizedPath j path) e p)

next-IsSized :
    (k : ℕ) (r : Round) (path : List Step) (go : DocTree → DocTree)
    → ((p : DocTree) → Sized k p → IsSized (go p))
    → RoundSized k r
    → IsSizedPath k path
    → IsSized
        (elim r [ Round.ascend p ↦ go p | Round.settle t ↦ colored Color.black (plug t path) ])
next-IsSized k (Round.ascend p) path go f h s = f p h
next-IsSized k (Round.settle t) path go f h s = settled-IsSized k t path h s

delete_fix-IsSized :
    (k : ℕ) (x : DocTree) (path : List Step)
    → Sized k x
    → IsSizedPath k path
    → IsSized (delete_fix x path)
unfolding delete_fix round_left round_right size
delete_fix-IsSized k x [] h p = (colored-Sized k Color.black x h).1
delete_fix-IsSized k x (Step.from_left c a w n ∷ path) h p =
    let whole : Sized n (DocTree.node c x a w n) = (refl, (omega (arith, h, p), h.1, p.1)) in
    elim (Bool-cases (is_red x)) [
      | inl red ↦
          rw (red, delete_fix)
            (last_round-IsSized k (Round.ascend x) (Step.from_left c a w n ∷ path) h p)
      | inr black ↦ elim (Bool-cases (is_red w)) [
        | inl sibling ↦ rw (black, sibling, delete_fix) (red_left-IsSized x a w n path whole p.2)
        | inr other ↦
            rw (black, other, delete_fix)
              (next-IsSized n (round_left x c a w n) path (λ q. delete_fix q path)
                (λ q e. delete_fix-IsSized n q path e p.2) (round_left-Sized n x c a w n whole) p.2)
      ]
    ]
delete_fix-IsSized k x (Step.from_right c w a n ∷ path) h p =
    let whole : Sized n (DocTree.node c w a x n) = (refl, (omega (arith, h, p), p.1, h.1)) in
    elim (Bool-cases (is_red x)) [
      | inl red ↦
          rw (red, delete_fix)
            (last_round-IsSized k (Round.ascend x) (Step.from_right c w a n ∷ path) h p)
      | inr black ↦ elim (Bool-cases (is_red w)) [
        | inl sibling ↦ rw (black, sibling, delete_fix) (red_right-IsSized x w a n path whole p.2)
        | inr other ↦
            rw (black, other, delete_fix)
              (next-IsSized n (round_right x c w a n) path (λ q. delete_fix q path)
                (λ q e. delete_fix-IsSized n q path e p.2) (round_right-Sized n x c w a n whole)
                p.2)
      ]
    ]

spliced-IsSized :
    (c : Color) (x : DocTree) (path : List Step)
    → IsSized x
    → AreSized path
    → IsSized (spliced c x path)
unfolding spliced
spliced-IsSized Color.red x path h p =
    plug-IsSized (size x) x (pull_upward (size x) path) (refl, h)
      (pull_upward-IsSizedPath (size x) path p)
spliced-IsSized Color.black x path h p =
    delete_fix-IsSized (size x) x (pull_upward (size x) path) (refl, h)
      (pull_upward-IsSizedPath (size x) path p)

minimum-AreSized :
    (c : Color) (l : DocTree) (a : Atom) (r : DocTree) (n : ℕ)
    → IsSized l
    → IsSized r
    → IsSized (minimum c l a r n).right × AreSized (minimum c l a r n).path
unfolding minimum
minimum-AreSized c DocTree.leaf a r n hl hr = (hr, tt)
minimum-AreSized c (DocTree.node d l b m k) a r n hl hr =
    let rest = minimum-AreSized d l b m k hl.1 hl.2 in
    (rest.0, AreSized-append (minimum d l b m k).path (Step.from_left c a r n ∷ []) rest.1 (hr, tt))

delete_idx-IsSized :
    (c : Color) (l : DocTree) (a : Atom) (r : DocTree) (n : ℕ) (path : List Step)
    → IsSized l
    → IsSized r
    → AreSized path
    → IsSized (delete_idx c l a r n path)
unfolding delete_idx
delete_idx-IsSized c DocTree.leaf a r n path hl hr p = spliced-IsSized c r path hr p
delete_idx-IsSized c (DocTree.node d l b m k) a DocTree.leaf n path hl hr p =
    spliced-IsSized c (DocTree.node d l b m k) path hl p
delete_idx-IsSized c (DocTree.node d l b m k) a (DocTree.node e u v t j) n path hl hr p =
    let y = minimum e u v t j in
    let h = minimum-AreSized e u v t j hr.1 hr.2 in
    let left = DocTree.node d l b m k in
    spliced-IsSized y.color y.right (y.path ++ (Step.from_right c left y.atom n ∷ path)) h.0
      (AreSized-append y.path (Step.from_right c left y.atom n ∷ path) h.1 (hl, p))

abbrev SomeSized : Option DocTree → Type 0
SomeSized none = Unit
SomeSized (some t) = IsSized t

delete_at-IsSized :
    (w : Weight) (t : DocTree) (path : List Step)
    → IsSized t
    → AreSized path
    → SomeSized (delete_at w t path)
unfolding delete_at
delete_at-IsSized w DocTree.leaf path h p = tt
delete_at-IsSized w (DocTree.node c l a r n) path h p =
    elim (Ordering-cases (Weight.cmp w a.weight)) [
      | inl lt ↦
          rw (lt, delete_at) (delete_at-IsSized w l (Step.from_left c a r n ∷ path) h.1 (h.2, p))
      | inr (inl eq) ↦ rw (eq, delete_at) (delete_idx-IsSized c l a r n path h.1 h.2 p)
      | inr (inr gt) ↦
          rw (gt, delete_at) (delete_at-IsSized w r (Step.from_right c l a n ∷ path) h.2 (h.1, p))
    ]

deleted-IsSized :
    (t : DocTree) (o : Option DocTree)
    → IsSized t
    → SomeSized o
    → IsSized (elim o as (λ x. Bool × DocTree) [ none ↦ (false, t) | some rest ↦ (true, rest) ]).1
deleted-IsSized t none h k = h
deleted-IsSized t (some rest) h k = k

-- If every node stores the number of the nodes below it, itself included, then the nodes do so too
-- after `delete`.
pub delete-IsSized : (w : Weight) (t : DocTree) → IsSized t → IsSized (delete w t).1
unfolding delete
delete-IsSized w t h = deleted-IsSized t (delete_at w t []) h (delete_at-IsSized w t [] h tt)
