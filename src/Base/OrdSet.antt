-- ===== src/Base/OrdSet.antt =====
-- `BTreeSet<u64>`: a list of numbers in ascending order, with the set operations that the source
-- calls, and the laws of membership.
use Prim.Native.Nat.{ℕ, ◌≤◌, ◌<◌}
use mathlib.Core.Path.{◌≡◌, refl, ap₂}
use mathlib.Core.Bool.{Bool, false, not, ◌&&◌, ◌||◌}
use mathlib.Core.List.{List, [], ◌∷◌}
use native.Mathlib.Omega.{arith}
use esbt_web.Base.Tests.{ltb, u64_limit, ◌==◌, if◌then◌else◌}

-- Whether the set holds `q`.
unfoldable pub contains : ℕ → List ℕ → Bool
contains q [] = false
contains q (x ∷ xs) = (q == x) || contains q xs

-- Insertion at the place that the order gives; a number that is there already stays.
unfoldable pub insert : ℕ → List ℕ → List ℕ
insert q [] = q ∷ []
insert q (x ∷ xs) = if ltb q x then q ∷ x ∷ xs else if q == x then x ∷ xs else x ∷ insert q xs

unfoldable pub remove : ℕ → List ℕ → List ℕ
remove q [] = []
remove q (x ∷ xs) = if q == x then remove q xs else x ∷ remove q xs

-- `retain(|sequence| *sequence > c)`.
unfoldable pub retain_above : ℕ → List ℕ → List ℕ
retain_above c [] = []
retain_above c (x ∷ xs) = if ltb c x then x ∷ retain_above c xs else retain_above c xs

-- `extend`: every number of the second list is inserted into the first.
unfoldable pub extend : List ℕ → List ℕ → List ℕ
extend l [] = l
extend l (x ∷ xs) = extend (insert x l) xs

-- Ascending, all above `b` and all in the range of `u64`: what represents a set, with a lower bound.
abbrev pub Above : ℕ → List ℕ → Type 0
Above b [] = Unit
Above b (x ∷ xs) = (b < x) × (x < u64_limit) × Above x xs

pub contains-insert : (q x : ℕ) (l : List ℕ) → contains q (insert x l) ≡ ((q == x) || contains q l)
unfolding contains insert
contains-insert q x [] = refl
contains-insert q x (y ∷ l) = ground (arith, contains-insert q x l)

pub contains-remove :
    (q x : ℕ) (l : List ℕ) → contains q (remove x l) ≡ (not (q == x) && contains q l)
unfolding contains remove
contains-remove q x [] = ground arith
contains-remove q x (y ∷ l) = ground (arith, contains-remove q x l)

pub contains-retain_above :
    (q c : ℕ) (l : List ℕ) → contains q (retain_above c l) ≡ (ltb c q && contains q l)
unfolding contains retain_above
contains-retain_above q c [] = ground arith
contains-retain_above q c (y ∷ l) = ground (arith, contains-retain_above q c l)

pub contains-extend :
    (q : ℕ) (l m : List ℕ) → contains q (extend l m) ≡ (contains q l || contains q m)
unfolding contains extend
contains-extend q l [] = ground arith
contains-extend q l (x ∷ m) =
    ground (arith, contains-extend q (insert x l) m, contains-insert q x l)

pub Above-weaken : (b c : ℕ) (l : List ℕ) → c ≤ b → Above b l → Above c l
Above-weaken b c [] h a = tt
Above-weaken b c (x ∷ l) h a = (omega arith, a.1, a.2)

pub contains-Above : (q b : ℕ) (l : List ℕ) → Above b l → q ≤ b → contains q l ≡ false
unfolding contains
contains-Above q b [] a h = refl
contains-Above q b (x ∷ l) a h = ground (arith, contains-Above q x l a.2)

pub insert-Above : (b q : ℕ) (l : List ℕ) → Above b l → b < q → q < u64_limit → Above b (insert q l)
unfolding insert
insert-Above b q [] a h u = (h, u, tt)
insert-Above b q (x ∷ l) a h u = ground (arith, insert-Above x q l a.2)

pub remove-Above_self : (b q : ℕ) (l : List ℕ) → Above b l → q ≤ b → remove q l ≡ l
unfolding remove
remove-Above_self b q [] a h = refl
remove-Above_self b q (x ∷ l) a h = ground (arith, remove-Above_self x q l a.2)

pub extend-Above : (b : ℕ) (l m : List ℕ) → Above b l → Above b m → Above b (extend l m)
unfolding extend
extend-Above b l [] a h = a
extend-Above b l (x ∷ m) a h =
    extend-Above b (insert x l) m (insert-Above b x l a h.0 h.1)
      (Above-weaken x b m (omega arith) h.2)

retain_above-Above_le : (b c : ℕ) (l : List ℕ) → Above b l → c ≤ b → Above b (retain_above c l)
unfolding retain_above
retain_above-Above_le b c [] a h = tt
retain_above-Above_le b c (x ∷ l) a h = ground (arith, retain_above-Above_le x c l a.2)

-- What is left is ascending above `c`.
pub retain_above-Above : (b c : ℕ) (l : List ℕ) → Above b l → Above c (retain_above c l)
unfolding retain_above
retain_above-Above b c [] a = tt
retain_above-Above b c (x ∷ l) a =
    ground (arith, retain_above-Above_le x c l a.2, retain_above-Above x c l a.2)

module _ (x y : ℕ) (l m : List ℕ) (al : Above x l) (am : Above y m) where
  same_head : ((q : ℕ) → contains q (x ∷ l) ≡ contains q (y ∷ m)) → x ≡ y
  unfolding contains
  same_head h = ground (arith, h x, h y, contains-Above x y m am, contains-Above y x l al)

  same_tail :
      ((q : ℕ) → contains q (x ∷ l) ≡ contains q (y ∷ m))
      → x ≡ y
      → (q : ℕ) → contains q l ≡ contains q m
  unfolding contains
  same_tail h e q = ground (arith, h q, contains-Above q x l al, contains-Above q y m am)

-- A set has one representation.
pub Above-unique :
    (b : ℕ) (l m : List ℕ) → Above b l → Above b m → ((q : ℕ) → contains q l ≡ contains q m) → l ≡ m
unfolding contains
Above-unique b [] [] al am h = refl
Above-unique b [] (y ∷ m) al am h = ground (arith, h y)
Above-unique b (x ∷ l) [] al am h = ground (arith, h x)
Above-unique b (x ∷ l) (y ∷ m) al am h =
    let e = same_head x y l m al.2 am.2 h in
    let rest = same_tail x y l m al.2 am.2 h e in
    ap₂ (λ (a : ℕ) (t : List ℕ). a ∷ t) e
      (Above-unique x l m al.2 (Above-weaken y x m (omega (arith, e)) am.2) rest)
