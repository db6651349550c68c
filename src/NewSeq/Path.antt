-- ===== src/NewSeq/Path.antt =====
-- src/newseq.rs: the path that `newseq_unbounded` makes lies between its neighbours.
use esbt_web.Base.{
  ℕ, zero, suc, ◌+◌, ◌-◌, ◌<◌, ◌≤◌, max, Ordering, ◌≡◌, Bool, true, false, ◌&&◌, ◌==◌, List, [],
  ◌∷◌, length, All, arith, ◌↔◌, Bool-cases, inl, inr,
}
use esbt_web.Weight.{sc_cmp}
use esbt_web.NewSeq.{
  AllocationStrategy, behind, newseq, newseq_loop, newseq_unbounded, unbounded_loop, u32_max,
}
use esbt_web.NewSeq.Choose.{choose_between}

abbrev pub IsPath : List ℕ → Type 0
IsPath l = All (λ d. d ≤ u32_max) l

-- Whether `right` is `left` with zeros behind it. No path without a trailing zero lies between these.
unfoldable pub zero_extension : List ℕ → List ℕ → Bool
zero_extension [] [] = true
zero_extension [] (y ∷ ys) = (y == 0) && zero_extension [] ys
zero_extension (x ∷ xs) [] = false
zero_extension (x ∷ xs) (y ∷ ys) = (x == y) && zero_extension xs ys

module _ (base : ℕ) (s : AllocationStrategy) (lower : 2 ≤ base) (upper : base ≤ u32_max) where
  loop_above :
      (rounds depth : ℕ) (left right : List ℕ)
      → IsPath right
      → length left < rounds
      → length right < rounds
      → sc_cmp left (unbounded_loop rounds depth left right base s) ≡ Ordering.lt
  unfolding sc_cmp unbounded_loop
  loop_above zero depth left right h l r = absurd (omega arith)
  loop_above (suc n) depth [] [] h l r = ground arith
  loop_above (suc n) depth [] (y ∷ ys) h l r = ground arith
  loop_above (suc n) depth (x ∷ xs) [] h l r = ground (
    arith,
    choose_between s x base depth,
    loop_above n (depth + 1) xs [] tt (omega arith) (omega arith),
  )
  loop_above (suc n) depth (x ∷ xs) (y ∷ ys) h l r = ground (
    arith,
    choose_between s x y depth,
    loop_above n (depth + 1) xs ys h.1 (omega arith) (omega arith),
  )

  loop_below :
      (rounds depth : ℕ) (left right : List ℕ)
      → IsPath right
      → length right < rounds
      → sc_cmp left right ≡ Ordering.lt
      → zero_extension left right ≡ false
      → sc_cmp (unbounded_loop rounds depth left right base s) right ≡ Ordering.lt
  unfolding sc_cmp unbounded_loop zero_extension
  loop_below zero depth left right h r c z = absurd (omega arith)
  loop_below (suc n) depth [] [] h r c z = cc
  loop_below (suc n) depth (x ∷ xs) [] h r c z = cc
  loop_below (suc n) depth [] (y ∷ []) h r c z = ground (arith, choose_between s 0 y depth)
  loop_below (suc n) depth [] (y ∷ w ∷ ys) h r c z =
      ground
        (arith, choose_between s 0 y depth, loop_below n (depth + 1) [] (w ∷ ys) h.1 (omega arith))
  loop_below (suc n) depth (x ∷ xs) (y ∷ ys) h r c z =
      ground (arith, choose_between s x y depth, loop_below n (depth + 1) xs ys h.1 (omega arith))

  -- Where the right neighbour is the left one with zeros behind it, the walk copies it and goes on.
  loop_beyond :
      (rounds depth : ℕ) (left right : List ℕ)
      → length right < rounds
      → zero_extension left right ≡ true
      → sc_cmp (unbounded_loop rounds depth left right base s) right ≡ Ordering.gt
  unfolding sc_cmp unbounded_loop zero_extension
  loop_beyond zero depth left right r z = absurd (omega arith)
  loop_beyond (suc n) depth [] [] r z = ground arith
  loop_beyond (suc n) depth (x ∷ xs) [] r z = absurd cc
  loop_beyond (suc n) depth [] (y ∷ ys) r z =
      ground (arith, loop_beyond n (depth + 1) [] ys (omega arith))
  loop_beyond (suc n) depth (x ∷ xs) (y ∷ ys) r z =
      ground (arith, loop_beyond n (depth + 1) xs ys (omega arith))

-- If the digits of the right path are `u32` values, the base is one too, and the right path is above
-- the left one, then the path of the uncapped walk is above the left one, whatever the strategy, and
-- it is below the right one exactly where the right one is not the left one with zeros behind it.
pub newseq_unbounded_between :
    (left right : List ℕ) (base : ℕ) (s : AllocationStrategy)
    → IsPath right
    → base ≤ u32_max
    → sc_cmp left right ≡ Ordering.lt
    → (sc_cmp left (newseq_unbounded left right base s) ≡ Ordering.lt)
      × ((sc_cmp (newseq_unbounded left right base s) right ≡ Ordering.lt)
          ↔ (zero_extension left right ≡ false))
unfolding newseq_unbounded
newseq_unbounded_between left right base s h u c =
    let rounds = max (length left) (length right) + 1 + 1 in
    let b = max base 2 in
    let low : 2 ≤ b = omega arith in
    let high : b ≤ u32_max = omega arith in
    (
      loop_above b s low high rounds 0 left right h (omega arith) (omega arith),
      (
        λ below. elim (Bool-cases (zero_extension left right)) [
          | inl extended ↦
              let beyond = loop_beyond b s low high rounds 0 left right (omega arith) extended in
              absurd cc
          | inr apart ↦ apart
        ],
        loop_below b s low high rounds 0 left right h (omega arith) c,
      ),
    )

length-newseq_loop :
    (rounds depth : ℕ) (left right : List ℕ) (base site : ℕ) (s : AllocationStrategy)
    → (0 < length (newseq_loop rounds depth left right base site s))
      × (length (newseq_loop rounds depth left right base site s) ≤ rounds + 2)
unfolding newseq_loop
length-newseq_loop zero depth left right base site s = ground arith
length-newseq_loop (suc n) depth left right base site s =
    ground (arith, length-newseq_loop n (depth + 1) (behind left) (behind right) base site s)

-- The capped walk gives a path that is not empty and has at most one digit more than the depth
-- allows.
pub length-newseq :
    (left right : List ℕ) (base max_depth site : ℕ) (s : AllocationStrategy)
    → (0 < length (newseq left right base max_depth site s))
      × (length (newseq left right base max_depth site s) ≤ max max_depth 1 + 1)
unfolding newseq
length-newseq left right base max_depth site s =
    omega (arith, length-newseq_loop (max max_depth 1 - 1) 0 left right (max base 2) site s)
