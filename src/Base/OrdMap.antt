-- ===== src/Base/OrdMap.antt =====
-- `BTreeMap` with numbers for keys: a list of entries in ascending order of the keys.
use Prim.Native.Nat.{ℕ, ◌≤◌, ◌<◌}
use mathlib.Core.Path.{◌≡◌, refl}
use mathlib.Core.Option.{Option, none, some}
use mathlib.Core.List.{List, [], ◌∷◌}
use native.Mathlib.Omega.{arith}
use mathlib.Core.Logic.{inl, inr}
use esbt_web.Base.Tests.{Bool-cases, ltb, ◌==◌, if◌then◌else◌}

module _ {ℓ} {V : Type ℓ} where
  unfoldable pub lookup : ℕ → List (ℕ × V) → Option V
  lookup k [] = none
  lookup k ((j, v) ∷ m) = if k == j then some v else lookup k m

  unfoldable pub insert : ℕ → V → List (ℕ × V) → List (ℕ × V)
  insert k v [] = (k, v) ∷ []
  insert k v ((j, w) ∷ m) =
      if ltb k j then (k, v) ∷ (j, w) ∷ m else if k == j then (k, v) ∷ m else (j, w) ∷ insert k v m

  unfoldable pub remove : ℕ → List (ℕ × V) → List (ℕ × V)
  remove k [] = []
  remove k ((j, w) ∷ m) = if k == j then remove k m else (j, w) ∷ remove k m

  -- The keys ascend, and are all above `b`.
  abbrev pub Keyed : ℕ → List (ℕ × V) → Type 0
  Keyed b [] = Unit
  Keyed b ((k, v) ∷ m) = (b < k) × Keyed k m

module _ {ℓ} {V : Type ℓ} where
  pub lookup-insert :
      (k j : ℕ) (v : V) (m : List (ℕ × V))
      → lookup k (insert j v m) ≡ (if k == j then some v else lookup k m)
  unfolding lookup insert
  lookup-insert k j v [] = refl
  lookup-insert k j v ((i, w) ∷ m) = ground (arith, lookup-insert k j v m)

  pub lookup-remove :
      (k j : ℕ) (m : List (ℕ × V)) → lookup k (remove j m) ≡ (if k == j then none else lookup k m)
  unfolding lookup remove
  lookup-remove k j [] = ground arith
  lookup-remove k j ((i, w) ∷ m) = ground (arith, lookup-remove k j m)

  pub insert-Keyed :
      (b k : ℕ) (v : V) (m : List (ℕ × V)) → Keyed b m → b < k → Keyed b (insert k v m)
  unfolding insert
  insert-Keyed b k v [] a h = (h, tt)
  insert-Keyed b k v ((j, w) ∷ m) a h = ground (arith, insert-Keyed j k v m a.1)

  pub Keyed-weaken : (b c : ℕ) (m : List (ℕ × V)) → c ≤ b → Keyed b m → Keyed c m
  Keyed-weaken b c [] h a = tt
  Keyed-weaken b c ((k, v) ∷ m) h a = (omega arith, a.1)

  pub lookup-Keyed : (k b : ℕ) (m : List (ℕ × V)) → Keyed b m → k ≤ b → lookup k m ≡ none
  unfolding lookup
  lookup-Keyed k b [] a h = refl
  lookup-Keyed k b ((j, w) ∷ m) a h = ground (arith, lookup-Keyed k j m a.1)

  pub insert-insert :
      (k : ℕ) (v w : V) (m : List (ℕ × V)) → insert k v (insert k w m) ≡ insert k v m
  unfolding insert
  insert-insert k v w [] = ground arith
  insert-insert k v w ((j, u) ∷ m) = ground (arith, insert-insert k v w m)

  pub remove-Keyed_self : (b k : ℕ) (m : List (ℕ × V)) → Keyed b m → k ≤ b → remove k m ≡ m
  unfolding remove
  remove-Keyed_self b k [] a h = refl
  remove-Keyed_self b k ((j, w) ∷ m) a h = ground (arith, remove-Keyed_self j k m a.1)

  pub remove-Keyed : (b k : ℕ) (m : List (ℕ × V)) → Keyed b m → Keyed b (remove k m)
  unfolding remove
  remove-Keyed b k [] a = tt
  remove-Keyed b k ((j, w) ∷ m) a = elim (Bool-cases (k == j)) [
    | inl same ↦ rw same (Keyed-weaken j b (remove k m) (omega arith) (remove-Keyed j k m a.1))
    | inr other ↦ rw other (a.0, remove-Keyed j k m a.1)
  ]
