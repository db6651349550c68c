-- ===== src/Base/Table.antt =====
-- `HashMap` and `HashSet`: a list of entries, of which the order says nothing.
use mathlib.Core.Path.{◌≡◌, refl, ap, sym, ◌∙◌}
use mathlib.Core.Logic.{inl, inr}
use mathlib.Core.Bool.{Bool, true, false, not, ◌&&◌, ◌||◌}
use mathlib.Core.Option.{Option, none, some}
use mathlib.Core.List.{List, [], ◌∷◌}
use native.Mathlib.Omega.{arith}
use esbt_web.Base.Tests.{if◌then◌else◌, Bool-cases}
use esbt_web.Base.Eq.{Eq}

-- Equal keys are told apart from the same third keys.
same_key : {K : Type 0} ⦃e : Eq K⦄ (k j i : K) → e.eqb k j ≡ true → e.eqb j i ≡ e.eqb k i
same_key ⦃e⦄ k j i h = ap (λ x. e.eqb x i) (sym (e.eqb_sound k j h))

module _ {K V : Type 0} ⦃e : Eq K⦄ where
  unfoldable pub lookup : K → List (K × V) → Option V
  lookup k [] = none
  lookup k ((j, v) ∷ m) = if e.eqb k j then some v else lookup k m

  unfoldable pub insert : K → V → List (K × V) → List (K × V)
  insert k v [] = (k, v) ∷ []
  insert k v ((j, w) ∷ m) = if e.eqb k j then (k, v) ∷ m else (j, w) ∷ insert k v m

  unfoldable pub remove : K → List (K × V) → List (K × V)
  remove k [] = []
  remove k ((j, w) ∷ m) = if e.eqb k j then remove k m else (j, w) ∷ remove k m

  pub lookup-insert :
      (k j : K) (v : V) (m : List (K × V))
      → lookup k (insert j v m) ≡ (if e.eqb k j then some v else lookup k m)
  unfolding lookup insert
  lookup-insert k j v [] = refl
  lookup-insert k j v ((i, w) ∷ m) =
      ground (arith, lookup-insert k j v m, same_key k j i, e.eqb_sound j i)

  pub lookup-remove :
      (k j : K) (m : List (K × V))
      → lookup k (remove j m) ≡ (if e.eqb k j then none else lookup k m)
  unfolding lookup remove
  lookup-remove k j [] = ground arith
  lookup-remove k j ((i, w) ∷ m) =
      ground (arith, lookup-remove k j m, same_key k j i, e.eqb_sound j i)

module _ {K : Type 0} ⦃e : Eq K⦄ where
  unfoldable pub member : K → List K → Bool
  member k [] = false
  member k (j ∷ s) = e.eqb k j || member k s

  unfoldable pub add : K → List K → List K
  unfolding member
  add k s = if member k s then s else k ∷ s

  unfoldable pub discard : K → List K → List K
  discard k [] = []
  discard k (j ∷ s) = if e.eqb k j then discard k s else j ∷ discard k s

  pub member-add : (k j : K) (s : List K) → member k (add j s) ≡ (e.eqb k j || member k s)
  unfolding member add
  member-add k j s = elim (Bool-cases (member j s)) [
    | inl there ↦ elim (Bool-cases (e.eqb k j)) [
      | inl same ↦ rw (there, same) (ap (λ x. member x s) (e.eqb_sound k j same) ∙ there)
      | inr other ↦ rw (there, other) refl
    ]
    | inr new ↦ rw new refl
  ]

  pub member-discard :
      (k j : K) (s : List K) → member k (discard j s) ≡ (not (e.eqb k j) && member k s)
  unfolding member discard
  member-discard k j [] = ground arith
  member-discard k j (i ∷ s) = ground (arith, member-discard k j s, same_key k j i, e.eqb_sound j i)
