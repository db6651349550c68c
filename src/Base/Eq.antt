-- ===== src/Base/Eq.antt =====
-- `Eq`: a Boolean test of equality, with its laws.
use mathlib.Core.Path.{◌≡◌, refl, ap₂}
use mathlib.Core.Bool.{Bool, true, false, ◌&&◌}
use mathlib.Core.List.{List, [], ◌∷◌}
use Prim.Native.Nat.{ℕ}
use native.Mathlib.Omega.{arith}
use esbt_web.Base.Tests.{◌==◌, ==_refl}

pub record Eq (A : Type 0) : Type 0 where
  pub eqb : A → A → Bool
  pub eqb_sound : (a b : A) → eqb a b ≡ true → a ≡ b
  pub eqb_refl : (a : A) → eqb a a ≡ true

pub eqb_sound_ℕ : (a b : ℕ) → (a == b) ≡ true → a ≡ b
eqb_sound_ℕ a b h = ground arith

instance abbrev pub nat_eq : Eq ℕ
nat_eq = record { eqb = λ a b. a == b; eqb_sound = eqb_sound_ℕ; eqb_refl = ==_refl }

module _ {A B : Type 0} ⦃a : Eq A⦄ ⦃b : Eq B⦄ where
  abbrev pub eqb_pair : A × B → A × B → Bool
  eqb_pair x y = a.eqb x.0 y.0 && b.eqb x.1 y.1

  pub eqb_pair_sound : (x y : A × B) → eqb_pair x y ≡ true → x ≡ y
  eqb_pair_sound x y h =
      ap₂ (λ u v. (u, v)) (a.eqb_sound x.0 y.0 (ground arith)) (b.eqb_sound x.1 y.1 (ground arith))

  pub eqb_pair_refl : (x : A × B) → eqb_pair x x ≡ true
  eqb_pair_refl x = ground (arith, a.eqb_refl x.0, b.eqb_refl x.1)

  instance abbrev pub pair_eq : Eq (A × B)
  pair_eq = record { eqb = eqb_pair; eqb_sound = eqb_pair_sound; eqb_refl = eqb_pair_refl }

module _ {A : Type 0} ⦃a : Eq A⦄ where
  abbrev pub eqb_list : List A → List A → Bool
  eqb_list [] [] = true
  eqb_list [] (y ∷ ys) = false
  eqb_list (x ∷ xs) [] = false
  eqb_list (x ∷ xs) (y ∷ ys) = a.eqb x y && eqb_list xs ys

  pub eqb_list_sound : (xs ys : List A) → eqb_list xs ys ≡ true → xs ≡ ys
  eqb_list_sound [] [] h = refl
  eqb_list_sound [] (y ∷ ys) h = absurd (ground arith)
  eqb_list_sound (x ∷ xs) [] h = absurd (ground arith)
  eqb_list_sound (x ∷ xs) (y ∷ ys) h =
      ap₂ (λ u v. u ∷ v) (a.eqb_sound x y (ground arith)) (eqb_list_sound xs ys (ground arith))

  pub eqb_list_refl : (xs : List A) → eqb_list xs xs ≡ true
  eqb_list_refl [] = refl
  eqb_list_refl (x ∷ xs) = ground (arith, a.eqb_refl x, eqb_list_refl xs)

  instance abbrev pub list_eq : Eq (List A)
  list_eq = record { eqb = eqb_list; eqb_sound = eqb_list_sound; eqb_refl = eqb_list_refl }
