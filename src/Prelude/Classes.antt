-- ===== src/Prelude/Classes.antt =====
-- Equality of keys, as an interface.
use Prim.Native.Nat.{ℕ}
use Prim.Native.String.{String}
use mathlib.Core.Path.{◌≡◌, refl}
use mathlib.Core.Logic.{◌↔◌}
use mathlib.Core.Bool.{Bool, true, false, ◌&&◌}
use mathlib.Core.List.{List, [], ◌∷◌}
use native.Mathlib.Omega.{arith}
use text.Mathlib.Text.{◌==◌ as str_eq}
use text.Mathlib.TextEquality.{eq_iff}
use torch_checkpointing.Prelude.Tests.{eqb, eqb_iff}

-- `__eq__`, which decides equality.
pub record Eq {ℓ} (Value : Type ℓ) : Type ℓ where
  pub equal : Value → Value → Bool
  pub equal_iff : (v w : Value) → (equal v w ≡ true) ↔ (v ≡ w)

module _ {ℓ} {A : Type ℓ} ⦃e : Eq A⦄ where
  abbrev pub list_beq : List A → List A → Bool
  list_beq [] [] = true
  list_beq (x ∷ xs) (y ∷ ys) = e.equal x y && list_beq xs ys
  list_beq _ _ = false

  list_beq_sound : (xs ys : List A) → list_beq xs ys ≡ true → xs ≡ ys
  list_beq_sound [] [] h = refl
  list_beq_sound [] (y ∷ ys) h = cc
  list_beq_sound (x ∷ xs) [] h = cc
  list_beq_sound (x ∷ xs) (y ∷ ys) h = ground (arith, e.equal_iff x y, list_beq_sound xs ys)

  list_beq_refl : (xs : List A) → list_beq xs xs ≡ true
  list_beq_refl [] = refl
  list_beq_refl (x ∷ xs) = ground (arith, e.equal_iff x x, list_beq_refl xs)

  pub list_beq_iff : (xs ys : List A) → (list_beq xs ys ≡ true) ↔ (xs ≡ ys)
  list_beq_iff xs ys = (list_beq_sound xs ys, λ p. ground (arith, list_beq_refl xs))

  instance abbrev pub list_eq : Eq (List A)
  list_eq = record { equal_iff = list_beq_iff; equal = list_beq }

instance abbrev pub string_eq : Eq String
string_eq = record { equal_iff = eq_iff; equal = str_eq }

infix 50 ◌==◌
abbrev pub ◌==◌ {ℓ} : {Value : Type ℓ} ⦃has : Eq Value⦄ → Value → Value → Bool
◌==◌ ⦃has⦄ v w = has.equal v w

instance abbrev pub nat_eq : Eq ℕ
nat_eq = record { equal_iff = eqb_iff; equal = eqb }

module _ {ℓ κ} {A : Type ℓ} {B : Type κ} ⦃e : Eq A⦄ ⦃f : Eq B⦄ where
  abbrev pub pair_beq : A × B → A × B → Bool
  pair_beq v w = e.equal v.0 w.0 && f.equal v.1 w.1

  pub pair_beq_iff : (v w : A × B) → (pair_beq v w ≡ true) ↔ (v ≡ w)
  pair_beq_iff v w = ground (arith, e.equal_iff v.0 w.0, f.equal_iff v.1 w.1)

  instance abbrev pub pair_eq : Eq (A × B)
  pair_eq = record { equal_iff = pair_beq_iff; equal = pair_beq }
