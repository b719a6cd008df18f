-- ===== src/Prelude/Equality.antt =====
-- Equality tests as an interface: Rust's derived `PartialEq`.
use mathlib.Core.Path.{◌≡◌, refl}
use mathlib.Core.Logic.{◌↔◌, ◌⊎◌, inl, inr, ◌≢◌}
use mathlib.Core.Bool.{Bool, true, false, ◌&&◌}
use mathlib.Core.Option.{Option, none, some}
use mathlib.Core.List.{List, [], ◌∷◌}
use native.Mathlib.Omega.{arith}
use Prim.Native.Nat.{ℕ}
use ghaf_givc.Prelude.Tests.{nat_beq, nat_beq_iff}

pub record Eq {ℓ} (A : Type ℓ) : Type ℓ where
  pub beq : A → A → Bool
  pub beq_iff : (x y : A) → (beq x y ≡ true) ↔ (x ≡ y)

infix 50 ◌==◌
abbrev pub ◌==◌ {ℓ} : {A : Type ℓ} ⦃test : Eq A⦄ → A → A → Bool
◌==◌ ⦃test⦄ = test.beq

module _ {ℓ} {A : Type ℓ} ⦃test : Eq A⦄ where
  pub eq_iff : (a b : A) → (a == b ≡ true) ↔ (a ≡ b)
  eq_iff a b = test.beq_iff a b

  pub eq_refl : (a : A) → a == a ≡ true
  eq_refl a = (eq_iff a a).1 refl

  pub eq_cases : (a b : A) → (a ≡ b) × (a == b ≡ true) ⊎ (a ≢ b) × (a == b ≡ false)
  eq_cases a b = split (a == b) refl
    where
      split : (t : Bool) → a == b ≡ t → (a ≡ b) × (a == b ≡ true) ⊎ (a ≢ b) × (a == b ≡ false)
      split true h = inl ((eq_iff a b).0 h, h)
      split false h = inr (λ p. cc ((eq_iff a b).1 p, h), h)

  pub ne→eq_false : (a b : A) → a ≢ b → a == b ≡ false
  ne→eq_false a b h = elim (eq_cases a b) [ inl (p, _) ↦ absurd (h p) | inr (_, f) ↦ f ]

  unfoldable pub list_beq : List A → List A → Bool
  list_beq [] [] = true
  list_beq (x ∷ xs) (y ∷ ys) = x == y && list_beq xs ys
  list_beq _ _ = false

  pub list_beq_iff : (xs ys : List A) → (list_beq xs ys ≡ true) ↔ (xs ≡ ys)
  unfolding list_beq
  list_beq_iff (x ∷ xs) (y ∷ ys) = ground (arith, eq_iff x y, list_beq_iff xs ys)
  list_beq_iff _ _ = ground arith

  unfoldable pub option_beq : Option A → Option A → Bool
  option_beq none none = true
  option_beq (some x) (some y) = x == y
  option_beq _ _ = false

  pub option_beq_iff : (o p : Option A) → (option_beq o p ≡ true) ↔ (o ≡ p)
  unfolding option_beq
  option_beq_iff (some x) (some y) = ground (arith, eq_iff x y)
  option_beq_iff _ _ = ground arith

  instance abbrev pub list_eq : Eq (List A)
  list_eq = record { beq = list_beq; beq_iff = list_beq_iff }

  instance abbrev pub option_eq : Eq (Option A)
  option_eq = record { beq = option_beq; beq_iff = option_beq_iff }

instance abbrev pub nat_eq : Eq ℕ
nat_eq = record { beq = nat_beq; beq_iff = nat_beq_iff }
