-- ===== src/Text/Fresh.antt =====
-- Candidates for a name, and the names that are taken.
use ghaf_givc.Prelude.{
  ℕ, zero, suc, ◌+◌, ◌≤◌, ◌<◌, ◌≡◌, ◌≢◌, inl, inr, Bool, true, false, ◌||◌, List, [], ◌∷◌, arith,
  if◌then◌else◌, ◌==◌, eq_iff, eq_cases, list_eq, option_eq, nat_eq, length,
}
use ghaf_givc.Text.Defs.{Text}

-- `Vec::contains`
unfoldable pub contains : List Text → Text → Bool
contains [] x = false
contains (y ∷ ys) x = y == x || contains ys x

-- The list without the first occurrence of the text.
without : Text → List Text → List Text
without x [] = []
without x (y ∷ ys) = if y == x then ys else y ∷ without x ys

length-without :
    (x : Text) (ys : List Text) → contains ys x ≡ true → length ys ≡ suc (length (without x ys))
unfolding without contains
length-without x [] h = cc
length-without x (y ∷ ys) h = ground (arith, length-without x ys)

contains-without :
    (x y : Text) (ys : List Text) → y ≢ x → contains ys y ≡ true → contains (without x ys) y ≡ true
unfolding without contains
contains-without x y [] n h = h
contains-without x y (z ∷ ys) n h =
    ground (arith, contains-without x y ys n, eq_iff z x, eq_iff z y)

module _ (candidate : ℕ → Text) where
  -- Every candidate from `i` on, as many as are left, is used.
  unfoldable pub AllUsed : ℕ → ℕ → List Text → Type 0
  AllUsed left i used = (n : ℕ) → i ≤ n → n < i + left → contains used (candidate n) ≡ true

  pub used_enough :
      ((m n : ℕ) → candidate m ≡ candidate n → m ≡ n)
      → (left i : ℕ) (used : List Text) → AllUsed left i used
      → left ≤ length used
  unfolding AllUsed
  used_enough injective zero i used h = omega arith
  used_enough injective (suc left) i used h =
      let first = h i (omega arith) (omega arith) in
      let rest = used_enough injective left (i + 1) (without (candidate i) used) (λ n from below.
        contains-without (candidate i) (candidate n) used
          (λ e. absurd (omega (arith, injective n i e))) (h n (omega arith) (omega arith))) in
      omega (arith, length-without (candidate i) used first)

  pub AllUsed-cons :
      (left i : ℕ) (used : List Text)
      → contains used (candidate i) ≡ true
      → AllUsed left (i + 1) used
      → AllUsed (suc left) i used
  unfolding AllUsed
  AllUsed-cons left i used first rest n from below = elim (eq_cases n i) [
    | inl (e, _) ↦ rw e first
    | inr (e, _) ↦ rest n (omega arith) (omega arith)
  ]
