-- ===== src/Prelude/Lists.antt =====
-- Lists measured by native numbers, and the searches of Rust's iterators.
use Prim.Native.Nat.{ℕ, zero, suc, ◌+◌, ◌≤◌}
use mathlib.Core.Path.{◌≡◌, refl, subst, ap}
use mathlib.Core.Logic.{◌⊎◌, inl, inr}
use mathlib.Core.Bool.{Bool, true, false, ◌||◌}
use mathlib.Core.List.{List, [], ◌∷◌, ◌++◌}
use mathlib.Core.Option.{Option, none, some}
use native.Mathlib.Omega.{arith}
use ghaf_givc.Prelude.Tests.{if◌then◌else◌, Bool-cases}

module _ {ℓ} {A : Type ℓ} where
  abbrev pub length : List A → ℕ
  length [] = 0
  length (x ∷ xs) = suc (length xs)

  abbrev pub take : ℕ → List A → List A
  take zero xs = []
  take (suc n) [] = []
  take (suc n) (x ∷ xs) = x ∷ take n xs

  abbrev pub drop : ℕ → List A → List A
  drop zero xs = xs
  drop (suc n) [] = []
  drop (suc n) (x ∷ xs) = drop n xs

  pub length-append : (xs ys : List A) → length (xs ++ ys) ≡ length xs + length ys
  length-append [] ys = omega arith
  length-append (x ∷ xs) ys = omega (arith, length-append xs ys)

  pub length-take_of_le : (n : ℕ) (xs : List A) → n ≤ length xs → length (take n xs) ≡ n
  length-take_of_le zero xs h = refl
  length-take_of_le (suc n) [] h = elim h [ ]
  length-take_of_le (suc n) (x ∷ xs) h = omega (arith, length-take_of_le n xs (omega arith))

  pub take-append : (xs ys : List A) → take (length xs) (xs ++ ys) ≡ xs
  take-append [] ys = refl
  take-append (x ∷ xs) ys = rw (take-append xs ys)

  pub drop-append : (xs ys : List A) → drop (length xs) (xs ++ ys) ≡ ys
  drop-append [] ys = refl
  drop-append (x ∷ xs) ys = drop-append xs ys

  -- Every element satisfies `P`; computes to a tuple.
  abbrev pub All {κ} : (A → Type κ) → List A → Type κ
  All P [] = Unit
  All P (x ∷ xs) = P x × All P xs

  -- Some element satisfies `P`.
  abbrev pub Any : (A → Type 0) → List A → Type 0
  Any P [] = ⊥
  Any P (x ∷ xs) = P x ⊎ Any P xs

  unfoldable pub any : (A → Bool) → List A → Bool
  any p [] = false
  any p (x ∷ xs) = p x || any p xs

  -- `Iterator::find`
  unfoldable pub find : (A → Bool) → List A → Option A
  find p [] = none
  find p (x ∷ xs) = if p x then some x else find p xs

abbrev pub Member : {A : Type 0} → A → List A → Type 0
Member {A} x [] = ⊥
Member {A} x (y ∷ ys) = (y ≡ x) ⊎ Member x ys

-- What a search finds stands in the list and passes the test.
pub find_sound :
    {A : Type 0} (p : A → Bool) (xs : List A) {x : A}
    → find p xs ≡ some x
    → Member x xs × (p x ≡ true)
unfolding find
find_sound p [] e = cc
find_sound p (y ∷ ys) {x} e = elim (Bool-cases (p y)) [
  | inl t ↦ let same : y ≡ x = ground arith in (inl same, rw (← same) t)
  | inr f ↦ let (m, q) = find_sound p ys (rw (f, find) at e) in (inr m, q)
]

-- A search finds something where an element passes the test.
pub find_complete :
    {A : Type 0} (p : A → Bool) (xs : List A) (x : A)
    → Member x xs
    → p x ≡ true
    → (y : A) × (find p xs ≡ some y)
unfolding find
find_complete p [] x m h = elim m [ ]
find_complete p (z ∷ zs) x m h = elim (Bool-cases (p z)) [
  | inl t ↦ (z, rw t refl)
  | inr f ↦ elim m [
    | inl same ↦ absurd (cc (f, h, ap p same))
    | inr later ↦ let (y, e) = find_complete p zs x later h in (y, rw f e)
  ]
]

-- A test holds of some element exactly if it is true of one that stands in the list.
pub any_sound :
    {A : Type 0} (p : A → Bool) (xs : List A)
    → any p xs ≡ true
    → (x : A) × Member x xs × (p x ≡ true)
unfolding any
any_sound p [] e = cc
any_sound p (y ∷ ys) e = elim (Bool-cases (p y)) [
  | inl t ↦ (y, inl refl, t)
  | inr f ↦ let (x, m, q) = any_sound p ys (rw (f, any) at e) in (x, inr m, q)
]

pub any_complete :
    {A : Type 0} (p : A → Bool) (xs : List A) (x : A) → Member x xs → p x ≡ true → any p xs ≡ true
unfolding any
any_complete p [] x m h = elim m [ ]
any_complete p (y ∷ ys) x (inl e) h = rw (e, h)
any_complete p (y ∷ ys) x (inr m) h = ground (arith, any_complete p ys x m h)

-- `Iterator::filter`
unfoldable pub filter_by {ℓ} : {A : Type ℓ} → (A → Bool) → List A → List A
filter_by p [] = []
filter_by p (x ∷ xs) = if p x then x ∷ filter_by p xs else filter_by p xs

-- Exactly one element of the list passes the test, and it is `x`.
pub data Only {A : Type 0} (p : A → Bool) (x : A) : List A → Type 0 where
  here : {xs : List A} → p x ≡ true → filter_by p xs ≡ [] → Only p x (x ∷ xs)
  there : {y : A} {xs : List A} → p y ≡ false → Only p x xs → Only p x (y ∷ xs)

pub Only-passes : {A : Type 0} {p : A → Bool} {x : A} {xs : List A} → Only p x xs → p x ≡ true
Only-passes (here t _) = t
Only-passes (there _ o) = Only-passes o

pub filter_by-Only :
    {A : Type 0} (p : A → Bool) (xs : List A) {x : A} → filter_by p xs ≡ x ∷ [] → Only p x xs
unfolding filter_by
filter_by-Only p [] e = cc
filter_by-Only p (y ∷ ys) {x} e = elim (Bool-cases (p y)) [
  | inl t ↦ subst (λ z. Only p z (y ∷ ys)) (ground arith) (here t (ground arith))
  | inr f ↦ there f (filter_by-Only p ys (rw (f, filter_by) at e))
]
