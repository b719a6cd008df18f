-- ===== src/Text/Split.antt =====
-- What the splitting methods return, and how it fits the text that they split.
use ghaf_givc.Prelude.{
  ℕ, ◌≡◌, ◌≢◌, refl, ap, none, some, List, [], ◌∷◌, ◌++◌, nat_eq, list_eq, inl, inr, eq_iff,
  eq_refl, arith, Option-cases, All, length, length-append, ne→eq_false,
}
use ghaf_givc.Text.Defs.{Text, split_once, rsplit_once, strip_prefix, strip_suffix}

-- The text does not hold the character.
abbrev pub Lacks : ℕ → Text → Type 0
Lacks sep s = All (λ c. c ≢ sep) s

pub rsplit_once-Lacks : (sep : ℕ) (s : Text) → Lacks sep s → rsplit_once sep s ≡ none
unfolding rsplit_once
rsplit_once-Lacks sep [] h = refl
rsplit_once-Lacks sep (c ∷ s) h = ground (arith, rsplit_once-Lacks sep s h.1, eq_iff c sep)

pub rsplit_once-append :
    (sep : ℕ) (l r : Text) → Lacks sep r → rsplit_once sep (l ++ sep ∷ r) ≡ some (l, r)
unfolding rsplit_once
rsplit_once-append sep [] r h = ground (arith, rsplit_once-Lacks sep r h, eq_iff sep sep)
rsplit_once-append sep (c ∷ l) r h = ground (arith, rsplit_once-append sep l r h)

-- A split gives back the text, and its right side lacks the separator.
abbrev pub SplitsAt : ℕ → Text → Text → Text → Type 0
SplitsAt sep s l r = s ≡ l ++ sep ∷ r

rsplit_once-none : (sep : ℕ) (s : Text) → rsplit_once sep s ≡ none → Lacks sep s
unfolding rsplit_once
rsplit_once-none sep [] h = tt
rsplit_once-none sep (c ∷ s) h = ground (arith, rsplit_once-none sep s, eq_iff c sep)

pub rsplit_once_sound :
    (sep : ℕ) (s : Text) {l r : Text}
    → rsplit_once sep s ≡ some (l, r)
    → (s ≡ l ++ sep ∷ r) × Lacks sep r
unfolding rsplit_once
rsplit_once_sound sep [] h = ground arith
rsplit_once_sound sep (c ∷ s) h = elim (Option-cases (rsplit_once sep s)) [
  | inl e ↦ ground (arith, rsplit_once-none sep s e, eq_iff c sep)
  | inr (p, e) ↦ ground (arith, rsplit_once_sound sep s e, eq_iff c sep)
]

pub split_once-Lacks : (sep : ℕ) (s : Text) → Lacks sep s → split_once sep s ≡ none
unfolding split_once
split_once-Lacks sep [] h = refl
split_once-Lacks sep (c ∷ s) h = ground (arith, split_once-Lacks sep s h.1, eq_iff c sep)

pub split_once-append :
    (sep : ℕ) (l r : Text) → Lacks sep l → split_once sep (l ++ sep ∷ r) ≡ some (l, r)
unfolding split_once
split_once-append sep [] r h = ground (arith, eq_iff sep sep)
split_once-append sep (c ∷ l) r h = ground (arith, eq_iff c sep, split_once-append sep l r h.1)

pub split_once_sound :
    (sep : ℕ) (s : Text) {l r : Text}
    → split_once sep s ≡ some (l, r)
    → (s ≡ l ++ sep ∷ r) × Lacks sep l
unfolding split_once
split_once_sound sep [] h = ground arith
split_once_sound sep (c ∷ s) h = elim (Option-cases (split_once sep s)) [
  | inl e ↦ ground (arith, eq_iff c sep)
  | inr (p, e) ↦ ground (arith, split_once_sound sep s e, eq_iff c sep)
]

pub strip_prefix-append : (p s : Text) → strip_prefix p (p ++ s) ≡ some s
unfolding strip_prefix
strip_prefix-append [] s = refl
strip_prefix-append (c ∷ p) s = ground (arith, eq_iff c c, strip_prefix-append p s)

pub strip_prefix_sound : (p s : Text) {r : Text} → strip_prefix p s ≡ some r → s ≡ p ++ r
unfolding strip_prefix
strip_prefix_sound [] s h = ground arith
strip_prefix_sound (c ∷ p) [] h = ground arith
strip_prefix_sound (c ∷ p) (d ∷ s) {r} h =
    ground (arith, eq_iff d c, strip_prefix_sound p s {r = r})

pub strip_suffix-append : (s p : Text) → strip_suffix p (s ++ p) ≡ some s
unfolding strip_suffix
strip_suffix-append [] [] = rw (eq_refl {A = List ℕ} [])
strip_suffix-append [] (c ∷ p) = rw (eq_refl (c ∷ p))
strip_suffix-append (c ∷ s) p =
    rw (ne→eq_false p (c ∷ (s ++ p)) (λ e. omega (arith, ap length e, length-append {0} s p)))
      (rw (strip_suffix-append s p))

pub strip_suffix_sound : (p s : Text) {r : Text} → strip_suffix p s ≡ some r → s ≡ r ++ p
unfolding strip_suffix
strip_suffix_sound p [] h = ground (arith, eq_iff p [])
strip_suffix_sound p (c ∷ s) h = elim (Option-cases (strip_suffix p s)) [
  | inl e ↦ ground (arith, eq_iff p (c ∷ s))
  | inr (q, e) ↦ ground (arith, strip_suffix_sound p s e, eq_iff p (c ∷ s))
]

pub Lacks-append : (sep : ℕ) (s t : Text) → Lacks sep s → Lacks sep t → Lacks sep (s ++ t)
Lacks-append sep [] t h k = k
Lacks-append sep (c ∷ s) t h k = (h.0, Lacks-append sep s t h.1 k)
