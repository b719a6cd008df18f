-- ===== src/Text/Patterns.antt =====
-- Regular expressions for a whole text, the texts that they describe, and a matcher.
use ghaf_givc.Prelude.{
  ℕ, ◌≡◌, refl, sym, ap, subst, ◌⊎◌, inl, inr, Bool, true, false, ◌&&◌, ◌||◌, List, [], ◌∷◌, ◌++◌,
  arith, leb, if◌then◌else◌, Bool-cases, &&-eq-true, list_eq, option_eq, nat_eq, All,
}
use ghaf_givc.Text.Defs.{Text}

-- A class is a list of ranges.
pub data Pattern : Type 0 where
  nothing empty_text : Pattern
  one_in : List (ℕ × ℕ) → Pattern
  then_ or_ : Pattern → Pattern → Pattern
  many : Pattern → Pattern

abbrev pub at_least_one : Pattern → Pattern
at_least_one p = then_ p (many p)

abbrev pub maybe : Pattern → Pattern
maybe p = or_ p empty_text

abbrev pub char : ℕ → Pattern
char c = one_in ((c, c) ∷ [])

abbrev pub literal : Text → Pattern
literal [] = empty_text
literal (c ∷ []) = char c
literal (c ∷ d ∷ s) = then_ (char c) (literal (d ∷ s))

abbrev pub in_ranges : List (ℕ × ℕ) → ℕ → Bool
in_ranges [] c = false
in_ranges (r ∷ rs) c = leb r.0 c && leb c r.1 || in_ranges rs c

pub data Repeats (P : Text → Type 0) : Text → Type 0 where
  stop : Repeats P []
  more : (s t : Text) → P s → Repeats P t → Repeats P (s ++ t)

-- The texts that a pattern describes.
abbrev pub Matches : Pattern → Text → Type 0
Matches nothing s = ⊥
Matches empty_text s = s ≡ []
Matches (one_in rs) s = (c : ℕ) × (s ≡ c ∷ []) × (in_ranges rs c ≡ true)
Matches (then_ p q) s = (l : Text) × (r : Text) × (s ≡ l ++ r) × Matches p l × Matches q r
Matches (or_ p q) s = Matches p s ⊎ Matches q s
Matches (many p) s = Repeats (Matches p) s

-- The characters that a pattern mentions.
unfoldable pub mentions : Pattern → ℕ → Bool
mentions nothing c = false
mentions empty_text c = false
mentions (one_in rs) c = in_ranges rs c
mentions (then_ p q) c = mentions p c || mentions q c
mentions (or_ p q) c = mentions p c || mentions q c
mentions (many p) c = mentions p c

-- Every character passes the test.
abbrev pub AllPass : (ℕ → Bool) → Text → Type 0
AllPass test s = All (λ c. test c ≡ true) s

AllPass-append :
    (test : ℕ → Bool) (s t : Text) → AllPass test s → AllPass test t → AllPass test (s ++ t)
AllPass-append test [] t h k = k
AllPass-append test (c ∷ s) t h k = (h.0, AllPass-append test s t h.1 k)

AllPass-or :
    (test other : ℕ → Bool) (s : Text)
    → AllPass test s ⊎ AllPass other s
    → AllPass (λ c. test c || other c) s
AllPass-or test other [] h = tt
AllPass-or test other (c ∷ s) (inl h) = (ground arith, AllPass-or test other s (inl h.1))
AllPass-or test other (c ∷ s) (inr h) = (ground arith, AllPass-or test other s (inr h.1))

Repeats-AllPass :
    (P : Text → Type 0) (test : ℕ → Bool)
    → ((s : Text) → P s → AllPass test s)
    → (s : Text) → Repeats P s
    → AllPass test s
Repeats-AllPass P test h _ stop = tt
Repeats-AllPass P test h _ (more l r hl hr) =
    AllPass-append test l r (h l hl) (Repeats-AllPass P test h r hr)

-- A text that a pattern describes has only characters that the pattern mentions.
pub Matches-mentions : (p : Pattern) (s : Text) → Matches p s → AllPass (mentions p) s
unfolding mentions
Matches-mentions nothing s m = elim m [ ]
Matches-mentions empty_text s m = subst (AllPass (mentions empty_text)) (sym m) tt
Matches-mentions (one_in rs) s (c, e, h) = subst (AllPass (in_ranges rs)) (sym e) (h, tt)
Matches-mentions (then_ p q) s (l, r, e, hl, hr) =
    let test : ℕ → Bool = λ c. mentions p c || mentions q c in
    subst (AllPass test) (sym e) (
      AllPass-append test l r
        (AllPass-or (mentions p) (mentions q) l (inl (Matches-mentions p l hl)))
        (AllPass-or (mentions p) (mentions q) r (inr (Matches-mentions q r hr))))
Matches-mentions (or_ p q) s (inl h) =
    AllPass-or (mentions p) (mentions q) s (inl (Matches-mentions p s h))
Matches-mentions (or_ p q) s (inr h) =
    AllPass-or (mentions p) (mentions q) s (inr (Matches-mentions q s h))
Matches-mentions (many p) s h = Repeats-AllPass (Matches p) (mentions p) (Matches-mentions p) s h

unfoldable pub nullable : Pattern → Bool
nullable nothing = false
nullable empty_text = true
nullable (one_in rs) = false
nullable (then_ p q) = nullable p && nullable q
nullable (or_ p q) = nullable p || nullable q
nullable (many p) = true

-- What may follow the character.
unfoldable pub after_char : ℕ → Pattern → Pattern
unfolding nullable
after_char c nothing = nothing
after_char c empty_text = nothing
after_char c (one_in rs) = if in_ranges rs c then empty_text else nothing
after_char c (then_ p q) =
    let next = after_char c q in
    or_ (then_ (after_char c p) q) (if nullable p then next else nothing)
after_char c (or_ p q) = or_ (after_char c p) (after_char c q)
after_char c (many p) = then_ (after_char c p) (many p)

unfoldable pub full_match : Pattern → Text → Bool
full_match p [] = nullable p
full_match p (c ∷ s) = full_match (after_char c p) s

nullable-Matches : (p : Pattern) → nullable p ≡ true → Matches p []
unfolding nullable
nullable-Matches nothing h = cc
nullable-Matches empty_text h = refl
nullable-Matches (one_in rs) h = cc
nullable-Matches (then_ p q) h =
    let (hp, hq) = &&-eq-true (nullable p) (nullable q) h in
    ([], [], refl, nullable-Matches p hp, nullable-Matches q hq)
nullable-Matches (or_ p q) h = elim (Bool-cases (nullable p)) [
  | inl t ↦ inl (nullable-Matches p t)
  | inr f ↦ inr (nullable-Matches q (ground arith))
]
nullable-Matches (many p) h = stop

after_char-Matches :
    (c : ℕ) (p : Pattern) (s : Text) → Matches (after_char c p) s → Matches p (c ∷ s)
unfolding after_char
after_char-Matches c nothing s m = m
after_char-Matches c empty_text s m = elim m [ ]
after_char-Matches c (one_in rs) s m = elim (Bool-cases (in_ranges rs c)) [
  | inl t ↦ let e : s ≡ [] = rw t at m in (c, ap (◌∷◌ c) e, t)
  | inr f ↦ let no : ⊥ = rw f at m in absurd no
]
after_char-Matches c (then_ p q) s (inl (l, r, e, hl, hr)) =
    (c ∷ l, r, ap (◌∷◌ c) e, after_char-Matches c p l hl, hr)
after_char-Matches c (then_ p q) s (inr m) = elim (Bool-cases (nullable p)) [
  | inl t ↦
      let k : Matches (after_char c q) s = rw t at m in
      ([], c ∷ s, refl, nullable-Matches p t, after_char-Matches c q s k)
  | inr f ↦ let no : ⊥ = rw f at m in absurd no
]
after_char-Matches c (or_ p q) s (inl m) = inl (after_char-Matches c p s m)
after_char-Matches c (or_ p q) s (inr m) = inr (after_char-Matches c q s m)
after_char-Matches c (many p) s (l, r, e, hl, hr) =
    subst (λ u. Repeats (Matches p) (c ∷ u)) (sym e)
      (more (c ∷ l) r (after_char-Matches c p l hl) hr)

-- The matcher accepts only what the pattern describes.
pub full_match-Matches : (p : Pattern) (s : Text) → full_match p s ≡ true → Matches p s
unfolding full_match
full_match-Matches p [] h = nullable-Matches p h
full_match-Matches p (c ∷ s) h = after_char-Matches c p s (full_match-Matches (after_char c p) s h)
