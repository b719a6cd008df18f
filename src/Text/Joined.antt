-- ===== src/Text/Joined.antt =====
-- `join` on a list of texts, and what `lines` reads of the result.
use ghaf_givc.Prelude.{
  ℕ, ◌≡◌, refl, sym, ap, ap₂, subst, ◌∙◌, ◌≢◌, inl, inr, List, [], ◌∷◌, ◌++◌, Bool-cases,
  Option-cases, ◌==◌, eq_iff, eq_refl, ne→eq_false, list_eq, option_eq, nat_eq, All,
}
use ghaf_givc.Text.Defs.{Text, strip_suffix}
use ghaf_givc.Text.Split.{Lacks, strip_suffix_sound}
use ghaf_givc.Text.Paths.{split_char, prepend_head}
use ghaf_givc.Text.Lines.{lines, line_pieces, without_cr}

-- `join` with a character as the separator.
unfoldable pub join_with : ℕ → List Text → Text
join_with sep [] = []
join_with sep (x ∷ []) = x
join_with sep (x ∷ y ∷ xs) = x ++ (sep ∷ join_with sep (y ∷ xs))

split_char-Lacks : (sep : ℕ) (s : Text) → Lacks sep s → split_char sep s ≡ s ∷ []
unfolding split_char
split_char-Lacks sep [] h = refl
split_char-Lacks sep (c ∷ s) h = rw (ne→eq_false c sep h.0, split_char-Lacks sep s h.1) refl

split_char-append :
    (sep : ℕ) (s t : Text) → Lacks sep s → split_char sep (s ++ (sep ∷ t)) ≡ s ∷ split_char sep t
unfolding split_char
split_char-append sep [] t h = rw (eq_refl sep) refl
split_char-append sep (c ∷ s) t h = rw (ne→eq_false c sep h.0, split_char-append sep s t h.1) refl

pub split_char-join_with :
    (sep : ℕ) (x : Text) (xs : List Text)
    → All (Lacks sep) (x ∷ xs)
    → split_char sep (join_with sep (x ∷ xs)) ≡ x ∷ xs
unfolding join_with
split_char-join_with sep x [] h = split_char-Lacks sep x h.0
split_char-join_with sep x (y ∷ xs) h =
    split_char-append sep x (join_with sep (y ∷ xs)) h.0
    ∙ ap (◌∷◌ x) (split_char-join_with sep y xs h.1)

-- The pieces have no separator in them, and joined again they are the text.
pub record IsSplitBy (sep : ℕ) (s : Text) (pieces : List Text) : Type 0 where
  pub head : Text
  pub tail : List Text
  pub parts : pieces ≡ head ∷ tail
  pub lack : All (Lacks sep) (head ∷ tail)
  pub joined : join_with sep (head ∷ tail) ≡ s

join_with-prepend :
    (sep c : ℕ) (x : Text) (xs : List Text)
    → join_with sep ((c ∷ x) ∷ xs) ≡ c ∷ join_with sep (x ∷ xs)
unfolding join_with
join_with-prepend sep c x [] = refl
join_with-prepend sep c x (y ∷ ys) = refl

pub split_char_sound : (sep : ℕ) (s : Text) → IsSplitBy sep s (split_char sep s)
unfolding split_char join_with
split_char_sound sep [] = record {
  head = [];
  tail = [];
  parts = refl;
  lack = (tt, tt);
  joined = refl;
}
split_char_sound sep (c ∷ s) =
    let rest = split_char_sound sep s in
    elim (Bool-cases (c == sep)) [
      | inl t ↦ record {
        head = [];
        tail = rest.head ∷ rest.tail;
        parts = rw t (ap (◌∷◌ []) rest.parts);
        lack = (tt, rest.lack);
        joined = ap₂ (λ d l. d ∷ l) (sym ((eq_iff c sep).0 t)) rest.joined;
      }
      | inr f ↦ record {
        head = c ∷ rest.head;
        tail = rest.tail;
        parts = rw f (ap (prepend_head c) rest.parts);
        lack = ((λ e. absurd (cc (f, (eq_iff c sep).1 e)), rest.lack.0), rest.lack.1);
        joined = join_with-prepend sep c rest.head rest.tail ∙ ap (◌∷◌ c) rest.joined;
      }
    ]

-- A line: not empty, and without line feeds and carriage returns.
abbrev pub IsLine : Text → Type 0
IsLine s = (s ≢ []) × Lacks 0xa s × Lacks 0xd s

last-Lacks : (c : ℕ) (s : Text) → ¬ Lacks c (s ++ (c ∷ []))
last-Lacks c [] h = h.0 refl
last-Lacks c (d ∷ s) h = last-Lacks c s h.1

IsLine-without_cr : (s : Text) → Lacks 0xd s → without_cr (strip_suffix (0xd ∷ []) s) s ≡ s
IsLine-without_cr s h = elim (Option-cases (strip_suffix (0xd ∷ []) s)) [
  | inl e ↦ rw e refl
  | inr (r, e) ↦ absurd (last-Lacks 0xd r (subst (Lacks 0xd) (strip_suffix_sound (0xd ∷ []) s e) h))
]

line_pieces-lines : (xs : List Text) → All IsLine xs → line_pieces xs ≡ xs
line_pieces-lines [] h = refl
line_pieces-lines ([] ∷ []) h = absurd (h.0.0 refl)
line_pieces-lines ((c ∷ s) ∷ []) h = refl
line_pieces-lines (x ∷ y ∷ xs) h =
    ap₂ ◌∷◌ (IsLine-without_cr x h.0.2) (line_pieces-lines (y ∷ xs) h.1)

All-Lacks : (xs : List Text) → All IsLine xs → All (Lacks 0xa) xs
All-Lacks [] h = tt
All-Lacks (x ∷ xs) h = (h.0.1, All-Lacks xs h.1)

-- Lines that are joined by line feeds are read again.
pub lines-join_with : (xs : List Text) → All IsLine xs → lines (join_with 0xa xs) ≡ xs
unfolding lines join_with split_char
lines-join_with [] h = refl
lines-join_with (x ∷ xs) h =
    ap line_pieces (split_char-join_with 0xa x xs (All-Lacks (x ∷ xs) h))
    ∙ line_pieces-lines (x ∷ xs) h
