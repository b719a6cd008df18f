-- ===== src/Policy/Repo/OneLine.antt =====
-- crates/policyadmin/src/policy_repo.rs and policy_manager.rs: how the manager reads the changes
-- that the monitor writes.
use ghaf_givc.Prelude.{
  ℕ, ◌≡◌, refl, sym, ap, subst, ◌∙◌, ◌≢◌, Bool, true, false, some, List, [], ◌∷◌, ◌++◌, arith,
  if◌then◌else◌, ◌==◌, ne→eq_false, list_beq, list_eq, option_eq, nat_eq, All,
}
use mathlib.Core.List.{append_assoc, append-nil}
use mathlib.Core.List.{reverse, reverse-cons, reverse-reverse}
use ghaf_givc.Text.{
  Text, is_whitespace, split_words, push_word, split_whitespace, trim, trim_start, trim_end, lines,
  join_with, lines-join_with, Lacks, Lacks-append,
}
use ghaf_givc.Policy.{
  PolicyManager, process_changeset, process_lines, process_line, process_change, parse_line,
  policy_and_file, below_policies, second,
}
use ghaf_givc.Policy.Repo.{Change, modification, addition, deletion, rewrite, changes_text}

-- Not empty, and without white space.
abbrev pub IsWord : Text → Type 0
IsWord s = (s ≢ []) × All (λ c. is_whitespace c ≡ false) s

-- A change that is written, of a location that is one word.
abbrev pub IsWritten : Change → Type 0
IsWritten (modification location) = IsWord location
IsWritten (addition location) = IsWord location
IsWritten (deletion location) = IsWord location
IsWritten (rewrite location) = ⊥

abbrev kind : Change → ℕ
kind (modification location) = b'M'
kind (addition location) = b'A'
kind (deletion location) = b'D'
kind (rewrite location) = b'M'

abbrev pub location_of : Change → Text
location_of (modification location) = location
location_of (addition location) = location
location_of (deletion location) = location
location_of (rewrite location) = location

-- What the text of the next change, if there is one, adds to the location in front of it.
abbrev pub run_on : List Change → Text
run_on [] = []
run_on (c ∷ cs) = kind c ∷ []

kind-not_space : (c : Change) → is_whitespace (kind c) ≡ false
unfolding is_whitespace
kind-not_space (modification location) = refl
kind-not_space (addition location) = refl
kind-not_space (deletion location) = refl
kind-not_space (rewrite location) = refl

location-IsWord : (c : Change) → IsWritten c → IsWord (location_of c)
location-IsWord (modification location) h = h
location-IsWord (addition location) h = h
location-IsWord (deletion location) h = h
location-IsWord (rewrite location) h = absurd h

changes_text-cons :
    (c : Change) (cs : List Change)
    → IsWritten c
    → changes_text (c ∷ cs) ≡ kind c ∷ b' ' ∷ (location_of c ++ changes_text cs)
unfolding changes_text
changes_text-cons (modification location) cs h = refl
changes_text-cons (addition location) cs h = refl
changes_text-cons (deletion location) cs h = refl
changes_text-cons (rewrite location) cs h = absurd h

-- The end of a text is kept by `trim_end` if it begins with something that is kept, or with no
-- white space.
trim_end-word :
    (w s : Text)
    → All (λ c. is_whitespace c ≡ false) w
    → trim_end s ≡ s
    → trim_end (w ++ s) ≡ w ++ s
unfolding trim_end
trim_end-word [] s h k = k
trim_end-word (c ∷ w) s h k = rw (trim_end-word w s h.1 k, h.0) (ground arith)

trim_end-space : (c d : ℕ) (s : Text) → trim_end (d ∷ s) ≡ d ∷ s → trim_end (c ∷ d ∷ s) ≡ c ∷ d ∷ s
unfolding trim_end list_beq
trim_end-space c d s k = rw k refl

trim_end-change :
    (k : ℕ) (w rest : Text)
    → IsWord w
    → trim_end rest ≡ rest
    → trim_end (k ∷ b' ' ∷ (w ++ rest)) ≡ k ∷ b' ' ∷ (w ++ rest)
trim_end-change k [] rest h e = absurd (h.0 refl)
trim_end-change k (d ∷ w) rest h e =
    trim_end-space k b' ' (d ∷ (w ++ rest))
      (trim_end-space b' ' d (w ++ rest) (trim_end-word (d ∷ w) rest h.1 e))

trim_end-changes :
    (cs : List Change) → All IsWritten cs → trim_end (changes_text cs) ≡ changes_text cs
unfolding changes_text trim_end
trim_end-changes [] h = refl
trim_end-changes (c ∷ cs) h =
    subst (λ t. trim_end t ≡ t) (sym (changes_text-cons c cs h.0))
      (trim_end-change (kind c) (location_of c) (changes_text cs) (location-IsWord c h.0)
        (trim_end-changes cs h.1))

trim-changes :
    (c : Change) (cs : List Change)
    → All IsWritten (c ∷ cs)
    → trim (changes_text (c ∷ cs)) ≡ changes_text (c ∷ cs)
unfolding trim trim_start
trim-changes c cs h =
    ap trim_end (
      subst (λ t. trim_start t ≡ t) (sym (changes_text-cons c cs h.0))
        (starts (kind c) _ (kind-not_space c)))
    ∙ trim_end-changes (c ∷ cs) h
  where
    starts : (k : ℕ) (s : Text) → is_whitespace k ≡ false → trim_start (k ∷ s) ≡ k ∷ s
    starts k s f = rw f refl

word-Lacks :
    (c : ℕ) (w : Text) → is_whitespace c ≡ true → All (λ d. is_whitespace d ≡ false) w → Lacks c w
word-Lacks c [] t h = tt
word-Lacks c (d ∷ w) t h =
    ((λ e. cc (sym t ∙ (ap is_whitespace (sym e) ∙ h.0))), word-Lacks c w t h.1)

changes-Lacks :
    (c : ℕ) (cs : List Change)
    → is_whitespace c ≡ true
    → b' ' ≢ c
    → All IsWritten cs
    → Lacks c (changes_text cs)
unfolding changes_text
changes-Lacks c [] t n h = tt
changes-Lacks c (x ∷ cs) t n h =
    let location =
      Lacks-append c (location_of x) (changes_text cs)
        (word-Lacks c (location_of x) t (location-IsWord x h.0).1) (changes-Lacks c cs t n h.1) in
    subst (Lacks c) (sym (changes_text-cons x cs h.0))
      ((λ e. cc (sym t ∙ (ap is_whitespace (sym e) ∙ kind-not_space x))), (n, location))

ne-nil-changes : (c : Change) (cs : List Change) → IsWritten c → changes_text (c ∷ cs) ≢ []
ne-nil-changes c cs h e = cc (sym (changes_text-cons c cs h) ∙ e)

lines-changes :
    (c : Change) (cs : List Change)
    → All IsWritten (c ∷ cs)
    → lines (changes_text (c ∷ cs)) ≡ changes_text (c ∷ cs) ∷ []
unfolding join_with is_whitespace
lines-changes c cs h = lines-join_with (changes_text (c ∷ cs) ∷ []) (
  (
    ne-nil-changes c cs h.0,
    changes-Lacks 0xa (c ∷ cs) refl (omega arith) h,
    changes-Lacks 0xd (c ∷ cs) refl (omega arith) h,
  ),
  tt,
)

split_words-word :
    (word w rest : Text)
    → All (λ c. is_whitespace c ≡ false) w
    → split_words word (w ++ rest) ≡ split_words (reverse w ++ word) rest
unfolding split_words
split_words-word word [] rest h = refl
split_words-word word (c ∷ w) rest h =
    ap
      (λ b. elim b [
        | true ↦ push_word word (split_words [] (w ++ rest))
        | false ↦ split_words (c ∷ word) (w ++ rest)
      ])
      h.0
    ∙ (split_words-word (c ∷ word) w rest h.1
        ∙ ap (λ u. split_words u rest)
            (sym (ap (λ u. u ++ word) (reverse-cons c w) ∙ append_assoc (reverse w) (c ∷ []) word)))

-- The word that ends where the text of the changes goes on.
EndsWord : Text → List Change → Type 0
EndsWord word cs =
    (rest : List Text) × (split_words word (changes_text cs) ≡ (reverse word ++ run_on cs) ∷ rest)

changes-EndsWord :
    (word : Text) (cs : List Change) → word ≢ [] → All IsWritten cs → EndsWord word cs
unfolding EndsWord split_words changes_text is_whitespace
changes-EndsWord [] cs n h = absurd (n refl)
changes-EndsWord (x ∷ word) [] n h = ([], ap (λ u. u ∷ []) (sym (append-nil (reverse (x ∷ word)))))
changes-EndsWord (x ∷ word) (c ∷ cs) n h =
    let rest = split_words [] (location_of c ++ changes_text cs) in
    (
      rest,
      ap (split_words (x ∷ word)) (changes_text-cons c cs h.0)
          ∙ (ap
                (λ b. elim b [
                  | true ↦
                      push_word (x ∷ word)
                        (split_words [] (b' ' ∷ (location_of c ++ changes_text cs)))
                  | false ↦
                      split_words (kind c ∷ x ∷ word) (b' ' ∷ (location_of c ++ changes_text cs))
                ])
                (kind-not_space c)
              ∙ ap (λ u. u ∷ rest) (reverse-cons (kind c) (x ∷ word))),
    )

ne-nil-reverse : (w : Text) → w ≢ [] → reverse w ++ [] ≢ []
ne-nil-reverse w n e = n (sym (reverse-reverse w) ∙ ap reverse (sym (append-nil (reverse w)) ∙ e))

second_word-changes :
    (c : Change) (cs : List Change)
    → All IsWritten (c ∷ cs)
    → second (split_whitespace (changes_text (c ∷ cs))) ≡ some (location_of c ++ run_on cs)
unfolding split_whitespace split_words EndsWord is_whitespace
second_word-changes c cs h =
    let w = location_of c in
    let word = location-IsWord c h.0 in
    let (rest, e) = changes-EndsWord (reverse w ++ []) cs (ne-nil-reverse w word.0) h.1 in
    ap (λ t. second (split_words [] t)) (changes_text-cons c cs h.0)
    ∙ (ap
          (λ b. second (elim b [
            | true ↦ split_words [] (b' ' ∷ (w ++ changes_text cs))
            | false ↦ split_words (kind c ∷ []) (b' ' ∷ (w ++ changes_text cs))
          ]))
          (kind-not_space c)
        ∙ (ap (λ ws. second (reverse (kind c ∷ []) ∷ ws))
              (split_words-word [] w (changes_text cs) word.1 ∙ e)
            ∙ ap (λ u. some (u ++ run_on cs))
                (ap reverse (append-nil (reverse w)) ∙ reverse-reverse w)))

-- The monitor writes the changes behind one another, without line breaks, so that the manager reads
-- them as one line. Of any number of changes whose locations are words, it takes the first alone,
-- and its location with the letter of the second change at its end.
pub process_changeset-first :
    (exists : Text → Bool) (manager : PolicyManager) (c : Change) (cs : List Change)
    → All IsWritten (c ∷ cs)
    → process_changeset exists (changes_text (c ∷ cs)) manager
      ≡ process_change exists manager
          (policy_and_file (below_policies (some (location_of c ++ run_on cs))))
unfolding process_changeset process_lines process_line parse_line
process_changeset-first exists manager c cs h =
    let text = changes_text (c ∷ cs) in
    ap (λ ls. process_lines exists ls manager) (lines-changes c cs h)
    ∙ (ap (λ t. if t == [] then manager else process_change exists manager (parse_line t))
          (trim-changes c cs h)
        ∙ (ap (λ b. if b then manager else process_change exists manager (parse_line text))
              (ne→eq_false text [] (ne-nil-changes c cs h.0))
            ∙ ap (λ o. process_change exists manager (policy_and_file (below_policies o)))
                (second_word-changes c cs h)))
