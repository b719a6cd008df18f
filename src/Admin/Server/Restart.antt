-- ===== src/Admin/Server/Restart.antt =====
-- crates/admin/src/admin/server.rs: what a server that starts again reads of the locale and the
-- timezone that were set.
use ghaf_givc.Prelude.{
  ℕ, ◌≡◌, refl, sym, ap, subst, ◌∙◌, ◌≢◌, inl, inr, Bool, true, false, not, ◌&&◌, Option, none,
  some, List, [], ◌∷◌, ◌++◌, map, arith, leb, Bool-cases, &&-eq-true, ◌==◌, eq_iff, list_beq,
  list_eq, option_eq, nat_eq, length, All, find, find_sound, Result, ok, err, panic, ensure,
  map_result, >>=-eq-ok, no_assignments, empty_locale, invalid_locale, invalid_timezone,
}
use ghaf_givc.Text.{
  Text, Lacks, Pattern, Matches, Matches-mentions, mentions, AllPass, in_ranges, join_with, IsLine,
  split_once, Lacks-append, lines-join_with, split_once-append,
}
use ghaf_givc.Policy.{PolicyManager}
use ghaf_givc.Admin.Server.World.{
  Env, Call, LocaleAssignment, write_timezone_conf, write_locale_conf, World, TlsConfig, ◌>>=◌,
  ◌>>◌, lift,
}
use ghaf_givc.Admin.Server.Runs.{>>=-ends, ensure-ends}
use ghaf_givc.Admin.Server.Locale.{
  LocaleMacroKey, lang, lc_address, lc_collate, lc_ctype, lc_identification, lc_monetary,
  lc_messages, lc_measurement, lc_name, lc_numeric, lc_paper, lc_telephone, lc_time, lc_all,
  as_str_name, from_str_name, locale_pattern, key_from, locale_line, check_values, check_value,
  set_locale, set_timezone, validate_locale, timezone_pattern, parse_assignments, new, number_of,
  then_check, assignment_parts, some_of, all_keys, named_line, validate_timezone, assignment,
  publish_locale, publish_timezone, first_or_empty,
}

-- What is used of the `regex` crate: what it accepts, the pattern describes.
abbrev pub IsMatcher : (Pattern → Text → Bool) → Type 0
IsMatcher is_match = (p : Pattern) (s : Text) → is_match p s ≡ true → Matches p s

-- A successful write leaves what was written.
abbrev pub IsWritable : Env → Type 0
IsWritable env =
    (calls : List Call) (old : Option Text) (content : Text)
    → env.stored calls old content ≡ some content

AllPass-Lacks : (test : ℕ → Bool) (c : ℕ) (s : Text) → test c ≡ false → AllPass test s → Lacks c s
AllPass-Lacks test c [] f h = tt
AllPass-Lacks test c (d ∷ s) f h =
    ((λ e. cc (sym f ∙ (ap test (sym e) ∙ h.0))), AllPass-Lacks test c s f h.1)

locale-Lacks :
    (is_match : Pattern → Text → Bool) (c : ℕ) (s : Text)
    → IsMatcher is_match
    → mentions locale_pattern c ≡ false
    → is_match locale_pattern s ≡ true
    → Lacks c s
locale-Lacks is_match c s sound f h =
    AllPass-Lacks (mentions locale_pattern) c s f
      (Matches-mentions locale_pattern s (sound locale_pattern s h))

abbrev is_capital : ℕ → Bool
is_capital c = in_ranges ((b'A', b'Z') ∷ (b'_', b'_') ∷ []) c

unfoldable all_capital : Text → Bool
all_capital [] = true
all_capital (c ∷ s) = is_capital c && all_capital s

all_capital-AllPass : (s : Text) → all_capital s ≡ true → AllPass is_capital s
unfolding all_capital
all_capital-AllPass [] h = tt
all_capital-AllPass (c ∷ s) h =
    let (first, rest) = &&-eq-true (is_capital c) (all_capital s) h in
    (first, all_capital-AllPass s rest)

-- Each name is read back, and has only capital letters and underscores.
key_name :
    (key : LocaleMacroKey)
    → (from_str_name (as_str_name key) ≡ some key) × (all_capital (as_str_name key) ≡ true)
unfolding from_str_name find list_beq all_capital
key_name lang = (refl, refl)
key_name lc_address = (refl, refl)
key_name lc_collate = (refl, refl)
key_name lc_ctype = (refl, refl)
key_name lc_identification = (refl, refl)
key_name lc_monetary = (refl, refl)
key_name lc_messages = (refl, refl)
key_name lc_measurement = (refl, refl)
key_name lc_name = (refl, refl)
key_name lc_numeric = (refl, refl)
key_name lc_paper = (refl, refl)
key_name lc_telephone = (refl, refl)
key_name lc_time = (refl, refl)
key_name lc_all = (refl, refl)

key-Lacks : (key : LocaleMacroKey) (c : ℕ) → is_capital c ≡ false → Lacks c (as_str_name key)
key-Lacks key c f =
    AllPass-Lacks is_capital c (as_str_name key) f
      (all_capital-AllPass (as_str_name key) (key_name key).1)

key_from-number_of :
    (number : ℕ) {key : LocaleMacroKey} → key_from number ≡ some key → number_of key ≡ number
unfolding key_from
key_from-number_of number {key} e =
    (eq_iff (number_of key) number).0 (find_sound (λ k. number_of k == number) all_keys e).1

ne-nil : (s t : Text) (c : ℕ) → s ++ (c ∷ t) ≢ []
ne-nil [] t c e = cc
ne-nil (d ∷ s) t c e = cc

abbrev parse_locale_line : Text → Option LocaleAssignment
parse_locale_line line = assignment_parts (split_once b'=' line)

module _ (is_match : Pattern → Text → Bool) (sound : IsMatcher is_match) where
  abbrev IsValid : LocaleAssignment → Type 0
  IsValid a = validate_locale is_match a.value ≡ true

  check_value-IsValid : (a : LocaleAssignment) → check_value is_match a.value ≡ ok tt → IsValid a
  unfolding check_value
  check_value-IsValid a h = elim (Bool-cases (a.value == [])) [
    | inl t ↦ let no : err empty_locale ≡ ok tt = rw t at h in absurd (cc no)
    | inr f ↦
        let k : ensure (validate_locale is_match a.value) invalid_locale ≡ ok tt = rw f at h in
        ensure-true (validate_locale is_match a.value) k
  ]
    where
      ensure-true : (b : Bool) → ensure b invalid_locale ≡ ok tt → b ≡ true
      ensure-true true e = refl
      ensure-true false e = cc

  check_values-IsValid :
      (assigns : List LocaleAssignment)
      → check_values is_match assigns ≡ ok tt
      → All IsValid assigns
  unfolding check_values
  check_values-IsValid [] h = tt
  check_values-IsValid (a ∷ rest) h =
      split (check_value is_match a.value) (check_values is_match rest) refl h
        (check_values-IsValid rest)
    where
      split :
          (r k : Result (Unit {0}))
          → check_value is_match a.value ≡ r
          → then_check r k ≡ ok tt
          → (k ≡ ok tt → All IsValid rest)
          → IsValid a × All IsValid rest
      split (ok _) k e t f = (check_value-IsValid a e, f t)
      split (err why) k e t f = cc
      split panic k e t f = cc

  value-Lacks :
      (a : LocaleAssignment) (c : ℕ)
      → mentions locale_pattern c ≡ false
      → IsValid a
      → Lacks c a.value
  unfolding validate_locale
  value-Lacks a c f h = locale-Lacks is_match c a.value sound f h

  -- The line of an assignment is one line, and is read back.
  locale_line_lem :
      (a : LocaleAssignment) {line : Text}
      → locale_line a ≡ ok line
      → IsValid a
      → IsLine line × (parse_locale_line line ≡ some a)
  unfolding locale_line mentions
  locale_line_lem a {line} e h = split (key_from a.key) refl e
    where
      split :
          (k : Option LocaleMacroKey)
          → key_from a.key ≡ k
          → named_line a.value k ≡ ok line
          → IsLine line × (parse_locale_line line ≡ some a)
      split none f g = cc
      split (some key) f g =
          let same : as_str_name key ++ (b'=' ∷ a.value) ≡ line = cc g in
          let number : number_of key ≡ a.key = key_from-number_of a.key f in
          subst (λ l. IsLine l × (parse_locale_line l ≡ some a)) same
            (
              (
                ne-nil (as_str_name key) a.value b'=',
                Lacks-append 0xa (as_str_name key) (b'=' ∷ a.value) (key-Lacks key 0xa refl)
                    (omega arith, value-Lacks a 0xa refl h),
                Lacks-append 0xd (as_str_name key) (b'=' ∷ a.value) (key-Lacks key 0xd refl)
                    (omega arith, value-Lacks a 0xd refl h),
              ),
              ap assignment_parts
                    (split_once-append b'=' (as_str_name key) a.value (key-Lacks key b'=' refl))
                  ∙ (ap (assignment a.value) (key_name key).0
                      ∙ ap (λ n. some (record { key = n; value = a.value })) number),
            )

  locale_lines_lem :
      (assigns : List LocaleAssignment) (ls : List Text)
      → map_result locale_line assigns ≡ ok ls
      → All IsValid assigns
      → All IsLine ls × (some_of (map parse_locale_line ls) ≡ assigns)
  unfolding map_result
  locale_lines_lem [] ls e h =
      let same : [] ≡ ls = cc e in
      subst (λ l. All IsLine l × (some_of (map parse_locale_line l) ≡ [])) same (tt, refl)
  locale_lines_lem (a ∷ rest) ls e h =
      let (line, made, e1) = >>=-eq-ok (locale_line a) _ e in
      let (others, made_others, e2) = >>=-eq-ok (map_result locale_line rest) _ e1 in
      let (is_line, reads) = locale_line_lem a made h.0 in
      let (are_lines, read_others) = locale_lines_lem rest others made_others h.1 in
      let same : line ∷ others ≡ ls = cc e2 in
      subst (λ l. All IsLine l × (some_of (map parse_locale_line l) ≡ a ∷ rest)) same
        (
          (is_line, are_lines),
          ap (λ o. some_of (o ∷ map parse_locale_line others)) reads ∙ ap (◌∷◌ a) read_others,
        )

  parse_assignments_lem :
      (assigns : List LocaleAssignment) (ls : List Text)
      → map_result locale_line assigns ≡ ok ls
      → check_values is_match assigns ≡ ok tt
      → parse_assignments (join_with 0xa ls) ≡ assigns
  unfolding parse_assignments
  parse_assignments_lem assigns ls e h =
      let (are_lines, reads) = locale_lines_lem assigns ls e (check_values-IsValid assigns h) in
      ap (λ l. some_of (map parse_locale_line l)) (lines-join_with ls are_lines) ∙ reads

-- A locale that was set with success is the server's, and a server that starts again on the file
-- reads exactly the same assignments, in the same order, if the write did not fail.
pub set_locale-new :
    (env : Env) (is_match : Pattern → Text → Bool) (assigns : List LocaleAssignment) (w v : World)
    (use_tls : Option TlsConfig) (manager : Option PolicyManager)
    → IsMatcher is_match
    → IsWritable env
    → set_locale is_match env assigns w ≡ (ok tt, v)
    → (v.service.locale_assigns ≡ assigns)
      × ((new use_tls manager v.locale_conf v.timezone_conf).locale_assigns ≡ assigns)
unfolding set_locale new write_locale_conf
set_locale-new env is_match assigns w v use_tls manager sound writable e =
    let (_, w1, _, e1) =
      >>=-ends (lift (ensure (not (leb (length assigns) 0)) no_assignments))
        (λ _. lift (check_values is_match assigns) >>= λ _.
          lift (map_result locale_line assigns) >>= λ ls.
          write_locale_conf env (join_with 0xa ls) >> publish_locale assigns)
        w e in
    let (_, w2, checked, e2) =
      >>=-ends (lift (check_values is_match assigns))
        (λ _. lift (map_result locale_line assigns) >>= λ ls.
          write_locale_conf env (join_with 0xa ls) >> publish_locale assigns)
        w1 e1 in
    let (ls, w3, made, e3) =
      >>=-ends (lift (map_result locale_line assigns))
        (λ ls. write_locale_conf env (join_with 0xa ls) >> publish_locale assigns) w2 e2 in
    let (_, w4, wrote, e4) =
      >>=-ends (write_locale_conf env (join_with 0xa ls)) (λ _. publish_locale assigns) w3 e3 in
    let kept : v.locale_conf ≡ some (join_with 0xa ls) =
      ap (λ r. r.1.locale_conf) (sym e4)
      ∙ (ap (λ r. r.1.locale_conf) (sym wrote)
          ∙ writable w3.calls w3.locale_conf (join_with 0xa ls)) in
    (
      ap (λ r. r.1.service.locale_assigns) (sym e4),
      ap (λ o. (new use_tls manager o v.timezone_conf).locale_assigns) kept
          ∙ parse_assignments_lem is_match sound assigns ls (ap (λ r. r.0) made)
              (ap (λ r. r.0) checked),
    )

timezone-IsLine :
    (is_match : Pattern → Text → Bool) (timezone : Text)
    → IsMatcher is_match
    → is_match timezone_pattern timezone ≡ true
    → IsLine timezone
unfolding mentions
timezone-IsLine is_match timezone sound h =
    let m = sound timezone_pattern timezone h in
    let (l, r, e, (c, single, _), _) = m in
    (
      (λ nil. ne-nil [] r c (sym (e ∙ ap (λ x. x ++ r) single) ∙ nil)),
      AllPass-Lacks (mentions timezone_pattern) 0xa timezone refl
          (Matches-mentions timezone_pattern timezone m),
      AllPass-Lacks (mentions timezone_pattern) 0xd timezone refl
          (Matches-mentions timezone_pattern timezone m),
    )

-- A timezone that was set with success is the server's, and a server that starts again on the file
-- reads exactly the same timezone, if the write did not fail.
set_timezone-new :
    (env : Env) (is_match : Pattern → Text → Bool) (timezone : Text) (w v : World)
    (use_tls : Option TlsConfig) (manager : Option PolicyManager)
    → IsMatcher is_match
    → IsWritable env
    → set_timezone is_match env timezone w ≡ (ok tt, v)
    → (v.service.timezone ≡ timezone)
      × ((new use_tls manager v.locale_conf v.timezone_conf).timezone ≡ timezone)
unfolding set_timezone new write_timezone_conf validate_timezone join_with
set_timezone-new env is_match timezone w v use_tls manager sound writable e =
    let (_, w1, checked, e1) =
      >>=-ends (lift (ensure (validate_timezone is_match timezone) invalid_timezone))
        (λ _. write_timezone_conf env timezone >> publish_timezone timezone) w e in
    let (passed, _) = ensure-ends (validate_timezone is_match timezone) invalid_timezone checked in
    let (_, w2, wrote, e2) =
      >>=-ends (write_timezone_conf env timezone) (λ _. publish_timezone timezone) w1 e1 in
    let kept : v.timezone_conf ≡ some timezone =
      ap (λ r. r.1.timezone_conf) (sym e2)
      ∙ (ap (λ r. r.1.timezone_conf) (sym wrote) ∙ writable w1.calls w1.timezone_conf timezone) in
    (
      ap (λ r. r.1.service.timezone) (sym e2),
      ap (λ o. (new use_tls manager v.locale_conf o).timezone) kept
          ∙ ap first_or_empty (
              lines-join_with (timezone ∷ []) (timezone-IsLine is_match timezone sound passed, tt)),
    )
