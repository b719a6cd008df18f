-- ===== src/Text/Bytes.antt =====
-- Offsets into a `str` count bytes of UTF-8, and a slice must fall on a character boundary.
use ghaf_givc.Prelude.{
  ℕ, zero, suc, ◌+◌, ◌-◌, ◌≤◌, ◌<◌, ◌≡◌, ◌∙◌, refl, Bool, true, ◌&&◌, Option, none, some, [], ◌∷◌,
  ◌++◌, map, ltb, leb, ◌==◌, nat_eq, list_eq, if◌then◌else◌, arith, eq_refl, Bool-cases, inl, inr,
}
use ghaf_givc.Text.Defs.{Text, prepend_left}

-- `char::len_utf8`
unfoldable pub len_utf8 : ℕ → ℕ
len_utf8 c = if ltb c 0x80 then 1 else if ltb c 0x800 then 2 else if ltb c 0x10000 then 3 else 4

-- `str::len`
unfoldable pub byte_len : Text → ℕ
unfolding len_utf8
byte_len [] = 0
byte_len (c ∷ s) = len_utf8 c + byte_len s

-- `split_at_checked`: `none` past the end or inside a character.
unfoldable pub split_at_checked : ℕ → Text → Option (Text × Text)
unfolding len_utf8
split_at_checked zero s = some ([], s)
split_at_checked (suc n) [] = none
split_at_checked (suc n) (c ∷ s) =
    if leb (len_utf8 c) (suc n)
    then prepend_left c (split_at_checked (suc n - len_utf8 c) s)
    else none

split_at_checked_step :
    (n c : ℕ) (s : Text)
    → 0 < n
    → len_utf8 c ≤ n
    → split_at_checked n (c ∷ s) ≡ prepend_left c (split_at_checked (n - len_utf8 c) s)
unfolding split_at_checked
split_at_checked_step zero c s h k = elim h [ ]
split_at_checked_step (suc n) c s h k = ground arith

len_utf8_pos : (c : ℕ) → 0 < len_utf8 c
unfolding len_utf8
len_utf8_pos c = ground arith

-- Split behind a prefix.
pub split_at_checked-byte_len : (s t : Text) → split_at_checked (byte_len s) (s ++ t) ≡ some (s, t)
unfolding byte_len
split_at_checked-byte_len [] t = unfold split_at_checked in refl
split_at_checked-byte_len (c ∷ s) t =
    let rest : len_utf8 c + byte_len s - len_utf8 c ≡ byte_len s = omega arith in
    split_at_checked_step (len_utf8 c + byte_len s) c (s ++ t) (omega (arith, len_utf8_pos c))
      (omega arith)
    ∙ rw (rest, split_at_checked-byte_len s t)

pub byte_len-append : (s t : Text) → byte_len (s ++ t) ≡ byte_len s + byte_len t
unfolding byte_len
byte_len-append [] t = omega arith
byte_len-append (c ∷ s) t = omega (arith, byte_len-append s t)

-- Every character is a single byte.
unfoldable pub to_ascii_lowercase : ℕ → ℕ
to_ascii_lowercase c = if leb b'A' c && leb c b'Z' then c + 32 else c

unfoldable pub eq_ignore_ascii_case : Text → Text → Bool
unfolding to_ascii_lowercase
eq_ignore_ascii_case s t = map to_ascii_lowercase s == map to_ascii_lowercase t

pub eq_ignore_ascii_case_refl : (s : Text) → eq_ignore_ascii_case s s ≡ true
unfolding eq_ignore_ascii_case
eq_ignore_ascii_case_refl s = eq_refl (map to_ascii_lowercase s)

-- A split past the end is refused.
pub split_at_checked-short : (n : ℕ) (s : Text) → byte_len s < n → split_at_checked n s ≡ none
unfolding byte_len split_at_checked
split_at_checked-short zero s h = elim h [ ]
split_at_checked-short (suc n) [] h = refl
split_at_checked-short (suc n) (c ∷ s) h = elim (Bool-cases (leb (len_utf8 c) (suc n))) [
  | inl fits ↦
      rw (fits, split_at_checked-short (suc n - len_utf8 c) s (omega (arith, len_utf8_pos c)))
  | inr over ↦ rw over
]
