-- ===== src/Text/Words.antt =====
-- Words between white space.
use ghaf_givc.Prelude.{ℕ, Bool, true, false, ◌&&◌, ◌||◌, List, [], ◌∷◌, leb, ◌==◌, nat_eq}
use mathlib.Core.List.{reverse}
use ghaf_givc.Text.Defs.{Text}

-- `char::is_whitespace`: the code points with the property White_Space.
unfoldable pub is_whitespace : ℕ → Bool
is_whitespace c =
    leb 9 c && leb c 13
    || c == 32
    || c == 0x85
    || c == 0xa0
    || c == 0x1680
    || leb 0x2000 c && leb c 0x200a
    || c == 0x2028
    || c == 0x2029
    || c == 0x202f
    || c == 0x205f
    || c == 0x3000

-- The words of a text behind `word`, the part of the current word read so far, in reverse.
abbrev pub push_word : Text → List Text → List Text
push_word [] words = words
push_word (c ∷ word) words = reverse (c ∷ word) ∷ words

unfoldable pub split_words : Text → Text → List Text
unfolding is_whitespace
split_words word [] = push_word word []
split_words word (c ∷ s) = elim (is_whitespace c) [
  | true ↦ push_word word (split_words [] s)
  | false ↦ split_words (c ∷ word) s
]

-- `str::split_whitespace`
unfoldable pub split_whitespace : Text → List Text
unfolding split_words
split_whitespace = split_words []

-- `char::is_ascii_hexdigit`
unfoldable pub is_ascii_hexdigit : ℕ → Bool
is_ascii_hexdigit c =
    leb b'0' c && leb c b'9' || leb b'a' c && leb c b'f' || leb b'A' c && leb c b'F'
