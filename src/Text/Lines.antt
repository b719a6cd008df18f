-- ===== src/Text/Lines.antt =====
-- Trimming, and the lines of a text.
use ghaf_givc.Prelude.{
  ◌&&◌, Option, none, some, List, [], ◌∷◌, if◌then◌else◌, ◌==◌, list_beq, list_eq, option_eq,
  nat_eq,
}
use ghaf_givc.Text.Defs.{Text, strip_suffix}
use ghaf_givc.Text.Words.{is_whitespace}
use ghaf_givc.Text.Paths.{split_char}

-- `str::trim`
unfoldable pub trim_start : Text → Text
unfolding is_whitespace
trim_start [] = []
trim_start (c ∷ s) = let rest = trim_start s in if is_whitespace c then rest else c ∷ s

unfoldable pub trim_end : Text → Text
unfolding is_whitespace list_beq
trim_end [] = []
trim_end (c ∷ s) = let rest = trim_end s in if rest == [] && is_whitespace c then [] else c ∷ rest

unfoldable pub trim : Text → Text
unfolding trim_start trim_end
trim s = trim_end (trim_start s)

abbrev pub without_cr : Option Text → Text → Text
without_cr none piece = piece
without_cr (some line) piece = line

-- The pieces between line feeds: a carriage return in front of a line feed goes with it, and an
-- empty last piece is no line.
abbrev pub line_pieces : List Text → List Text
line_pieces [] = []
line_pieces ([] ∷ []) = []
line_pieces ((c ∷ s) ∷ []) = (c ∷ s) ∷ []
line_pieces (piece ∷ next ∷ pieces) =
    without_cr (strip_suffix (0xd ∷ []) piece) piece ∷ line_pieces (next ∷ pieces)

-- `str::lines`
unfoldable pub lines : Text → List Text
lines s = line_pieces (split_char 0xa s)
