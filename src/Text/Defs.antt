-- ===== src/Text/Defs.antt =====
-- Texts, literals, and the splitting methods of `str`.
use Prim.Native.Char.{code}
use Prim.Native.String.{String}
use ghaf_givc.Prelude.{ℕ, Option, none, some, List, [], ◌∷◌, ◌==◌, nat_eq, list_eq, if◌then◌else◌}

abbrev pub Text : Type 0
Text = List ℕ

-- A literal.
abbrev pub codes : String → Text
codes String.[] = []
codes (String.◌∷◌ c s) = code c ∷ codes s

abbrev pub prepend_left : ℕ → Option (Text × Text) → Option (Text × Text)
prepend_left c none = none
prepend_left c (some (l, r)) = some (c ∷ l, r)

-- `split_once`, at a character.
unfoldable pub split_once : ℕ → Text → Option (Text × Text)
split_once sep [] = none
split_once sep (c ∷ s) = if c == sep then some ([], s) else prepend_left c (split_once sep s)

-- `rsplit_once`, at a character.
unfoldable pub rsplit_once : ℕ → Text → Option (Text × Text)
rsplit_once sep [] = none
rsplit_once sep (c ∷ s) = elim (rsplit_once sep s) [
  | some (l, r) ↦ some (c ∷ l, r)
  | none ↦ if c == sep then some ([], s) else none
]

unfoldable pub strip_prefix : Text → Text → Option Text
strip_prefix [] s = some s
strip_prefix (p ∷ ps) [] = none
strip_prefix (p ∷ ps) (c ∷ s) = if c == p then strip_prefix ps s else none

abbrev pub prepend : ℕ → Option Text → Option Text
prepend c none = none
prepend c (some s) = some (c ∷ s)

unfoldable pub strip_suffix : Text → Text → Option Text
strip_suffix suffix [] = if suffix == [] then some [] else none
strip_suffix suffix (c ∷ s) =
    if suffix == (c ∷ s) then some [] else prepend c (strip_suffix suffix s)
