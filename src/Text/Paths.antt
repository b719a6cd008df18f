-- ===== src/Text/Paths.antt =====
-- `std::path::Path` on Unix: joining, components and the extension.
use ghaf_givc.Prelude.{
  ℕ, Bool, false, ◌||◌, Option, none, some, List, [], ◌∷◌, ◌++◌, ◌==◌, nat_eq, list_eq, list_beq,
  if◌then◌else◌,
}
use ghaf_givc.Text.Defs.{Text, codes, rsplit_once}

abbrev pub has_root : Text → Bool
has_root [] = false
has_root (c ∷ s) = c == b'/'

abbrev last_is_slash : Text → Bool
last_is_slash [] = false
last_is_slash (c ∷ []) = c == b'/'
last_is_slash (c ∷ d ∷ s) = last_is_slash (d ∷ s)

-- `Path::join`; `PathBuf::push` writes the same text in place.
unfoldable pub join : Text → Text → Text
unfolding list_beq
join base name =
    if has_root name
    then name
    else if base == [] || last_is_slash base
    then base ++ name
    else base ++ (b'/' ∷ name)

pub data Component : Type 0 where
  root_dir cur_dir parent_dir : Component
  normal : Text → Component

abbrev pub prepend_head : ℕ → List Text → List Text
prepend_head c [] = (c ∷ []) ∷ []
prepend_head c (p ∷ ps) = (c ∷ p) ∷ ps

-- `str::split`, at a character.
unfoldable pub split_char : ℕ → Text → List Text
split_char sep [] = [] ∷ []
split_char sep (c ∷ s) =
    let rest = split_char sep s in if c == sep then [] ∷ rest else prepend_head c rest

-- The components behind the first piece: empty pieces and `.` are skipped.
unfoldable pub later_components : List Text → List Component
unfolding list_beq
later_components [] = []
later_components (p ∷ ps) =
    let rest = later_components ps in
    if p == [] || p == codes "."
    then rest
    else if p == codes ".."
    then parent_dir ∷ rest
    else normal p ∷ rest

abbrev first_component : List Text → List Component
first_component [] = []
first_component (p ∷ ps) =
    if p == codes "." then cur_dir ∷ later_components ps else later_components (p ∷ ps)

unfoldable pub components : Text → List Component
unfolding later_components split_char
components s =
    if has_root s
    then root_dir ∷ later_components (split_char b'/' s)
    else first_component (split_char b'/' s)

abbrev last_component : List Component → Option Component
last_component [] = none
last_component (c ∷ []) = some c
last_component (c ∷ d ∷ cs) = last_component (d ∷ cs)

-- What stands behind the last dot, unless that dot is the first character or there is none.
abbrev extension_of : Option (Text × Text) → Option Text
extension_of none = none
extension_of (some ([], ext)) = none
extension_of (some (c ∷ stem, ext)) = some ext

abbrev component_extension : Option Component → Option Text
component_extension none = none
component_extension (some (normal name)) = extension_of (rsplit_once b'.' name)
component_extension (some _) = none

-- `Path::extension`
unfoldable pub extension : Text → Option Text
unfolding components rsplit_once
extension s = component_extension (last_component (components s))

abbrev pub normal_name : Option Component → Option Text
normal_name (some (normal name)) = some name
normal_name _ = none

-- `Path::file_name`
unfoldable pub file_name : Text → Option Text
unfolding components
file_name s = normal_name (last_component (components s))
