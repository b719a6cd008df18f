-- ===== src/Image/Version.antt =====
-- crates/ota-update/src/image/version.rs: the version of an image.
use ghaf_givc.Prelude.{
  ◌≡◌, ◌↔◌, Bool, ◌&&◌, Option, none, some, ◌++◌, ◌==◌, Eq, eq_iff, nat_eq, list_eq, option_eq,
  is_some, arith, true, [],
}
use ghaf_givc.Text.{Text, codes}

pub record Version : Type 0 where
  pub revision : Text
  pub hash : Option Text

unfoldable pub version_beq : Version → Version → Bool
version_beq v w = v.revision == w.revision && v.hash == w.hash

pub version_beq_iff : (v w : Version) → (version_beq v w ≡ true) ↔ (v ≡ w)
unfolding version_beq
version_beq_iff v w = ground (arith, eq_iff v.revision w.revision, eq_iff v.hash w.hash)

instance abbrev pub version_eq : Eq Version
version_eq = record { beq = version_beq; beq_iff = version_beq_iff }

abbrev pub has_hash : Version → Bool
has_hash v = is_some v.hash

-- `-{hash}` of the alternate form `{:#}`
abbrev pub dashed : Option Text → Text
dashed none = []
dashed (some hash) = codes "-" ++ hash

-- `{}`
abbrev pub display : Version → Text
display v = v.revision

-- `{:#}`
abbrev pub display_alternate : Version → Text
display_alternate v = v.revision ++ dashed v.hash
