-- ===== src/Image/Uki/RoundTrip.antt =====
-- crates/ota-update/src/image/uki.rs: `FromStr` against `Display`.
use ghaf_givc.Prelude.{
  ℕ, ◌-◌, ◌≤◌, ◌≡◌, refl, ◌∙◌, ◌≢◌, Option, none, some, ◌∷◌, ◌++◌, arith, eq_iff, list_beq, list_eq,
  option_eq, nat_eq, ok,
}
use mathlib.Core.List.{append-nil}
use ghaf_givc.Text.{
  Text, codes, strip_prefix-append, decimal, parse_unsigned-decimal, decimal-Lacks, u32_max,
  byte_len, split_at_checked, Lacks, Lacks-append, split_at_checked-byte_len, byte_len-append,
  split_once-append, split_once-Lacks, rsplit_once-append, rsplit_once-Lacks, eq_ignore_ascii_case,
}
use ghaf_givc.Image.Version.{Version}
use ghaf_givc.Image.Uki.{
  BootCounter, UkiEntry, used_text, counter_text, uki_text, efi_stem, parse_counter, split_counter,
  uki_of, parse_uki,
}

abbrev pub OptWithin : ℕ → Option ℕ → Type 0
OptWithin max none = Unit
OptWithin max (some n) = n ≤ max

-- The counters are 32-bit numbers.
abbrev pub IsCounter : Option BootCounter → Type 0
IsCounter none = Unit
IsCounter (some c) = (c.remaining ≤ u32_max) × OptWithin u32_max c.tries_used

-- A version that a file name can carry: a hash is there, the revision holds no dash and is not
-- `empty`, and neither part holds a plus sign.
pub record IsPortable (v : Version) : Type 0 where
  pub hash_text : Text
  pub hash_is : v.hash ≡ some hash_text
  pub no_dash : Lacks b'-' v.revision
  pub not_empty : v.revision ≢ codes "empty"
  pub no_plus : Lacks b'+' v.revision
  pub hash_no_plus : Lacks b'+' hash_text

parse_counter-decimal :
    (r : ℕ) (t : Option ℕ)
    → r ≤ u32_max
    → OptWithin u32_max t
    → parse_counter (decimal r ++ used_text t) ≡ ok (record { remaining = r; tries_used = t })
unfolding parse_counter
parse_counter-decimal r none h k = rw (append-nil (decimal r)) (
    rw (split_once-Lacks b'-' _ (decimal-Lacks b'-' r refl), parse_counter)
      (rw (parse_unsigned-decimal u32_max r h)))
parse_counter-decimal r (some n) h k =
    rw (split_once-append b'-' (decimal r) (decimal n) (decimal-Lacks b'-' r refl), parse_counter)
      (rw (parse_unsigned-decimal u32_max r h, parse_unsigned-decimal u32_max n k))

used_text-Lacks : (t : Option ℕ) → Lacks b'+' (used_text t)
used_text-Lacks none = tt
used_text-Lacks (some n) = (omega arith, decimal-Lacks b'+' n refl)

split_counter_lem :
    (core : Text) (c : Option BootCounter)
    → Lacks b'+' core
    → IsCounter c
    → split_counter (core ++ counter_text c) ≡ ok (core, c)
unfolding split_counter
split_counter_lem core none h k = rw append-nil (rw (rsplit_once-Lacks b'+' core h, split_counter))
split_counter_lem core (some c) h k =
    let right = decimal c.remaining ++ used_text c.tries_used in
    let lacks : Lacks b'+' right =
      Lacks-append b'+' _ _ (decimal-Lacks b'+' c.remaining refl) (used_text-Lacks c.tries_used) in
    rw (rsplit_once-append b'+' core right lacks, split_counter)
      (rw (parse_counter-decimal c.remaining c.tries_used k.0 k.1))

uki_of-core :
    (revision hash : Text) (c : Option BootCounter)
    → Lacks b'-' revision
    → revision ≢ codes "empty"
    → uki_of (revision ++ (b'-' ∷ hash), c)
      ≡ ok (record { version = record { revision = revision; hash = some hash }; boot_counter = c })
unfolding uki_of
uki_of-core revision hash c h k =
    ground (arith, split_once-append b'-' revision hash h, eq_iff revision (codes "empty"))

efi_stem_lem :
    (s : Text)
    → efi_stem (split_at_checked (byte_len (s ++ codes ".efi") - 4) (s ++ codes ".efi")) ≡ some s
unfolding eq_ignore_ascii_case list_beq
efi_stem_lem s =
    let e : byte_len (s ++ codes ".efi") - 4 ≡ byte_len s =
      unfold byte_len in omega (arith, byte_len-append s (codes ".efi")) in
    rw (e, split_at_checked-byte_len s (codes ".efi"))

parse_uki_parts :
    (core : Text) (c : Option BootCounter)
    → Lacks b'+' core
    → IsCounter c
    → parse_uki (codes "ghaf-" ++ ((core ++ counter_text c) ++ codes ".efi")) ≡ uki_of (core, c)
unfolding parse_uki
parse_uki_parts core c h k = rw (efi_stem_lem (codes "ghaf-" ++ (core ++ counter_text c))) (
    rw (strip_prefix-append (codes "ghaf-") (core ++ counter_text c))
      (rw (split_counter_lem core c h k)))

-- The file name of every image whose version is portable and whose counters fit 32 bits is
-- parsed back to that image.
pub parse_uki-uki_text :
    (u : UkiEntry) → IsPortable u.version → IsCounter u.boot_counter → parse_uki (uki_text u) ≡ ok u
unfolding uki_text
parse_uki-uki_text u p c = rw p.hash_is (
    parse_uki_parts (u.version.revision ++ (b'-' ∷ p.hash_text)) u.boot_counter
      (Lacks-append b'+' _ _ p.no_plus (omega arith, p.hash_no_plus)) c
    ∙ uki_of-core u.version.revision p.hash_text u.boot_counter p.no_dash p.not_empty
    ∙ cc)
