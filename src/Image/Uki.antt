-- ===== src/Image/Uki.antt =====
-- crates/ota-update/src/image/uki.rs: boot entries, and the file names of kernel images.
pub mod RoundTrip
use ghaf_givc.Prelude.{
  ℕ, ◌+◌, ◌-◌, ◌*◌, ◌/◌, ◌%◌, ◌^◌, ◌≤◌, ◌<◌, ◌≡◌, ◌∙◌, ◌≢◌, ◌↔◌, ◌⊎◌, Bool, true, false, not, ◌&&◌,
  ◌||◌, Option, none, some, List, [], ◌∷◌, ◌++◌, if◌then◌else◌, Bool-cases, &&-eq-true,
  Option-cases, is_some, ◌==◌, ne→eq_false, list_beq, list_eq, option_eq, nat_eq, length-append,
  length-take_of_le, take-append, drop-append, Result, ok, ◌>>=◌, ◌>>◌, ensure, context, >>=-eq-ok,
  Result-cases, not_an_efi, invalid_uki_prefix, invalid_remaining, invalid_used, missing_hash,
  empty_revision,
}
use mathlib.Core.List.{append-nil}
use ghaf_givc.Text.{
  Text, codes, split_once, rsplit_once, strip_prefix, decimal, parse_unsigned, u32_max, byte_len,
  split_at_checked, eq_ignore_ascii_case, join,
}
use ghaf_givc.Image.Version.{Version, version_eq, display_alternate}
use ghaf_givc.Image.Slot.{Slot, version as slot_version}
use ghaf_givc.Image.Pipeline.{Pipeline, command, with_arg, single}

pub record BootCounter : Type 0 where
  pub remaining : ℕ
  pub tries_used : Option ℕ

pub record UkiEntry : Type 0 where
  pub version : Version
  pub boot_counter : Option BootCounter

pub data BootEntryKind : Type 0 where
  managed : UkiEntry → BootEntryKind
  unmanaged legacy : BootEntryKind

pub record BootEntry : Type 0 where
  pub id : Text
  pub kind : BootEntryKind

-- What `bootctl` reports of an entry (crates/ota-update/src/bootctl.rs), as far as it is read here.
pub record BootctlItem : Type 0 where
  pub id : Text
  pub type_of : Text

abbrev pub used_text : Option ℕ → Text
used_text none = []
used_text (some n) = codes "-" ++ decimal n

abbrev pub counter_text : Option BootCounter → Text
counter_text none = []
counter_text (some c) = codes "+" ++ (decimal c.remaining ++ used_text c.tries_used)

-- `Display`
unfoldable pub uki_text : UkiEntry → Text
uki_text u =
    codes "ghaf-" ++ ((display_alternate u.version ++ counter_text u.boot_counter) ++ codes ".efi")

abbrev efi_stem : Option (Text × Text) → Option Text
efi_stem none = none
efi_stem (some (stem, ext)) = if eq_ignore_ascii_case ext (codes ".efi") then some stem else none

-- `+N` or `+N-M`
unfoldable pub parse_counter : Text → Result BootCounter
parse_counter right = elim (split_once b'-' right) [
  | some (r, u) ↦ do
    remaining ← context invalid_remaining (parse_unsigned u32_max r)
    tries_used ← context invalid_used (parse_unsigned u32_max u)
    ok (record { remaining = remaining; tries_used = some tries_used })
  | none ↦ do
    remaining ← context invalid_remaining (parse_unsigned u32_max right)
    ok (record { remaining = remaining; tries_used = none })
]

abbrev some_counter : Text → BootCounter → Text × Option BootCounter
some_counter left c = (left, some c)

-- The name without its counters, and the counters.
unfoldable pub split_counter : Text → Result (Text × Option BootCounter)
split_counter stem = elim (rsplit_once b'+' stem) [
  | some (left, right) ↦ do c ← parse_counter right; ok (some_counter left c)
  | none ↦ ok (stem, none)
]

-- The version of the name, behind the counters.
unfoldable pub uki_of : Text × Option BootCounter → Result UkiEntry
unfolding list_beq
uki_of (core, counter) = do
  (revision, hash) ← context missing_hash (split_once b'-' core)
  ensure (not (revision == codes "empty")) empty_revision
  ok (record { version = record { revision = revision; hash = some hash }; boot_counter = counter })

-- `FromStr`
unfoldable pub parse_uki : Text → Result UkiEntry
parse_uki name = do
  stem ← context not_an_efi (efi_stem (split_at_checked (byte_len name - 4) name))
  stem' ← context invalid_uki_prefix (strip_prefix (codes "ghaf-") stem)
  parts ← split_counter stem'
  uki_of parts

abbrev managed_or_not : Result UkiEntry → BootEntryKind
managed_or_not (ok uki) = managed uki
managed_or_not _ = unmanaged

-- The entry for an item, if it is of a known type.
unfoldable pub entry_of : BootctlItem → Option BootEntry
unfolding list_beq
entry_of item =
    if item.type_of == codes "type2"
    then some (record { id = item.id; kind = managed_or_not (parse_uki item.id) })
    else if item.type_of == codes "type1"
    then some (record { id = item.id; kind = legacy })
    else none

abbrev keep_entry : Option BootEntry → List BootEntry → List BootEntry
keep_entry none rest = rest
keep_entry (some e) rest = e ∷ rest

unfoldable pub from_bootctl : List BootctlItem → List BootEntry
from_bootctl [] = []
from_bootctl (item ∷ items) = keep_entry (entry_of item) (from_bootctl items)

abbrev pub kind_uki : BootEntryKind → Option UkiEntry
kind_uki (managed u) = some u
kind_uki unmanaged = none
kind_uki legacy = none

abbrev pub uki : BootEntry → Option UkiEntry
uki b = kind_uki b.kind

abbrev pub is_managed : BootEntry → Bool
is_managed b = is_some (uki b)

abbrev pub kind_is_legacy : BootEntryKind → Bool
kind_is_legacy legacy = true
kind_is_legacy unmanaged = false
kind_is_legacy (managed u) = false

abbrev pub is_legacy : BootEntry → Bool
is_legacy b = kind_is_legacy b.kind

abbrev pub kind_version : BootEntryKind → Option Version
kind_version (managed u) = some u.version
kind_version unmanaged = none
kind_version legacy = none

-- `BootEntry::version`
abbrev pub version : BootEntry → Option Version
version b = kind_version b.kind

-- `UkiEntry::matches`
abbrev pub uki_matches : UkiEntry → Slot → Bool
uki_matches u s = slot_version s == some u.version

abbrev pub kind_matches : BootEntryKind → Slot → Bool
kind_matches (managed u) s = uki_matches u s
kind_matches unmanaged s = false
kind_matches legacy s = false

-- `BootEntry::matches`
abbrev pub matches : BootEntry → Slot → Bool
matches b = kind_matches b.kind

unfoldable pub to_remove : BootEntry → Pipeline
to_remove b = single (with_arg (with_arg (command (codes "bootctl")) (codes "unlink")) b.id)

-- The conversion of a kernel image into its boot entry.
abbrev pub from_uki : UkiEntry → BootEntry
from_uki u = record { id = uki_text u; kind = managed u }

unfoldable pub uki_full_name : Text → UkiEntry → Text
uki_full_name base_dir u = join base_dir (uki_text u)
