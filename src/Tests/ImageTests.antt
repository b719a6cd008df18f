-- ===== src/Tests/ImageTests.antt =====
-- crates/ota-update/src/image: one machine with a used and an empty slot, and a manifest for it.
use ghaf_givc.Prelude.{
  ℕ, ◌≡◌, refl, ◌≢◌, inl, inr, false, none, some, [], ◌∷◌, ◌++◌, arith, ◌==◌, eq_iff, eq_cases,
  list_beq, option_beq, list_eq, option_eq, nat_eq, All, any, Result, ok, err, panic,
}
use mathlib.Core.List.{Perm}
use ghaf_givc.Text.{Text, codes, rsplit_once, Lacks}
use ghaf_givc.Image.Version.{Version, version_beq}
use ghaf_givc.Image.Volume.{Volume}
use ghaf_givc.Image.Slot.{
  Slot, root, verity, used, empty, known, decode_status, name_text, status_beq, broken, split_name,
  assemble, parse_kind, status_of,
}
use ghaf_givc.Image.Slot.RoundTrip.{IsNamed, decode_status-name_text, name_text-decode_status}
use ghaf_givc.Image.Uki.{BootEntry, managed, UkiEntry, uki_text, parse_uki}
use ghaf_givc.Image.Uki.RoundTrip.{IsPortable, parse_uki-uki_text}
use ghaf_givc.Image.Kernel.{KernelParams}
use ghaf_givc.Image.Group.{
  SlotGroup, group_volumes, classify, add_slots, add_slot, attach_slot, matches_slot, add_boots,
  add_boot, matches_boot,
}
use ghaf_givc.Image.Group.Conserved.{slots_of, boots_of, group_volumes-perm}
use ghaf_givc.Image.Group.Classify.{classify-broken}
use ghaf_givc.Image.Group.Coherence.{IsCoherent, group_volumes-IsCoherent}
use ghaf_givc.Image.Manifest.{File, Manifest}
use ghaf_givc.Image.Runtime.{Runtime}

-- The result of a call that succeeds.
abbrev value_of {ℓ} : {A : Type ℓ} → A → Result A → A
value_of other (ok a) = a
value_of other (err e) = other
value_of other panic = other

abbrev pub hash_text : Text
hash_text = codes "0123456789abcdef"

abbrev pub old_version : Version
old_version = record { revision = codes "1.0"; hash = some hash_text }

abbrev volume : Text → Volume
volume name = record {
  lv_name = name;
  vg_name = codes "pool";
  lv_attr = none;
  lv_size_bytes = some 4096;
}

abbrev used_root : Slot
used_root = record {
  kind = root;
  status = used old_version;
  volume = volume (codes "root_1.0_0123456789abcdef");
}

abbrev used_verity : Slot
used_verity = record {
  kind = verity;
  status = used old_version;
  volume = volume (codes "verity_1.0_0123456789abcdef");
}

abbrev empty_root : Slot
empty_root = record {
  kind = root;
  status = empty (known (codes "0"));
  volume = volume (codes "root_empty_0");
}

abbrev empty_verity : Slot
empty_verity = record {
  kind = verity;
  status = empty (known (codes "0"));
  volume = volume (codes "verity_empty_0");
}

abbrev old_uki : UkiEntry
old_uki = record { version = old_version; boot_counter = none }

abbrev counted_uki : UkiEntry
counted_uki = record {
  version = old_version;
  boot_counter = some (record { remaining = 3; tries_used = some 1 });
}

abbrev old_boot : BootEntry
old_boot = record { id = codes "ghaf-1.0-0123456789abcdef.efi"; kind = managed old_uki }

abbrev pub old_group : SlotGroup
old_group = record { root = some used_root; verity = some used_verity; boot = some old_boot }

abbrev pub empty_group : SlotGroup
empty_group = record { root = some empty_root; verity = some empty_verity; boot = none }

abbrev pub long_hash : Text
long_hash = hash_text ++ (hash_text ++ (hash_text ++ hash_text))

abbrev pub kernel : KernelParams
kernel = record { store_hash = some long_hash; revision = some (codes "1.0") }

abbrev pub machine : Runtime
machine = record {
  slotgroups = old_group ∷ empty_group ∷ [];
  volumes = [];
  kernel = kernel;
  boot_entries = [];
  boot = codes "/boot";
}

abbrev file : Text → File
file name = record { name = name; sha256sum = []; unpacked_size = some 8192 }

abbrev pub update : Text → Text → Manifest
update version hash = record {
  meta = [];
  manifest_version = 1;
  system = none;
  version = version;
  root_verity_hash = hash;
  kernel = file (codes "kernel.efi");
  store = file (codes "root.zst");
  verity = file (codes "verity.raw");
}

abbrev pub target : Version
target = record { revision = codes "2.0"; hash = some (codes "fedcba9876543210") }

abbrev pub new_manifest : Manifest
new_manifest = update (codes "2.0") (codes "fedcba98765432100123")

group_volumes-IsCoherent_example : All IsCoherent (old_group ∷ empty_group ∷ [])
unfolding group_volumes add_slots add_slot attach_slot matches_slot add_boots add_boot matches_boot
    status_beq version_beq list_beq option_beq
group_volumes-IsCoherent_example =
    group_volumes-IsCoherent (used_root ∷ empty_verity ∷ empty_root ∷ used_verity ∷ [])
      (old_boot ∷ []) (old_group ∷ empty_group ∷ []) (refl, tt) refl

group_volumes-perm_example :
    Perm
      (slots_of (old_group ∷ empty_group ∷ []))
      (used_root ∷ empty_verity ∷ empty_root ∷ used_verity ∷ [])
    × Perm (boots_of (old_group ∷ empty_group ∷ [])) (old_boot ∷ [])
unfolding group_volumes add_slots add_slot attach_slot matches_slot add_boots add_boot matches_boot
    status_beq version_beq list_beq option_beq
group_volumes-perm_example =
    group_volumes-perm (used_root ∷ empty_verity ∷ empty_root ∷ used_verity ∷ []) (old_boot ∷ [])
      (old_group ∷ empty_group ∷ []) refl

classify-broken_example : classify old_group kernel ≡ broken
classify-broken_example = classify-broken old_group kernel

lacking : (sep : ℕ) (s : Text) → any (λ c. c == sep) s ≡ false → Lacks sep s
unfolding any
lacking sep [] h = tt
lacking sep (c ∷ s) h = elim (eq_cases c sep) [
  | inl (_, e) ↦ absurd (ground arith)
  | inr (n, e) ↦ (n, lacking sep s (rw (e, any) at h))
]

-- A text is not another one, by the test.
differs : (s t : Text) → (s == t) ≡ false → s ≢ t
differs s t h e = cc (h, (eq_iff s t).1 e)

old_version-IsNamed : IsNamed (used old_version)
unfolding any list_beq
old_version-IsNamed = (
  lacking b'_' (codes "1.0") refl,
  differs (codes "1.0") (codes "empty") refl,
  lacking b'_' hash_text refl,
)

decode_status-name_text_example :
    decode_status (name_text root (used old_version)) ≡ ok (root, used old_version)
decode_status-name_text_example =
    decode_status-name_text root (used old_version) old_version-IsNamed

name_text-decode_status_example :
    name_text verity (empty (known (codes "0"))) ≡ codes "verity_empty_0"
unfolding decode_status split_name rsplit_once assemble parse_kind status_of list_beq
name_text-decode_status_example =
    name_text-decode_status (codes "verity_empty_0") verity (empty (known (codes "0"))) refl

old_version-IsPortable : IsPortable old_version
unfolding any list_beq
old_version-IsPortable = record {
  hash_text = hash_text;
  hash_is = refl;
  no_dash = lacking b'-' (codes "1.0") refl;
  not_empty = differs (codes "1.0") (codes "empty") refl;
  no_plus = lacking b'+' (codes "1.0") refl;
  hash_no_plus = lacking b'+' hash_text refl;
}

parse_uki-uki_text_example : parse_uki (uki_text counted_uki) ≡ ok counted_uki
parse_uki-uki_text_example =
    parse_uki-uki_text counted_uki old_version-IsPortable (omega arith, omega arith)
