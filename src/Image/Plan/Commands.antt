-- ===== src/Image/Plan/Commands.antt =====
-- crates/ota-update/src/image: the commands on volumes and boot entries, written out, and which
-- commands prepare the volumes of an installation.
use ghaf_givc.Prelude.{
  ◌≡◌, refl, ap, ap₂, Option, none, some, List, [], ◌∷◌, ◌++◌, map, if◌then◌else◌, list_eq,
  option_eq, nat_eq, filter_by,
}
use ghaf_givc.Text.{Text, codes}
use ghaf_givc.Image.Volume.{Volume, device_file}
use ghaf_givc.Image.Pipeline.{Pipeline}
use ghaf_givc.Image.Slot.{Slot, Kind, root, verity, empty, known, name_text, kind_text}
use ghaf_givc.Image.Uki.{BootEntry, to_remove, is_legacy as is_legacy_entry}
use ghaf_givc.Image.Group
use ghaf_givc.Image.Group.{SlotGroup}
use ghaf_givc.Image.Runtime.{Runtime}
use ghaf_givc.Image.Manifest.{File, full_name, is_compressed}
use ghaf_givc.Image.Plan.{rename_to_empty, rename_slot_to_empty, remove_boot, remove_legacy}

-- A single command.
abbrev pub runs : Text → List Text → Pipeline
runs program args = record { stages = record { program = program; args = args } ∷ [] }

abbrev pub renames : Volume → Text → Pipeline
renames volume name = runs (codes "lvrename") (volume.vg_name ∷ volume.lv_name ∷ name ∷ [])

-- Nothing for a part that is not there.
abbrev pub for_part : {A : Type 0} → (A → Pipeline) → Option A → List Pipeline
for_part f none = []
for_part f (some a) = f a ∷ []

abbrev pub unlinks : BootEntry → Pipeline
unlinks b = runs (codes "bootctl") (codes "unlink" ∷ b.id ∷ [])

pub to_remove_lem : (b : BootEntry) → to_remove b ≡ unlinks b
unfolding to_remove
to_remove_lem b = refl

pub remove_boot_lem : (b : Option BootEntry) → remove_boot b ≡ for_part unlinks b
remove_boot_lem none = refl
remove_boot_lem (some b) = ap (λ p. p ∷ []) (to_remove_lem b)

-- Both volumes are renamed to what empty slots with the identifier are called.
abbrev pub empties : SlotGroup → Text → List Pipeline
empties slot id =
    for_part (λ (s : Slot). renames s.volume (name_text root (empty (known id)))) slot.root
    ++ for_part (λ (s : Slot). renames s.volume (name_text verity (empty (known id)))) slot.verity

rename_to_empty_lem :
    (k : Kind) (id : Text) (o : Option Slot)
    → rename_to_empty (kind_text k) id o
      ≡ for_part (λ (s : Slot). renames s.volume (name_text k (empty (known id)))) o
rename_to_empty_lem k id none = refl
rename_to_empty_lem k id (some s) = refl

pub rename_slot_to_empty_lem :
    (slot : SlotGroup) (id : Text) → rename_slot_to_empty slot id ≡ empties slot id
unfolding rename_slot_to_empty
rename_slot_to_empty_lem slot id =
    ap₂ (λ a b. a ++ b) (rename_to_empty_lem root id slot.root)
      (rename_to_empty_lem verity id slot.verity)

map-unlinks : (bs : List BootEntry) → map to_remove bs ≡ map unlinks bs
map-unlinks [] = refl
map-unlinks (b ∷ bs) = ap₂ (λ p ps. p ∷ ps) (to_remove_lem b) (map-unlinks bs)

-- For a legacy group its legacy entries are unlinked.
abbrev pub legacy_unlinks : Runtime → SlotGroup → List Pipeline
legacy_unlinks rt slot =
    if Group.is_legacy slot then map unlinks (filter_by is_legacy_entry rt.boot_entries) else []

pub remove_legacy_lem :
    (rt : Runtime) (slot : SlotGroup) → remove_legacy rt slot ≡ legacy_unlinks rt slot
remove_legacy_lem rt slot =
    ap (λ l. if Group.is_legacy slot then l else [])
      (map-unlinks (filter_by is_legacy_entry rt.boot_entries))

-- Writes an image to its volume.
abbrev pub writes : Volume → File → Text → Pipeline
writes volume file source =
    let target = codes "of=" ++ device_file volume in
    if is_compressed file
    then record {
      stages =
          record { program = codes "zstdcat"; args = full_name file source ∷ [] }
          ∷ record {
            program = codes "dd";
            args = target ∷ codes "bs=4M" ∷ codes "status=progress" ∷ [];
          }
          ∷ [];
    }
    else runs (codes "dd") (
        (codes "if=" ++ full_name file source)
        ∷ target
        ∷ codes "bs=4M"
        ∷ codes "status=progress"
        ∷ [])

abbrev pub flushes : Volume → Pipeline
flushes volume = runs (codes "blockdev") (codes "--flushbufs" ∷ device_file volume ∷ [])

-- Installs a kernel image under its name.
abbrev pub installs_uki : File → Text → Text → Text → Pipeline
installs_uki file boot source name = runs (codes "install") (
    codes "-m"
    ∷ codes "0644"
    ∷ full_name file source
    ∷ (boot ++ (codes "/EFI/Linux/" ++ name))
    ∷ [])

-- From a legacy group the boot loader is told to choose by itself.
abbrev pub migrates : Runtime → SlotGroup → List Pipeline
migrates rt active =
    if Group.is_legacy active
    then runs (codes "sed") (
        codes "-i"
        ∷ codes "s/^default .*/default @saved/"
        ∷ (rt.boot ++ codes "/loader/loader.conf")
        ∷ [])
      ∷ runs (codes "rm") (codes "-f" ∷ (rt.boot ++ codes "/loader/entries.srel") ∷ [])
      ∷ runs (codes "bootctl") (codes "set-default" ∷ codes "auto" ∷ [])
      ∷ []
    else []
