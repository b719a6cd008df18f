-- ===== src/Tests/PlanTests.antt =====
-- crates/ota-update/src/image: an update of one machine, a removal, and what comes before them.
use ghaf_givc.Prelude.{
  ◌≡◌, refl, ◌↔◌, ◌⊎◌, true, none, some, List, [], ◌++◌, arith, list_beq, option_beq, list_eq,
  option_eq, nat_eq, any, find, filter_by, Result, ok, err, panic,
}
use ghaf_givc.Text.{Text, codes, decimal, decimal_fuel, contains, len_utf8, split_at_checked}
use ghaf_givc.Image.Version.{version_beq}
use ghaf_givc.Image.Pipeline.{Pipeline}
use ghaf_givc.Image.Uki.{BootEntry, from_uki}
use ghaf_givc.Image.Kernel.{fragment}
use ghaf_givc.Image.Kernel
use ghaf_givc.Image.Group.{SlotGroup, is_active, attach_uki}
use ghaf_givc.Image.Slot.{into_version}
use ghaf_givc.Image.Manifest.{
  to_version, hash_fragment, FileSystem, validate, normalize_relative_path,
}
use ghaf_givc.Image.Manifest.Validation.{IsPresent, validate_iff}
use ghaf_givc.Image.Manifest.Paths.{IsNormalized, normalize_relative_path_iff}
use ghaf_givc.Image.Runtime.{
  Runtime, already_installed, selected, select_update_slot, choose_empty, find_slot_group,
  find_by_revision, find_exact_one_group, or_by_revision, active_slot, used_ids,
  allocate_empty_identifier, first_free, resize_steps_for_slot,
}
use ghaf_givc.Image.Runtime.Identifiers.{IsFree, allocate_empty_identifier_total}
use ghaf_givc.Image.Runtime.Selection.{IsTarget, Origin, select_update_slot_sound}
use ghaf_givc.Image.Runtime.Lookup.{Found, find_slot_group_sound}
use ghaf_givc.Image.Plan.{
  Plan, install, install_selection, install_into_slot, install_uki, remove, empty_id_for,
}
use ghaf_givc.Image.Plan.Install.{Installs, install_sound}
use ghaf_givc.Image.Plan.Remove.{Removes, remove_sound}
use ghaf_givc.Tests.ImageTests.{
  old_version, old_group, empty_group, long_hash, machine, target, new_manifest,
}

-- The result of a call that succeeds.
abbrev value_of {ℓ} : {A : Type ℓ} → A → Result A → A
value_of other (ok a) = a
value_of other (err e) = other
value_of other panic = other

target_lem : to_version new_manifest ≡ ok target
unfolding to_version hash_fragment split_at_checked len_utf8
target_lem = refl

abbrev install_plan : Plan
install_plan = value_of [] (install machine new_manifest (codes "/src"))

installs : install machine new_manifest (codes "/src") ≡ ok install_plan
unfolding install select_update_slot choose_empty to_version hash_fragment split_at_checked len_utf8
    any find version_beq list_beq option_beq attach_uki install_selection install_into_slot
    into_version install_uki active_slot find_exact_one_group filter_by is_active Kernel.to_version
    fragment
installs = refl

install_sound_example :
    (select_update_slot machine new_manifest ≡ ok already_installed) × (install_plan ≡ [])
    ⊎ Installs machine new_manifest (codes "/src") target install_plan
install_sound_example =
    install_sound machine new_manifest (codes "/src") target install_plan target_lem installs

abbrev new_boot : BootEntry
new_boot = from_uki (record { version = target; boot_counter = none })

abbrev pre_steps : List Pipeline
pre_steps = resize_steps_for_slot empty_group new_manifest

abbrev new_slot : SlotGroup
new_slot = record empty_group { boot = some new_boot }

selects : select_update_slot machine new_manifest ≡ ok (selected new_slot pre_steps)
unfolding select_update_slot choose_empty to_version hash_fragment split_at_checked len_utf8 any
    find version_beq list_beq option_beq attach_uki is_active Kernel.to_version fragment
selects = refl

select_update_slot_sound_example : IsTarget target new_slot × Origin machine new_slot
select_update_slot_sound_example =
    select_update_slot_sound machine new_manifest target new_slot pre_steps target_lem selects

finds_old : find_slot_group machine (record { revision = codes "1.0"; hash = none }) ≡ ok old_group
unfolding find_slot_group find_exact_one_group filter_by or_by_revision find_by_revision version_beq
    list_beq option_beq
finds_old = refl

find_slot_group_sound_example :
    Found machine (record { revision = codes "1.0"; hash = none }) old_group
find_slot_group_sound_example =
    find_slot_group_sound machine (record { revision = codes "1.0"; hash = none }) old_group
      finds_old

abbrev other_machine : Runtime
other_machine = record machine {
  kernel = record { store_hash = none; revision = some (codes "0.9") };
}

abbrev remove_plan : Plan
remove_plan = value_of [] (remove other_machine old_version)

removes : remove other_machine old_version ≡ ok remove_plan
unfolding remove find_slot_group find_exact_one_group filter_by or_by_revision find_by_revision
    is_active Kernel.to_version fragment split_at_checked len_utf8 version_beq list_beq option_beq
    empty_id_for allocate_empty_identifier first_free used_ids contains decimal decimal_fuel
removes = refl

remove_sound_example : Removes other_machine old_version remove_plan
remove_sound_example = remove_sound other_machine old_version remove_plan removes

allocate_empty_identifier_total_example :
    (id : Text) × (allocate_empty_identifier machine ≡ ok id)
    × IsFree 0 100 (used_ids machine.slotgroups) id
allocate_empty_identifier_total_example = allocate_empty_identifier_total machine (omega arith)

abbrev cmdline : Text
cmdline = codes "quiet ghaf.storehash=" ++ (long_hash ++ codes " ghaf.revision=1.0")

abbrev disk : FileSystem
disk = record { try_exists = λ _. ok true; is_file = λ _. ok true; read_sha256 = λ _. ok [] }

validate_iff_example : (validate disk (codes "/src") true new_manifest ≡ ok tt) ↔ (
    IsPresent disk (codes "/src") true new_manifest.kernel
    × IsPresent disk (codes "/src") true new_manifest.store
    × IsPresent disk (codes "/src") true new_manifest.verity)
validate_iff_example = validate_iff disk (codes "/src") true new_manifest

normalize_relative_path_iff_example :
    (normalize_relative_path (codes "a//./b") ≡ ok (codes "a/b"))
    ↔ IsNormalized (codes "a//./b") (codes "a/b")
normalize_relative_path_iff_example = normalize_relative_path_iff (codes "a//./b") (codes "a/b")
