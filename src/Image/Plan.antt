-- ===== src/Image/Plan.antt =====
-- crates/ota-update/src/image/plan.rs: the commands that install or remove an image.
pub mod Commands
pub mod Prepared
pub mod Install
pub mod Remove
use ghaf_givc.Prelude.{
  ℕ, zero, suc, ◌+◌, ◌-◌, ◌*◌, ◌/◌, ◌%◌, ◌^◌, ◌≤◌, ◌<◌, ◌≡◌, refl, sym, ap, ap₂, subst, ◌∙◌, ◌≢◌,
  ◌↔◌, ◌⊎◌, inl, inr, Bool, true, false, not, ◌&&◌, ◌||◌, Option, none, some, List, [], ◌∷◌, ◌++◌,
  map, arith, ltb, leb, if◌then◌else◌, Bool-cases, &&-eq-true, Option-cases, is_some, is_some_and,
  Eq, ◌==◌, eq_iff, eq_refl, eq_cases, ne→eq_false, list_beq, option_beq, list_eq, option_eq,
  nat_eq, length, take, drop, length-append, length-take_of_le, take-append, drop-append, All, Any,
  any, find, Member, find_sound, any_sound, any_complete, filter_by, Only, Only-passes,
  filter_by-Only, Error, Result, ok, err, panic, ◌>>=◌, ◌>>◌, ensure, context, map_result,
  >>=-eq-ok, >>-eq-ok, Result-cases, missing_version, empty_name, unknown_kind, slot_already_used,
  not_an_efi, invalid_uki_prefix, invalid_remaining, invalid_used, missing_hash, empty_revision,
  duplicate_slot, multiple_ukis, already_has_uki, root_verity_mismatch, uki_root_mismatch,
  uki_verity_mismatch, empty_group_contains_uki, absolute_path, parent_dir_in_path, empty_path,
  non_relative_path, missing_file, not_a_regular_file, checksum_mismatch, invalid_verity_hash,
  ambiguous_slot, slot_not_found, no_active_slot, active_without_root, active_without_verity,
  unknown_size, unparsed_created_slot, identifiers_exhausted, no_root_volume, no_verity_volume,
  no_uki_name, cannot_remove_active, unknown_unit_type, unknown_protocol, invalid_number,
  status_missing, endpoint_missing, bad_vm_status, bad_trust_level, bad_vm_type, bad_service_type,
  repeated_initial, missing_item, not_an_application, not_registered, no_entries_match, no_service,
  more_than_one_service, managed_by_other, its_a_host,
}
use mathlib.Core.List.{append_assoc, append-nil}
use ghaf_givc.Text.{Text, codes}
use ghaf_givc.Image.Version.{Version}
use ghaf_givc.Image.Volume.{Volume, device_file}
use ghaf_givc.Image.Pipeline.{Pipeline, command, with_arg, with_args, single, pipe}
use ghaf_givc.Image.Slot.{Slot, into_version, rename}
use ghaf_givc.Image.Uki.{BootEntry, uki, uki_text, to_remove, is_legacy as is_legacy_entry}
use ghaf_givc.Image.Group
use ghaf_givc.Image.Group.{SlotGroup, is_active}
use ghaf_givc.Image.Manifest.{File, Manifest, to_version, full_name, is_compressed}
use ghaf_givc.Image.Runtime.{
  Runtime, SlotSelection, already_installed, selected, find_slot_group, active_slot,
  has_empty_with_hash, allocate_empty_identifier, select_update_slot,
}

-- A plan is its steps.
abbrev pub Plan : Type 0
Plan = List Pipeline

unfoldable pub install_volume : Volume → File → Text → Pipeline
unfolding device_file full_name is_compressed
install_volume volume file source =
    let target = device_file volume in
    let input = full_name file source in
    if is_compressed file
    then pipe (single (with_arg (command (codes "zstdcat")) input)) (
        with_args (command (codes "dd"))
          ((codes "of=" ++ target) ∷ codes "bs=4M" ∷ codes "status=progress" ∷ []))
    else single (
        with_args (command (codes "dd")) (
          (codes "if=" ++ input)
          ∷ (codes "of=" ++ target)
          ∷ codes "bs=4M"
          ∷ codes "status=progress"
          ∷ []))

unfoldable pub finalize_flush : Volume → Pipeline
unfolding device_file
finalize_flush volume =
    single (with_args (command (codes "blockdev")) (codes "--flushbufs" ∷ device_file volume ∷ []))

abbrev pub uki_name : Option BootEntry → Option Text
uki_name none = none
uki_name (some b) = elim (uki b) [ none ↦ none | some u ↦ some (uki_text u) ]

unfoldable pub uki_command : File → Text → Text → Text → Pipeline
unfolding full_name
uki_command file boot source name = single (
    with_args (command (codes "install")) (
      codes "-m"
      ∷ codes "0644"
      ∷ full_name file source
      ∷ (boot ++ (codes "/EFI/Linux/" ++ name))
      ∷ []))

unfoldable pub install_uki : SlotGroup → File → Text → Text → Result Pipeline
install_uki slot file boot source = do
  name ← context no_uki_name (uki_name slot.boot)
  ok (uki_command file boot source name)

unfoldable pub legacy_bootloader_migration : Runtime → Plan
legacy_bootloader_migration rt =
    single (
      with_args (command (codes "sed")) (
        codes "-i"
        ∷ codes "s/^default .*/default @saved/"
        ∷ (rt.boot ++ codes "/loader/loader.conf")
        ∷ []))
    ∷ single (
        with_args (command (codes "rm"))
          (codes "-f" ∷ (rt.boot ++ codes "/loader/entries.srel") ∷ []))
    ∷ single (with_args (command (codes "bootctl")) (codes "set-default" ∷ codes "auto" ∷ []))
    ∷ []

abbrev pub migration_for : Runtime → SlotGroup → Plan
migration_for rt active = if Group.is_legacy active then legacy_bootloader_migration rt else []

unfoldable pub install_into_slot : Runtime → Manifest → SlotGroup → Text → Result Plan
install_into_slot rt m slot source = do
  root ← context no_root_volume slot.root
  verity ← context no_verity_volume slot.verity
  version ← to_version m
  new_root ← into_version root version
  new_verity ← into_version verity version
  uki_step ← install_uki slot m.kernel rt.boot source
  active ← active_slot rt
  ok (
      install_volume root.volume m.store source
      ∷ install_volume verity.volume m.verity source
      ∷ finalize_flush root.volume
      ∷ finalize_flush verity.volume
      ∷ rename new_root
      ∷ rename new_verity
      ∷ uki_step
      ∷ migration_for rt active)

-- The steps for a selection.
unfoldable pub install_selection : Runtime → Manifest → Text → SlotSelection → Result Plan
install_selection rt m source already_installed = ok []
install_selection rt m source (selected slot pre_steps) = do
  steps ← install_into_slot rt m slot source
  ok (pre_steps ++ steps)

unfoldable pub install : Runtime → Manifest → Text → Result Plan
install rt m source = select_update_slot rt m >>= install_selection rt m source

-- Renames one volume, whose new name is built from its kind and the identifier.
abbrev pub rename_to_empty : Text → Text → Option Slot → Plan
rename_to_empty kind empty_id none = []
rename_to_empty kind empty_id (some s) =
    single (
      with_args (command (codes "lvrename"))
        (s.volume.vg_name ∷ s.volume.lv_name ∷ (kind ++ (codes "_empty_" ++ empty_id)) ∷ []))
    ∷ []

unfoldable pub rename_slot_to_empty : SlotGroup → Text → Plan
rename_slot_to_empty slot empty_id =
    rename_to_empty (codes "root") empty_id slot.root
    ++ rename_to_empty (codes "verity") empty_id slot.verity

-- The group's own identifier unless it is taken, else a new one.
unfoldable pub empty_id_for : Runtime → Option Text → Result Text
empty_id_for rt none = allocate_empty_identifier rt
empty_id_for rt (some h) =
    if not (has_empty_with_hash rt h) then ok h else allocate_empty_identifier rt

abbrev pub remove_boot : Option BootEntry → Plan
remove_boot none = []
remove_boot (some b) = to_remove b ∷ []

abbrev pub remove_legacy : Runtime → SlotGroup → Plan
remove_legacy rt slot =
    if Group.is_legacy slot then map to_remove (filter_by is_legacy_entry rt.boot_entries) else []

unfoldable pub remove : Runtime → Version → Result Plan
remove rt version = do
  slot ← find_slot_group rt version
  ensure (not (is_active slot rt.kernel)) cannot_remove_active
  empty_id ← empty_id_for rt (Group.empty_id slot)
  ok (remove_boot slot.boot ++ (remove_legacy rt slot ++ rename_slot_to_empty slot empty_id))
