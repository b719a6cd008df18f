-- ===== src/Image/Group.antt =====
-- crates/ota-update/src/image/group.rs: root, verity and boot entry of one update.
pub mod Coherence
pub mod Grouping
pub mod Conserved
pub mod Classify
use ghaf_givc.Prelude.{
  ℕ, ◌+◌, ◌-◌, ◌*◌, ◌/◌, ◌%◌, ◌^◌, ◌≤◌, ◌<◌, ◌≡◌, ◌∙◌, ◌≢◌, ◌↔◌, ◌⊎◌, Bool, false, not, ◌&&◌, ◌||◌,
  Option, none, some, List, [], ◌∷◌, ◌++◌, if◌then◌else◌, Bool-cases, &&-eq-true, Option-cases,
  is_some, is_some_and, ◌==◌, ne→eq_false, list_eq, option_eq, nat_eq, length-append,
  length-take_of_le, take-append, drop-append, Error, Result, ok, err, panic, ◌>>=◌, ◌>>◌, ensure,
  >>=-eq-ok, Result-cases, duplicate_slot, multiple_ukis, already_has_uki, root_verity_mismatch,
  uki_root_mismatch, uki_verity_mismatch, empty_group_contains_uki,
}
use mathlib.Core.List.{append-nil}
use ghaf_givc.Text.{Text}
use ghaf_givc.Image.Version.{Version, version_eq}
use ghaf_givc.Image.Kernel.{KernelParams, to_version}
use ghaf_givc.Image.Slot
use ghaf_givc.Image.Slot.{Slot, Kind, root, verity, SlotClass, broken, active, vacant, inactive}
use ghaf_givc.Image.Uki
use ghaf_givc.Image.Uki.{BootEntry, UkiEntry, from_uki}

pub record SlotGroup : Type 0 where
  pub root : Option Slot
  pub verity : Option Slot
  pub boot : Option BootEntry

-- `SlotGroup::default`
abbrev pub empty_group : SlotGroup
empty_group = record { root = none; verity = none; boot = none }

unfoldable pub matches_slot : SlotGroup → Slot → Bool
matches_slot g slot =
    is_some_and (λ r. Slot.matches r slot) g.root || is_some_and (λ v. Slot.matches v slot) g.verity

unfoldable pub matches_boot : SlotGroup → BootEntry → Bool
matches_boot g boot =
    let bv = Uki.version boot in
    is_some_and (λ r. Slot.version r == bv || is_some_and (λ v. Slot.version v == bv) g.verity)
      g.root

abbrev pub attach_as : Kind → SlotGroup → Slot → Result SlotGroup
attach_as Kind.root g slot = do
  ensure (not (is_some g.root)) duplicate_slot
  ok (record g { root = some slot })
attach_as Kind.verity g slot = do
  ensure (not (is_some g.verity)) duplicate_slot
  ok (record g { verity = some slot })

unfoldable pub attach_slot : SlotGroup → Slot → Result SlotGroup
attach_slot g slot = attach_as slot.kind g slot

abbrev pub in_front : SlotGroup → List SlotGroup → Result (List SlotGroup)
in_front g gs = ok (g ∷ gs)

-- One round of the first loop: the first group that matches, or a new one at the end.
unfoldable pub add_slot : Slot → List SlotGroup → Result (List SlotGroup)
add_slot slot [] = do g ← attach_slot empty_group slot; ok (g ∷ [])
add_slot slot (g ∷ gs) =
    let rest = add_slot slot gs >>= in_front g in
    if matches_slot g slot then (do g' ← attach_slot g slot; ok (g' ∷ gs)) else rest

unfoldable pub add_slots : List Slot → List SlotGroup → Result (List SlotGroup)
add_slots [] groups = ok groups
add_slots (slot ∷ slots) groups = do groups' ← add_slot slot groups; add_slots slots groups'

-- A second boot entry for a group is an error, whose message unwraps the entry's version.
abbrev pub second_uki : Option Version → Result (List SlotGroup)
second_uki none = panic
second_uki (some v) = err multiple_ukis

-- One round of the second loop.
unfoldable pub add_boot : BootEntry → List SlotGroup → Result (List SlotGroup)
add_boot boot [] = ok (record { root = none; verity = none; boot = some boot } ∷ [])
add_boot boot (g ∷ gs) =
    let rest = add_boot boot gs >>= in_front g in
    if matches_boot g boot
    then if is_some g.boot
      then second_uki (Uki.version boot)
      else ok (record g { boot = some boot } ∷ gs)
    else rest

unfoldable pub add_boots : List BootEntry → List SlotGroup → Result (List SlotGroup)
add_boots [] groups = ok groups
add_boots (boot ∷ boots) groups = do groups' ← add_boot boot groups; add_boots boots groups'

unfoldable pub group_volumes : List Slot → List BootEntry → Result (List SlotGroup)
group_volumes slots boots = do groups ← add_slots slots []; add_boots boots groups

abbrev boot_version : Option BootEntry → Option Version
boot_version none = none
boot_version (some boot) = Uki.version boot

abbrev verity_version : Option Slot → Option BootEntry → Option Version
verity_version none boot = boot_version boot
verity_version (some v) boot = Slot.version v

abbrev root_version : Option Slot → Option Slot → Option BootEntry → Option Version
root_version none v boot = verity_version v boot
root_version (some r) v boot = Slot.version r

-- The version of the root slot, else of the verity slot, else of the boot entry.
abbrev pub version : SlotGroup → Option Version
version g = root_version g.root g.verity g.boot

abbrev verity_empty_id : Option Slot → Option Text
verity_empty_id none = none
verity_empty_id (some v) = Slot.empty_id v

abbrev root_empty_id : Option Slot → Option Slot → Option Text
root_empty_id none v = verity_empty_id v
root_empty_id (some r) v = Slot.empty_id r

abbrev pub empty_id : SlotGroup → Option Text
empty_id g = root_empty_id g.root g.verity

abbrev pub both_empty : Option Slot → Option Slot → Bool
both_empty none none = false
both_empty (some r) none = Slot.is_empty r
both_empty none (some v) = Slot.is_empty v
both_empty (some r) (some v) = Slot.is_empty r && Slot.is_empty v

-- There is a slot, and no slot of the group is in use.
abbrev pub is_empty : SlotGroup → Bool
is_empty g = both_empty g.root g.verity

abbrev pub is_used : SlotGroup → Bool
is_used g =
    is_some_and (λ s. not (Slot.is_empty s)) g.root
    || is_some_and (λ s. not (Slot.is_empty s)) g.verity
    || is_some g.boot

abbrev pub is_complete : SlotGroup → Bool
is_complete g = is_some g.root && is_some g.verity

abbrev pub is_legacy : SlotGroup → Bool
is_legacy g = is_some_and Slot.is_legacy g.root || is_some_and Slot.is_legacy g.verity

abbrev pub active_for : Bool → Option Version → Option Version → Bool
active_for legacy (some slot_v) (some kernel_v) = slot_v == kernel_v
active_for legacy (some slot_v) none = legacy
active_for legacy none k = false

unfoldable pub is_active : SlotGroup → KernelParams → Bool
is_active g kernel = active_for (is_legacy g) (version g) (to_version kernel)

abbrev pub validate_pair : Option Slot → Option Slot → Result (Unit {0})
validate_pair (some r) (some v) = ensure (Slot.matches r v) root_verity_mismatch
validate_pair (some r) none = ok tt
validate_pair none v = ok tt

abbrev pub validate_boot : Error → Option BootEntry → Option Slot → Result (Unit {0})
validate_boot e (some boot) (some s) = ensure (Uki.matches boot s) e
validate_boot e (some boot) none = ok tt
validate_boot e none s = ok tt

unfoldable pub validate : SlotGroup → Result (Unit {0})
validate g = do
  validate_pair g.root g.verity
  validate_boot uki_root_mismatch g.boot g.root
  validate_boot uki_verity_mismatch g.boot g.verity
  ensure (is_empty g && is_some g.boot) empty_group_contains_uki

abbrev pub classify_valid : SlotGroup → KernelParams → SlotClass
classify_valid g kernel =
    if is_active g kernel then active else if is_empty g then vacant else inactive

unfoldable pub classify : SlotGroup → KernelParams → SlotClass
classify g kernel = elim (validate g) [
  | ok _ ↦ classify_valid g kernel
  | err _ ↦ broken
  | panic ↦ broken
]

unfoldable pub attach_uki : SlotGroup → UkiEntry → Result SlotGroup
attach_uki g uki = do
  ensure (not (is_some g.boot)) already_has_uki
  ok (record g { boot = some (from_uki uki) })
