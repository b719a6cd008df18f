-- ===== src/Image/Runtime.antt =====
-- crates/ota-update/src/image/runtime.rs: the state of the machine, and the slot for an update.
pub mod Identifiers
pub mod Creation
pub mod Selection
pub mod Lookup
use ghaf_givc.Prelude.{
  ℕ, zero, suc, ◌+◌, Bool, true, false, not, ◌&&◌, ◌||◌, Option, none, some, List, [], ◌∷◌, ◌++◌,
  ltb, if◌then◌else◌, is_some_and, ◌==◌, list_eq, option_eq, nat_eq, any, find, filter_by, Result,
  ok, err, ◌>>=◌, ◌>>◌, context, ambiguous_slot, slot_not_found, no_active_slot,
  active_without_root, active_without_verity, unknown_size, unparsed_created_slot,
  identifiers_exhausted,
}
use ghaf_givc.Text.{Text, codes, decimal, contains}
use ghaf_givc.Image.Version.{Version, version_eq, has_hash}
use ghaf_givc.Image.Kernel.{KernelParams, from_cmdline}
use ghaf_givc.Image.Volume.{Volume}
use ghaf_givc.Image.Pipeline.{Pipeline, command, with_arg, with_args, single}
use ghaf_givc.Image.Slot.{Slot, from_volumes, SlotClass, broken, active, vacant, inactive}
use ghaf_givc.Image.Uki.{BootEntry, UkiEntry, BootctlItem, from_bootctl, is_managed}
use ghaf_givc.Image.Group
use ghaf_givc.Image.Group.{SlotGroup, group_volumes, is_active, attach_uki, classify}
use ghaf_givc.Image.Manifest.{Manifest, to_version}

pub record Runtime : Type 0 where
  pub slotgroups : List SlotGroup
  pub volumes : List Volume
  pub kernel : KernelParams
  pub boot_entries : List BootEntry
  pub boot : Text

pub data SlotSelection : Type 0 where
  already_installed : SlotSelection
  selected : (slot : SlotGroup) (pre_steps : List Pipeline) → SlotSelection

-- `Runtime::new`: managed boot entries are grouped with the slots, the others are kept aside.
unfoldable pub new_runtime : List Volume → Text → List BootctlItem → Result Runtime
new_runtime volumes cmdline bootctl = do
  let boots = from_bootctl bootctl
  groups ← group_volumes (from_volumes volumes).0 (filter_by is_managed boots)
  kernel ← from_cmdline cmdline
  ok (record {
    slotgroups = groups;
    volumes = (from_volumes volumes).1;
    kernel = kernel;
    boot_entries = filter_by (λ b. not (is_managed b)) boots;
    boot = codes "/boot";
  })

-- The group that stands alone in the list.
abbrev pub exactly_one : List SlotGroup → Result (Option SlotGroup)
exactly_one [] = ok none
exactly_one (g ∷ []) = ok (some g)
exactly_one (g ∷ h ∷ gs) = err ambiguous_slot

unfoldable pub find_exact_one_group : Runtime → (SlotGroup → Bool) → Result (Option SlotGroup)
find_exact_one_group rt predicate = exactly_one (filter_by predicate rt.slotgroups)

abbrev pub has_version : Version → SlotGroup → Bool
has_version v g = Group.version g == some v

-- The group's version has the revision, and a hash.
abbrev pub has_revision : Version → SlotGroup → Bool
has_revision v g = is_some_and (λ w. w.revision == v.revision && has_hash w) (Group.version g)

-- The fallback for a version without a hash.
unfoldable pub find_by_revision : Runtime → Version → Result SlotGroup
find_by_revision rt v = do
  found ← find_exact_one_group rt (has_revision v)
  context slot_not_found found

-- What follows the search for an exact match.
unfoldable pub or_by_revision : Runtime → Version → Option SlotGroup → Result SlotGroup
or_by_revision rt v (some g) = ok g
or_by_revision rt v none = if not (has_hash v) then find_by_revision rt v else err slot_not_found

unfoldable pub find_slot_group : Runtime → Version → Result SlotGroup
find_slot_group rt v = do exact ← find_exact_one_group rt (has_version v); or_by_revision rt v exact

unfoldable pub active_slot : Runtime → Result SlotGroup
active_slot rt = do
  found ← find_exact_one_group rt (λ g. is_active g rt.kernel)
  context no_active_slot found

unfoldable pub has_empty_with_hash : Runtime → Text → Bool
has_empty_with_hash rt hash = any (λ g. Group.empty_id g == some hash) rt.slotgroups

abbrev keep_id : Option Text → List Text → List Text
keep_id none ids = ids
keep_id (some id) ids = id ∷ ids

-- The identifiers of the empty groups.
unfoldable pub used_ids : List SlotGroup → List Text
used_ids [] = []
used_ids (g ∷ gs) = keep_id (Group.empty_id g) (used_ids gs)

-- The candidates `i`, `i + 1`, … as many as are left.
unfoldable pub first_free : ℕ → ℕ → List Text → Result Text
unfolding contains
first_free zero i used = err identifiers_exhausted
first_free (suc left) i used =
    let rest = first_free left (i + 1) used in
    if contains used (decimal i) then rest else ok (decimal i)

unfoldable pub allocate_empty_identifier : Runtime → Result Text
allocate_empty_identifier rt = first_free 100 0 (used_ids rt.slotgroups)

-- `lvresize`, where the volume's known size is below the needed one.
abbrev pub resize_step : Option Slot → Option ℕ → List Pipeline
resize_step (some s) (some needed) =
    if is_some_and (λ cur. ltb cur needed) s.volume.lv_size_bytes
    then single (
        with_arg
          (with_args (with_arg (command (codes "lvresize")) (codes "-f"))
            (codes "-L" ∷ (decimal needed ++ codes "b") ∷ []))
          (s.volume.vg_name ++ (codes "/" ++ s.volume.lv_name)))
      ∷ []
    else []
resize_step (some s) none = []
resize_step none needed = []

unfoldable pub resize_steps_for_slot : SlotGroup → Manifest → List Pipeline
resize_steps_for_slot g m =
    resize_step g.root m.store.unpacked_size ++ resize_step g.verity m.verity.unpacked_size

-- `Option::or`
abbrev pub or_size : Option ℕ → Option ℕ → Option ℕ
or_size none o = o
or_size (some n) o = some n

unfoldable pub lvcreate : ℕ → Text → Text → Pipeline
lvcreate size lv_name vg =
    let c = with_arg (command (codes "lvcreate")) (codes "--yes") in
    let c1 = with_args c (codes "--wipesignatures" ∷ codes "y" ∷ []) in
    let c2 = with_args c1 (codes "-L" ∷ (decimal size ++ codes "b") ∷ []) in
    single (with_arg (with_args c2 (codes "-n" ∷ lv_name ∷ [])) vg)

abbrev pub first_slot : List Slot → Option Slot
first_slot [] = none
first_slot (s ∷ slots) = some s

-- One round of the loop over `lv_specs`.
unfoldable pub create_volume : Text → Text → Text → Option ℕ → Option ℕ → Result (Slot × Pipeline)
create_volume vg empty_id prefix manifest_size active_size = do
  size ← context unknown_size (or_size manifest_size active_size)
  let lv_name = prefix ++ (codes "_empty_" ++ empty_id)
  let vol : Volume = record {
    lv_name = lv_name;
    vg_name = vg;
    lv_attr = none;
    lv_size_bytes = some size;
  }
  slot ← context unparsed_created_slot (first_slot (from_volumes (vol ∷ [])).0)
  ok (slot, lvcreate size lv_name vg)

unfoldable pub create_empty_slot : Runtime → Manifest → Result (SlotGroup × List Pipeline)
create_empty_slot rt m = do
  current ← active_slot rt
  active_root ← context active_without_root current.root
  active_verity ← context active_without_verity current.verity
  let vg = active_root.volume.vg_name
  empty_id ← allocate_empty_identifier rt
  (root, root_step) ←
      create_volume vg empty_id (codes "root") m.store.unpacked_size
        active_root.volume.lv_size_bytes
  (verity, verity_step) ←
      create_volume vg empty_id (codes "verity") m.verity.unpacked_size
        active_verity.volume.lv_size_bytes
  ok (record { root = some root; verity = some verity; boot = none }, root_step ∷ verity_step ∷ [])

abbrev pub is_installed : Version → SlotGroup → Bool
is_installed target g = Group.is_used g && Group.is_complete g && has_version target g

abbrev pub is_suitable : KernelParams → SlotGroup → Bool
is_suitable kernel g = Group.is_empty g && not (is_active g kernel) && Group.is_complete g

abbrev pub target_uki : Version → UkiEntry
target_uki target = record { version = target; boot_counter = none }

-- The last step of both ways: the group gets the target's boot entry.
abbrev pub select_with : Version → SlotGroup → List Pipeline → Result SlotSelection
select_with target g pre_steps = do
  slot ← attach_uki g (target_uki target)
  ok (selected slot pre_steps)

-- The first suitable empty group, or a new one.
unfoldable pub choose_empty : Runtime → Manifest → Version → Result SlotSelection
choose_empty rt m target = elim (find (is_suitable rt.kernel) rt.slotgroups) [
  | some g ↦ select_with target g (resize_steps_for_slot g m)
  | none ↦ do (g, pre_steps) ← create_empty_slot rt m; select_with target g pre_steps
]

unfoldable pub select_update_slot : Runtime → Manifest → Result SlotSelection
select_update_slot rt m = do
  target ← to_version m
  if any (is_installed target) rt.slotgroups then ok already_installed else choose_empty rt m target

abbrev pub same_class : SlotClass → SlotClass → Bool
same_class broken broken = true
same_class active active = true
same_class vacant vacant = true
same_class inactive inactive = true
same_class _ _ = false

unfoldable pub slots_by_class : Runtime → List SlotGroup → SlotClass → List SlotGroup
slots_by_class rt groups class = filter_by (λ g. same_class (classify g rt.kernel) class) groups
