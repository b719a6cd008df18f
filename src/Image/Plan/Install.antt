-- ===== src/Image/Plan/Install.antt =====
-- crates/ota-update/src/image/plan.rs: the steps of an installation.
use ghaf_givc.Prelude.{
  ◌<◌, ◌≡◌, refl, sym, ap, ◌∙◌, ◌⊎◌, inl, inr, true, some, List, [], ◌∷◌, ◌++◌, arith, list_eq,
  option_eq, nat_eq, ok, panic, ◌>>=◌, >>=-eq-ok,
}
use ghaf_givc.Text.{Text, byte_len}
use ghaf_givc.Image.Version.{Version}
use ghaf_givc.Image.Pipeline.{Pipeline}
use ghaf_givc.Image.Slot
use ghaf_givc.Image.Slot.{Slot, used, into_version, rename, name_text}
use ghaf_givc.Image.Uki.{from_uki, uki_text}
use ghaf_givc.Image.Group.{SlotGroup}
use ghaf_givc.Image.Manifest.{Manifest, to_version}
use ghaf_givc.Image.Runtime.{
  Runtime, SlotSelection, already_installed, selected, active_slot, select_update_slot, target_uki,
}
use ghaf_givc.Image.Runtime.Selection.{
  IsTarget, Origin, select_update_slot_sound, select_update_slot-short_hash,
}
use ghaf_givc.Image.Plan.Commands.{renames, writes, flushes, installs_uki, migrates}
use ghaf_givc.Image.Plan.Prepared.{IsPrepared, select_update_slot-IsPrepared}
use ghaf_givc.Image.Plan.{
  Plan, install_volume, finalize_flush, install_uki, migration_for, install_into_slot,
  legacy_bootloader_migration, install_selection, install, uki_command,
}

-- The slot as a slot of the version.
abbrev pub assigned : Slot → Version → Slot
assigned s v = record s { status = used v }

-- The steps behind those that prepare the volumes: both images are written and flushed before the
-- volumes are renamed, and the kernel image is installed behind the renames.
abbrev pub steps_into :
    Runtime → Manifest → Text → Version → Slot → Slot → SlotGroup → List Pipeline
steps_into rt m source target r v current =
    writes r.volume m.store source
    ∷ writes v.volume m.verity source
    ∷ flushes r.volume
    ∷ flushes v.volume
    ∷ renames r.volume (name_text r.kind (used target))
    ∷ renames v.volume (name_text v.kind (used target))
    ∷ installs_uki m.kernel rt.boot source (uki_text (target_uki target))
    ∷ migrates rt current

-- The same steps in the words of the code.
abbrev code_steps : Runtime → Manifest → Text → Version → Slot → Slot → SlotGroup → List Pipeline
code_steps rt m source target r v current =
    install_volume r.volume m.store source
    ∷ install_volume v.volume m.verity source
    ∷ finalize_flush r.volume
    ∷ finalize_flush v.volume
    ∷ rename (assigned r target)
    ∷ rename (assigned v target)
    ∷ uki_command m.kernel rt.boot source (uki_text (target_uki target))
    ∷ migration_for rt current

code_steps_lem :
    (rt : Runtime) (m : Manifest) (source : Text) (target : Version) (r v : Slot)
    (current : SlotGroup)
    → code_steps rt m source target r v current ≡ steps_into rt m source target r v current
unfolding install_volume finalize_flush rename uki_command legacy_bootloader_migration
code_steps_lem rt m source target r v current = refl

-- What a plan that does something consists of.
pub record Installs (rt : Runtime) (m : Manifest) (source : Text) (target : Version) (plan : Plan)
    : Type 0 where
  pub slot : SlotGroup
  pub pre_steps : List Pipeline
  pub chosen : select_update_slot rt m ≡ ok (selected slot pre_steps)
  pub prepared : IsPrepared rt m slot pre_steps
  pub is_target : IsTarget target slot
  pub origin : Origin rt slot
  pub current : SlotGroup
  pub current_is : active_slot rt ≡ ok current
  pub steps :
      plan
      ≡ pre_steps ++ steps_into rt m source target is_target.root_slot is_target.verity_slot current

into_version-empty :
    (s : Slot) (v : Version) → Slot.is_empty s ≡ true → into_version s v ≡ ok (assigned s v)
unfolding into_version
into_version-empty s v h = ground arith

install_uki-target :
    (slot : SlotGroup) (target : Version) (m : Manifest) (boot source : Text)
    → slot.boot ≡ some (from_uki (target_uki target))
    → install_uki slot m.kernel boot source
      ≡ ok (uki_command m.kernel boot source (uki_text (target_uki target)))
unfolding install_uki
install_uki-target slot target m boot source e = rw e

install_into_slot_lem :
    (rt : Runtime) (m : Manifest) (source : Text) (target : Version) (slot : SlotGroup)
    (t : IsTarget target slot)
    → to_version m ≡ ok target
    → install_into_slot rt m slot source ≡ (
        active_slot rt >>= λ current.
        ok (code_steps rt m source target t.root_slot t.verity_slot current))
unfolding install_into_slot
install_into_slot_lem rt m source target slot t v =
    rw (install_uki-target slot target m rt.boot source t.boot_is) (
      rw (t.root_is, t.verity_is, v)
        (rw (
          into_version-empty t.root_slot target t.root_empty,
          into_version-empty t.verity_slot target t.verity_empty,
        )))

installs :
    (rt : Runtime) (m : Manifest) (source : Text) (target : Version) (plan : Plan)
    (slot : SlotGroup) (pre : List Pipeline)
    → to_version m ≡ ok target
    → select_update_slot rt m ≡ ok (selected slot pre)
    → install_selection rt m source (selected slot pre) ≡ ok plan
    → Installs rt m source target plan
unfolding install_selection
installs rt m source target plan slot pre t s e =
    let (is_target, origin) = select_update_slot_sound rt m target slot pre t s in
    let (steps, p, e1) = >>=-eq-ok (install_into_slot rt m slot source) _ e in
    let (current, a, e2) =
      >>=-eq-ok (active_slot rt) _
        (sym (install_into_slot_lem rt m source target slot is_target t) ∙ p) in
    let plan_is : pre ++ steps ≡ plan = cc e1 in
    let steps_are : code_steps rt m source target is_target.root_slot is_target.verity_slot current
        ≡ steps =
      cc e2 in
    record {
      slot = slot;
      pre_steps = pre;
      chosen = s;
      prepared = select_update_slot-IsPrepared rt m target slot pre t s;
      is_target = is_target;
      origin = origin;
      current = current;
      current_is = a;
      steps =
          sym plan_is
          ∙ ap (λ l. pre ++ l)
              (sym steps_are
                ∙ code_steps_lem rt m source target is_target.root_slot is_target.verity_slot
                    current);
    }

install_cases :
    (rt : Runtime) (m : Manifest) (source : Text) (target : Version) (plan : Plan)
    (selection : SlotSelection)
    → to_version m ≡ ok target
    → select_update_slot rt m ≡ ok selection
    → install_selection rt m source selection ≡ ok plan
    → (select_update_slot rt m ≡ ok already_installed) × (plan ≡ [])
      ⊎ Installs rt m source target plan
install_cases rt m source target plan already_installed t s e =
    inl (s, unfold install_selection in cc)
install_cases rt m source target plan (selected slot pre) t s e =
    inr (installs rt m source target plan slot pre t s e)

-- A plan is empty where the manifest's version is installed already. Otherwise it starts with the
-- commands that prepare the volumes of the selected slot: these are an empty pair out of a group that
-- is not active, where each volume that is known to be smaller than its image is resized, or a new
-- pair, which is created under an unused identifier with the manifest's sizes or those of the active
-- pair. Behind them it writes both images, flushes both volumes, renames both to the new version,
-- installs the kernel image and migrates a legacy boot loader, in that order.
pub install_sound :
    (rt : Runtime) (m : Manifest) (source : Text) (target : Version) (plan : Plan)
    → to_version m ≡ ok target
    → install rt m source ≡ ok plan
    → (select_update_slot rt m ≡ ok already_installed) × (plan ≡ [])
      ⊎ Installs rt m source target plan
unfolding install
install_sound rt m source target plan t e =
    let (selection, s, e') =
      >>=-eq-ok (select_update_slot rt m) (install_selection rt m source) e in
    install_cases rt m source target plan selection t s e'

-- A manifest whose root hash is shorter than sixteen bytes makes the whole installation panic.
install-short_hash :
    (rt : Runtime) (m : Manifest) (source : Text)
    → byte_len m.root_verity_hash < 16
    → install rt m source ≡ panic
unfolding install
install-short_hash rt m source h = rw (select_update_slot-short_hash rt m h)
