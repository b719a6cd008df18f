-- ===== src/Image/Runtime/Selection.antt =====
-- crates/ota-update/src/image/runtime.rs: the slot that `select_update_slot` chooses.
use ghaf_givc.Prelude.{
  ◌<◌, ◌≡◌, refl, sym, ◌∙◌, ◌≢◌, ◌↔◌, inl, inr, Bool, true, false, ◌&&◌, some, List, arith,
  Bool-cases, Option-cases, eq_iff, list_eq, option_eq, nat_eq, any, find, Member, find_sound,
  any_sound, any_complete, ok, panic, >>=-eq-ok,
}
use ghaf_givc.Text.{Text, byte_len, split_at_checked-short}
use ghaf_givc.Image.Version.{Version, version_eq}
use ghaf_givc.Image.Pipeline.{Pipeline}
use ghaf_givc.Image.Slot
use ghaf_givc.Image.Slot.{Slot, root, verity, empty, known}
use ghaf_givc.Image.Uki.{from_uki}
use ghaf_givc.Image.Group
use ghaf_givc.Image.Group.{SlotGroup, is_active, attach_uki}
use ghaf_givc.Image.Manifest.{Manifest, to_version, hash_fragment}
use ghaf_givc.Image.Runtime.{
  Runtime, already_installed, selected, used_ids, create_empty_slot, is_installed, is_suitable,
  select_with, select_update_slot, choose_empty, target_uki, resize_steps_for_slot, contains,
  has_version,
}
use ghaf_givc.Image.Runtime.Creation.{create_empty_slot-eq-ok}

-- What an update is written to: a root and a verity slot, both empty, and the boot entry of the
-- target version.
pub record IsTarget (target : Version) (slot : SlotGroup) : Type 0 where
  pub root_slot : Slot
  pub verity_slot : Slot
  pub root_is : slot.root ≡ some root_slot
  pub verity_is : slot.verity ≡ some verity_slot
  pub root_empty : Slot.is_empty root_slot ≡ true
  pub verity_empty : Slot.is_empty verity_slot ≡ true
  pub boot_is : slot.boot ≡ some (from_uki (target_uki target))

-- Where the slot comes from: a group of the machine that is not active, or two new volumes under
-- an identifier that no empty group bears.
pub data Origin (rt : Runtime) (slot : SlotGroup) : Type 0 where
  reused :
      (g : SlotGroup)
      → Member g rt.slotgroups
      → is_active g rt.kernel ≡ false
      → slot.root ≡ g.root
      → slot.verity ≡ g.verity
      → Origin rt slot
  created :
      (id : Text) (r v : Slot)
      → contains (used_ids rt.slotgroups) id ≡ false
      → slot.root ≡ some r
      → slot.verity ≡ some v
      → r.status ≡ empty (known id)
      → v.status ≡ empty (known id)
      → Origin rt slot

pub attach_uki-eq-ok :
    (g : SlotGroup) (target : Version) {slot : SlotGroup} {pre pre' : List Pipeline}
    → select_with target g pre ≡ ok (selected slot pre')
    → (slot ≡ record g { boot = some (from_uki (target_uki target)) }) × (pre ≡ pre')
unfolding attach_uki
attach_uki-eq-ok g target e = ground arith

pub suitable_parts :
    (rt : Runtime) (g : SlotGroup)
    → is_suitable rt.kernel g ≡ true
    → (r v : Slot) × (g.root ≡ some r)
      × (g.verity ≡ some v)
      × (Slot.is_empty r ≡ true)
      × (Slot.is_empty v ≡ true)
      × (is_active g rt.kernel ≡ false)
suitable_parts rt g h = elim (Option-cases g.root) [
  | inl n ↦ absurd (ground arith)
  | inr (r, p) ↦ elim (Option-cases g.verity) [
    | inl n ↦ absurd (ground arith)
    | inr (v, q) ↦ (r, v, p, q, ground arith, ground arith, ground arith)
  ]
]

-- A selection out of a group that is complete and empty.
select_with-IsTarget :
    (g : SlotGroup) (target : Version) (pre : List Pipeline) (r v : Slot) {slot : SlotGroup}
    {pre' : List Pipeline}
    → select_with target g pre ≡ ok (selected slot pre')
    → g.root ≡ some r
    → g.verity ≡ some v
    → Slot.is_empty r ≡ true
    → Slot.is_empty v ≡ true
    → IsTarget target slot
select_with-IsTarget g target pre r v {slot} e p q h k =
    let (same, _) = attach_uki-eq-ok g target {slot = slot} e in
    rw same (record {
      root_slot = r;
      verity_slot = v;
      root_is = p;
      verity_is = q;
      root_empty = h;
      verity_empty = k;
      boot_is = refl;
    })

pub select_missing :
    (rt : Runtime) (m : Manifest) (target : Version)
    → to_version m ≡ ok target
    → any (is_installed target) rt.slotgroups ≡ false
    → select_update_slot rt m ≡ choose_empty rt m target
unfolding select_update_slot
select_missing rt m target t f = rw t (rw f)

created-IsTarget :
    (rt : Runtime) (m : Manifest) (target : Version) (g slot : SlotGroup) (pre pre' : List Pipeline)
    → create_empty_slot rt m ≡ ok (g, pre)
    → select_with target g pre ≡ ok (selected slot pre')
    → IsTarget target slot × Origin rt slot
created-IsTarget rt m target g slot pre pre' c e =
    let (id, r, v, p, q, h, k, free) = create_empty_slot-eq-ok rt m c in
    let (same, _) = attach_uki-eq-ok g target {slot = slot} e in
    (
      select_with-IsTarget g target pre r v {slot = slot} e p q (rw h) (rw k),
      created id r v free (rw same p) (rw same q) h k,
    )

reused-IsTarget :
    (rt : Runtime) (target : Version) (g slot : SlotGroup) (pre pre' : List Pipeline)
    → find (is_suitable rt.kernel) rt.slotgroups ≡ some g
    → select_with target g pre ≡ ok (selected slot pre')
    → IsTarget target slot × Origin rt slot
reused-IsTarget rt target g slot pre pre' f e =
    let (member, suitable) = find_sound (is_suitable rt.kernel) rt.slotgroups f in
    let (r, v, p, q, h, k, idle) = suitable_parts rt g suitable in
    let (same, _) = attach_uki-eq-ok g target {slot = slot} e in
    (
      select_with-IsTarget g target pre r v {slot = slot} e p q h k,
      reused g member idle (rw same) (rw same),
    )

choose_empty_sound :
    (rt : Runtime) (m : Manifest) (target : Version) (slot : SlotGroup) (pre : List Pipeline)
    → choose_empty rt m target ≡ ok (selected slot pre)
    → IsTarget target slot × Origin rt slot
unfolding choose_empty
choose_empty_sound rt m target slot pre e =
    elim (Option-cases (find (is_suitable rt.kernel) rt.slotgroups)) [
      | inl n ↦
          let ((g, steps), c, e') =
            >>=-eq-ok (create_empty_slot rt m) _ (rw (n, choose_empty) at e) in
          created-IsTarget rt m target g slot steps pre c e'
      | inr (g, f) ↦
          reused-IsTarget rt target g slot (resize_steps_for_slot g m) pre f
            (rw (f, choose_empty) at e)
    ]

choose_empty-ne-installed :
    (rt : Runtime) (m : Manifest) (target : Version)
    → choose_empty rt m target ≢ ok already_installed
unfolding choose_empty attach_uki
choose_empty-ne-installed rt m target e = ground arith

-- A selected slot is a complete pair of empty slots with the boot entry of the manifest's version,
-- and it is either a group of the machine that is not active, or a new pair of volumes whose
-- identifier no empty group bears.
pub select_update_slot_sound :
    (rt : Runtime) (m : Manifest) (target : Version) (slot : SlotGroup) (pre : List Pipeline)
    → to_version m ≡ ok target
    → select_update_slot rt m ≡ ok (selected slot pre)
    → IsTarget target slot × Origin rt slot
select_update_slot_sound rt m target slot pre t e =
    elim (Bool-cases (any (is_installed target) rt.slotgroups)) [
      | inl installed ↦ unfold select_update_slot in absurd (ground arith)
      | inr missing ↦
          choose_empty_sound rt m target slot pre (sym (select_missing rt m target t missing) ∙ e)
    ]

&&-eq-true_three : (a b c : Bool) → (a && b && c) ≡ true → (a ≡ true) × (b ≡ true) × (c ≡ true)
&&-eq-true_three a b c h = ground arith

installed_parts :
    (target : Version) (g : SlotGroup)
    → (is_installed target g ≡ true)
      ↔ (Group.is_used g ≡ true) × (Group.is_complete g ≡ true) × (Group.version g ≡ some target)
installed_parts target g = (
  (λ h.
      let (a, b, c) =
        &&-eq-true_three (Group.is_used g) (Group.is_complete g) (has_version target g) h in
      (a, b, (eq_iff (Group.version g) (some target)).0 c)),
  (λ (a, b, c). rw (a, b, (eq_iff (Group.version g) (some target)).1 c)),
)

-- The update is skipped exactly if some complete group in use has the manifest's version.
select_update_slot-already_installed :
    (rt : Runtime) (m : Manifest) (target : Version)
    → to_version m ≡ ok target
    → (select_update_slot rt m ≡ ok already_installed) ↔ (
        (g : SlotGroup) × Member g rt.slotgroups
        × ((Group.is_used g ≡ true)
            × (Group.is_complete g ≡ true)
            × (Group.version g ≡ some target)))
unfolding select_update_slot
select_update_slot-already_installed rt m target t = (
  (λ e. elim (Bool-cases (any (is_installed target) rt.slotgroups)) [
    | inl installed ↦
        let (g, member, h) = any_sound (is_installed target) rt.slotgroups installed in
        (g, member, (installed_parts target g).0 h)
    | inr missing ↦
        absurd
          (choose_empty-ne-installed rt m target (sym (select_missing rt m target t missing) ∙ e))
  ]),
  (λ (g, member, h). rw t (
      rw (
        any_complete (is_installed target) rt.slotgroups g member
          ((installed_parts target g).1 h)))),
)

short-hash_fragment : (m : Manifest) → byte_len m.root_verity_hash < 16 → to_version m ≡ panic
unfolding hash_fragment to_version
short-hash_fragment m h = rw (split_at_checked-short 16 m.root_verity_hash h, hash_fragment)

-- A manifest whose root hash is shorter than sixteen bytes makes the selection panic.
pub select_update_slot-short_hash :
    (rt : Runtime) (m : Manifest)
    → byte_len m.root_verity_hash < 16
    → select_update_slot rt m ≡ panic
unfolding select_update_slot
select_update_slot-short_hash rt m h = rw (short-hash_fragment m h)
