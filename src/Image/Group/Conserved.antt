-- ===== src/Image/Group/Conserved.antt =====
-- crates/ota-update/src/image/group.rs: the slots and the boot entries of the groups, taken together.
use ghaf_givc.Prelude.{
  ◌≡◌, refl, ◌∙◌, ◌≢◌, inl, inr, Option, none, some, List, [], ◌∷◌, ◌++◌, arith, list_eq, option_eq,
  nat_eq, All, ok, panic, >>=-eq-ok, Result-cases,
}
use mathlib.Core.List.{append-nil}
use mathlib.Core.List.Perm
use mathlib.Core.List.{Perm, perm_middle}
use ghaf_givc.Image.Slot.{Slot}
use ghaf_givc.Image.Uki.{BootEntry}
use ghaf_givc.Image.Group.Coherence.{IsManaged}
use ghaf_givc.Image.Group.Grouping.{
  Placed, new, found, later, add_slot-Placed, attach_slot_cases, Booted, orphan, fitted, passed,
  add_boot-Booted,
}
use ghaf_givc.Image.Group.{
  SlotGroup, empty_group, add_slots, add_boots, add_slot, add_boot, attach_slot, group_volumes,
}

abbrev pub option_list {ℓ} : {A : Type ℓ} → Option A → List A
option_list none = []
option_list (some a) = a ∷ []

-- The slots of the groups, and their boot entries.
abbrev pub slots_of : List SlotGroup → List Slot
slots_of [] = []
slots_of (g ∷ gs) = option_list g.root ++ (option_list g.verity ++ slots_of gs)

abbrev pub boots_of : List SlotGroup → List BootEntry
boots_of [] = []
boots_of (g ∷ gs) = option_list g.boot ++ boots_of gs

attach_slot-perm :
    (g : SlotGroup) (s : Slot) (gs : List SlotGroup) {g' : SlotGroup}
    → attach_slot g s ≡ ok g'
    → Perm (slots_of (g' ∷ gs)) (s ∷ slots_of (g ∷ gs))
attach_slot-perm g s gs e = elim (attach_slot_cases g s e) [
  | inl (k, n, q) ↦ rw (q, n) Perm.rfl
  | inr (k, n, q) ↦ rw (q, n) (perm_middle (option_list g.root) (slots_of gs))
]

Placed-perm :
    {s : Slot} {gs gs' : List SlotGroup} → Placed s gs gs' → Perm (slots_of gs') (s ∷ slots_of gs)
Placed-perm {s} (new {g} a) = attach_slot-perm empty_group s [] a
Placed-perm {s} (found {g} {gs = gs} m a) = attach_slot-perm g s gs a
Placed-perm {s} (later {g} {gs} {gs'} m p) =
    Perm.trans
      (Perm.append_left (option_list g.root) (
        Perm.trans (Perm.append_left (option_list g.verity) (Placed-perm p))
          (perm_middle (option_list g.verity) (slots_of gs))))
      (perm_middle (option_list g.root) (option_list g.verity ++ slots_of gs))

attach_slot-boot :
    (g : SlotGroup) (s : Slot) {g' : SlotGroup} → attach_slot g s ≡ ok g' → g'.boot ≡ g.boot
attach_slot-boot g s e = ground (arith, attach_slot_cases g s e)

Placed-boots : {s : Slot} {gs gs' : List SlotGroup} → Placed s gs gs' → boots_of gs' ≡ boots_of gs
Placed-boots {s} (new {g} a) = rw (attach_slot-boot empty_group s a)
Placed-boots {s} (found {g} m a) = rw (attach_slot-boot g s a)
Placed-boots (later {g} m p) = rw (Placed-boots p)

Booted-slots :
    {b : BootEntry} {gs gs' : List SlotGroup} → Booted b gs gs' → slots_of gs' ≡ slots_of gs
Booted-slots orphan = refl
Booted-slots (fitted m n) = refl
Booted-slots (passed {g} m p) = rw (Booted-slots p)

Booted-perm :
    {b : BootEntry} {gs gs' : List SlotGroup}
    → Booted b gs gs'
    → Perm (boots_of gs') (b ∷ boots_of gs)
Booted-perm orphan = Perm.rfl
Booted-perm (fitted m n) = rw n Perm.rfl
Booted-perm (passed {g} {gs} m p) =
    Perm.trans (Perm.append_left (option_list g.boot) (Booted-perm p))
      (perm_middle (option_list g.boot) (boots_of gs))

add_slots-perm :
    (slots : List Slot) (gs : List SlotGroup) {gs' : List SlotGroup}
    → add_slots slots gs ≡ ok gs'
    → Perm (slots_of gs') (slots ++ slots_of gs) × (boots_of gs' ≡ boots_of gs)
unfolding add_slots
add_slots-perm [] gs {gs'} e = let same : gs ≡ gs' = cc in (rw same Perm.rfl, cc)
add_slots-perm (s ∷ slots) gs e =
    let (next, a, h) = >>=-eq-ok (add_slot s gs) (add_slots slots) e in
    let placed = add_slot-Placed s gs a in
    let (p, q) = add_slots-perm slots next h in
    (
      Perm.trans p (
          Perm.trans (Perm.append_left slots (Placed-perm placed))
            (perm_middle slots (slots_of gs))),
      q ∙ Placed-boots placed,
    )

add_boots-perm :
    (boots : List BootEntry) (gs : List SlotGroup) {gs' : List SlotGroup}
    → add_boots boots gs ≡ ok gs'
    → Perm (boots_of gs') (boots ++ boots_of gs) × (slots_of gs' ≡ slots_of gs)
unfolding add_boots
add_boots-perm [] gs {gs'} e = let same : gs ≡ gs' = cc in (rw same Perm.rfl, cc)
add_boots-perm (b ∷ boots) gs e =
    let (next, a, h) = >>=-eq-ok (add_boot b gs) (add_boots boots) e in
    let booted = add_boot-Booted b gs a in
    let (p, q) = add_boots-perm boots next h in
    (
      Perm.trans p (
          Perm.trans (Perm.append_left boots (Booted-perm booted))
            (perm_middle boots (boots_of gs))),
      q ∙ Booted-slots booted,
    )

-- If grouping succeeds, the groups hold the given slots and the given boot entries, each exactly
-- as often as given.
pub group_volumes-perm :
    (slots : List Slot) (boots : List BootEntry) (gs : List SlotGroup)
    → group_volumes slots boots ≡ ok gs
    → Perm (slots_of gs) slots × Perm (boots_of gs) boots
unfolding group_volumes
group_volumes-perm slots boots gs e =
    let (mid, a, h) = >>=-eq-ok (add_slots slots []) (add_boots boots) e in
    let (p, p') = add_slots-perm slots [] a in
    let (q, q') = add_boots-perm boots mid h in
    (rw (q', ← append-nil slots) p, rw (p', append-nil) at q)

add_slot-ne-panic : (s : Slot) (gs : List SlotGroup) → add_slot s gs ≢ panic
unfolding add_slot attach_slot
add_slot-ne-panic s [] e = ground arith
add_slot-ne-panic s (g ∷ gs) e = ground (arith, add_slot-ne-panic s gs)

add_slots-ne-panic : (slots : List Slot) (gs : List SlotGroup) → add_slots slots gs ≢ panic
unfolding add_slots
add_slots-ne-panic [] gs e = cc
add_slots-ne-panic (s ∷ slots) gs e = elim (Result-cases (add_slot s gs)) [
  | inl (next, a) ↦ add_slots-ne-panic slots next (rw a at e)
  | inr (inl (x, a)) ↦ ground arith
  | inr (inr a) ↦ add_slot-ne-panic s gs a
]

add_boot-ne-panic : (b : BootEntry) (gs : List SlotGroup) → IsManaged b → add_boot b gs ≢ panic
unfolding add_boot
add_boot-ne-panic b [] k e = cc
add_boot-ne-panic b (g ∷ gs) k e = ground (arith, add_boot-ne-panic b gs k)

add_boots-ne-panic :
    (boots : List BootEntry) (gs : List SlotGroup)
    → All IsManaged boots
    → add_boots boots gs ≢ panic
unfolding add_boots
add_boots-ne-panic [] gs k e = cc
add_boots-ne-panic (b ∷ boots) gs k e = elim (Result-cases (add_boot b gs)) [
  | inl (next, a) ↦ add_boots-ne-panic boots next k.1 (rw a at e)
  | inr (inl (x, a)) ↦ ground arith
  | inr (inr a) ↦ add_boot-ne-panic b gs k.0 a
]

-- Grouping managed boot entries never panics: the version that the error message of a second
-- boot entry unwraps is there.
group_volumes-ne-panic :
    (slots : List Slot) (boots : List BootEntry)
    → All IsManaged boots
    → group_volumes slots boots ≢ panic
unfolding group_volumes
group_volumes-ne-panic slots boots k e = elim (Result-cases (add_slots slots [])) [
  | inl (mid, a) ↦ add_boots-ne-panic boots mid k (rw a at e)
  | inr (inl (x, a)) ↦ ground arith
  | inr (inr a) ↦ add_slots-ne-panic slots [] a
]
