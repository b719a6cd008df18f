-- ===== src/Image/Group/Coherence.antt =====
-- crates/ota-update/src/image/group.rs: how the parts of a group fit together.
use ghaf_givc.Prelude.{
  ◌≡◌, refl, sym, ap, subst, ◌∙◌, ◌⊎◌, inl, inr, true, ◌||◌, Option, none, some, List, [], ◌∷◌,
  arith, Bool-cases, Option-cases, is_some_and, ◌==◌, eq_iff, list_eq, option_eq, nat_eq, All, ok,
  >>=-eq-ok,
}
use ghaf_givc.Image.Slot
use ghaf_givc.Image.Slot.{Slot, Kind, root, verity, status_eq}
use ghaf_givc.Image.Version.{version_eq}
use ghaf_givc.Image.Group.Grouping.{
  Placed, new, found, later, add_slot-Placed, attach_slot_cases, Booted, orphan, fitted, passed,
  add_boot-Booted,
}
use ghaf_givc.Image.Uki
use ghaf_givc.Image.Uki.{BootEntry}
use ghaf_givc.Image.Group.{
  SlotGroup, empty_group, matches_slot, matches_boot, attach_slot, add_slot, add_slots, add_boot,
  add_boots, group_volumes,
}

abbrev pub HasKind : Kind → Option Slot → Type 0
HasKind k none = Unit
HasKind k (some s) = s.kind ≡ k

abbrev pub SameStatus : Option Slot → Option Slot → Type 0
SameStatus (some r) (some v) = r.status ≡ v.status
SameStatus (some r) none = Unit
SameStatus none v = Unit

abbrev pub BootFits : Option BootEntry → Option Slot → Type 0
BootFits (some b) (some s) = Uki.matches b s ≡ true
BootFits (some b) none = Unit
BootFits none s = Unit

-- The slots stand in their places and have one status, and the boot entry is for their version.
pub record IsCoherent (g : SlotGroup) : Type 0 where
  pub root_kind : HasKind root g.root
  pub verity_kind : HasKind verity g.verity
  pub same_status : SameStatus g.root g.verity
  pub boot_root : BootFits g.boot g.root
  pub boot_verity : BootFits g.boot g.verity

-- A coherent group that no boot entry is attached to yet.
abbrev pub IsUnbooted : SlotGroup → Type 0
IsUnbooted g = IsCoherent g × (g.boot ≡ none)

abbrev pub IsManaged : BootEntry → Type 0
IsManaged b = Uki.is_managed b ≡ true

-- A slot that passes the test, and its status.
some-matches :
    (o : Option Slot) (s : Slot)
    → is_some_and (λ r. Slot.matches r s) o ≡ true
    → (r : Slot) × (o ≡ some r) × (r.status ≡ s.status)
some-matches none s h = cc
some-matches (some r) s h = (r, refl, (eq_iff r.status s.status).0 h)

matches_slot_cases :
    (g : SlotGroup) (s : Slot)
    → matches_slot g s ≡ true
    → ((r : Slot) × (g.root ≡ some r) × (r.status ≡ s.status))
      ⊎ ((v : Slot) × (g.verity ≡ some v) × (v.status ≡ s.status))
unfolding matches_slot
matches_slot_cases g s m = elim (Bool-cases (is_some_and (λ r. Slot.matches r s) g.root)) [
  | inl t ↦ inl (some-matches g.root s t)
  | inr f ↦ inr (some-matches g.verity s (rw f at m))
]

attach_slot-IsUnbooted :
    (g : SlotGroup) (s : Slot) {g' : SlotGroup}
    → IsUnbooted g
    → matches_slot g s ≡ true
    → attach_slot g s ≡ ok g'
    → IsUnbooted g'
attach_slot-IsUnbooted g s {g'} (c, n) m e = elim (matches_slot_cases g s m) [
  | inl (r, p, q) ↦ ground (arith, attach_slot_cases g s e, c.root_kind)
  | inr (v, p, q) ↦ ground (arith, attach_slot_cases g s e, c.verity_kind)
]

attach_slot_new : (s : Slot) {g : SlotGroup} → attach_slot empty_group s ≡ ok g → IsUnbooted g
unfolding attach_slot
attach_slot_new s e = ground arith

Placed-IsUnbooted :
    {s : Slot} {gs gs' : List SlotGroup} → Placed s gs gs' → All IsUnbooted gs → All IsUnbooted gs'
Placed-IsUnbooted {s} (new a) c = (attach_slot_new s a, tt)
Placed-IsUnbooted {s} (found {g} m a) c = (attach_slot-IsUnbooted g s c.0 m a, c.1)
Placed-IsUnbooted (later m p) c = (c.0, Placed-IsUnbooted p c.1)

add_slots-IsUnbooted :
    (slots : List Slot) (gs : List SlotGroup) {gs' : List SlotGroup}
    → All IsUnbooted gs
    → add_slots slots gs ≡ ok gs'
    → All IsUnbooted gs'
unfolding add_slots
add_slots-IsUnbooted [] gs c e = subst (All IsUnbooted) (ground arith) c
add_slots-IsUnbooted (s ∷ slots) gs c e =
    let (next, a, h) = >>=-eq-ok (add_slot s gs) (add_slots slots) e in
    add_slots-IsUnbooted slots next (Placed-IsUnbooted (add_slot-Placed s gs a) c) h

managed-matches :
    (b : BootEntry) (s : Slot)
    → IsManaged b
    → Slot.version s ≡ Uki.version b
    → Uki.matches b s ≡ true
managed-matches b s k e = elim (Option-cases (Uki.uki b)) [
  | inl n ↦ ground arith
  | inr (u, p) ↦ ground (arith, eq_iff (Slot.version s) (some u.version))
]

fits_pair :
    (b : BootEntry) (o p : Option Slot)
    → IsManaged b
    → SameStatus o p
    → is_some_and
        (λ r.
          Slot.version r == Uki.version b || is_some_and (λ v. Slot.version v == Uki.version b) p)
        o
      ≡ true
    → BootFits (some b) o × BootFits (some b) p
fits_pair b none p k same h = cc
fits_pair b (some r) none k same h =
    (managed-matches b r k (ground (arith, eq_iff (Slot.version r) (Uki.version b))), tt)
fits_pair b (some r) (some v) k same h =
    let versions = ap Slot.status_version same in
    let e : Slot.version r ≡ Uki.version b =
      ground
        (arith, eq_iff (Slot.version r) (Uki.version b), eq_iff (Slot.version v) (Uki.version b)) in
    (managed-matches b r k e, managed-matches b v k (sym versions ∙ e))

fitted-IsCoherent :
    (b : BootEntry) (g : SlotGroup)
    → IsManaged b
    → IsCoherent g
    → matches_boot g b ≡ true
    → IsCoherent (record g { boot = some b })
unfolding matches_boot
fitted-IsCoherent b g k c m =
    let (fits_root, fits_verity) = fits_pair b g.root g.verity k c.same_status m in
    record {
      root_kind = c.root_kind;
      verity_kind = c.verity_kind;
      same_status = c.same_status;
      boot_root = fits_root;
      boot_verity = fits_verity;
    }

Booted-IsCoherent :
    {b : BootEntry} {gs gs' : List SlotGroup}
    → Booted b gs gs'
    → IsManaged b
    → All IsCoherent gs
    → All IsCoherent gs'
Booted-IsCoherent orphan k c = (omega arith, tt)
Booted-IsCoherent {b} (fitted {g} m n) k c = (fitted-IsCoherent b g k c.0 m, c.1)
Booted-IsCoherent (passed m p) k c = (c.0, Booted-IsCoherent p k c.1)

add_boots-IsCoherent :
    (boots : List BootEntry) (gs : List SlotGroup) {gs' : List SlotGroup}
    → All IsManaged boots
    → All IsCoherent gs
    → add_boots boots gs ≡ ok gs'
    → All IsCoherent gs'
unfolding add_boots
add_boots-IsCoherent [] gs k c e = subst (All IsCoherent) (ground arith) c
add_boots-IsCoherent (b ∷ boots) gs k c e =
    let (next, a, h) = >>=-eq-ok (add_boot b gs) (add_boots boots) e in
    add_boots-IsCoherent boots next k.1 (Booted-IsCoherent (add_boot-Booted b gs a) k.0 c) h

All-fst : (gs : List SlotGroup) → All IsUnbooted gs → All IsCoherent gs
All-fst [] c = tt
All-fst (g ∷ gs) c = (c.0.0, All-fst gs c.1)

-- If grouping slots and managed boot entries succeeds, then in every group what is in the place of
-- the root is a root slot, what is in the place of the verity tree is a verity slot, the two have one
-- status where both are there, and a boot entry matches each slot that is there with it.
pub group_volumes-IsCoherent :
    (slots : List Slot) (boots : List BootEntry) (gs : List SlotGroup)
    → All IsManaged boots
    → group_volumes slots boots ≡ ok gs
    → All IsCoherent gs
unfolding group_volumes
group_volumes-IsCoherent slots boots gs k e =
    let (mid, a, h) = >>=-eq-ok (add_slots slots []) (add_boots boots) e in
    add_boots-IsCoherent boots mid k (All-fst mid (add_slots-IsUnbooted slots [] tt a)) h
