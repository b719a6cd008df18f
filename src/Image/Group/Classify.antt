-- ===== src/Image/Group/Classify.antt =====
-- crates/ota-update/src/image/group.rs: what `validate` and `classify` answer.
use ghaf_givc.Prelude.{
  ◌≡◌, ◌≢◌, inl, inr, true, false, Option, none, some, arith, &&-eq-true, is_some, option_beq,
  list_eq, option_eq, nat_eq, Error, ok, err, >>-eq-ok, Result-cases, uki_root_mismatch,
  uki_verity_mismatch,
}
use ghaf_givc.Image.Kernel.{KernelParams}
use ghaf_givc.Image.Slot.{Slot, empty, broken}
use ghaf_givc.Image.Uki
use ghaf_givc.Image.Uki.{BootEntry}
use ghaf_givc.Image.Group.{
  SlotGroup, validate, classify, validate_boot, is_empty, both_empty, validate_pair,
}
use ghaf_givc.Image.Slot
use ghaf_givc.Image.Version.{version_eq}

-- A boot entry never matches an empty slot.
matches-empty : (b : BootEntry) (s : Slot) → Slot.is_empty s ≡ true → Uki.matches b s ≡ false
unfolding option_beq
matches-empty b s h = ground arith

validate_boot-empty :
    (e : Error) (b : BootEntry) (s : Slot)
    → Slot.is_empty s ≡ true
    → validate_boot e (some b) (some s) ≡ err e
validate_boot-empty e b s h = rw (matches-empty b s h)

-- The last check and the two before it exclude one another.
no_valid_parts :
    (r v : Option Slot) (boot : Option BootEntry)
    → validate_boot uki_root_mismatch boot r ≡ ok tt
    → validate_boot uki_verity_mismatch boot v ≡ ok tt
    → both_empty r v ≡ true
    → is_some boot ≡ true
    → ⊥
no_valid_parts r v none p q h k = cc
no_valid_parts none none (some b) p q h k = cc
no_valid_parts none (some v) (some b) p q h k = cc (validate_boot-empty uki_verity_mismatch b v h)
no_valid_parts (some r) none (some b) p q h k = cc (validate_boot-empty uki_root_mismatch b r h)
no_valid_parts (some r) (some v) (some b) p q h k =
    cc (validate_boot-empty uki_root_mismatch b r (&&-eq-true _ _ h).0)

validate_parts :
    (g : SlotGroup)
    → validate g ≡ ok tt
    → (validate_boot uki_root_mismatch g.boot g.root ≡ ok tt)
      × (validate_boot uki_verity_mismatch g.boot g.verity ≡ ok tt)
      × (is_empty g ≡ true)
      × (is_some g.boot ≡ true)
unfolding validate
validate_parts g h =
    let (p, h1) = >>-eq-ok (validate_pair g.root g.verity) _ h in
    let (q, h2) = >>-eq-ok (validate_boot uki_root_mismatch g.boot g.root) _ h1 in
    let (r, h3) = >>-eq-ok (validate_boot uki_verity_mismatch g.boot g.verity) _ h2 in
    (q, r, ground arith, ground arith)

-- No slot group passes `validate`: its last check asks for an empty group that has a boot entry,
-- and the checks before it refuse such a group.
pub validate-ne-ok : (g : SlotGroup) → validate g ≢ ok tt
validate-ne-ok g h =
    let (p, q, e, b) = validate_parts g h in no_valid_parts g.root g.verity g.boot p q e b

-- Every slot group is classified as broken, whatever the kernel's parameters.
pub classify-broken : (g : SlotGroup) (kernel : KernelParams) → classify g kernel ≡ broken
unfolding classify
classify-broken g kernel = elim (Result-cases (validate g)) [
  | inl (u, e) ↦ absurd (validate-ne-ok g e)
  | inr (inl (x, e)) ↦ rw (e, classify)
  | inr (inr e) ↦ rw (e, classify)
]
